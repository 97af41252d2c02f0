-- ===== src/Services/Total.antt =====
-- The services over a relay answer every well-formed message, whatever the relay returns.
use mathlib.Core.Path.{subst}
use odp_secure_services.Ffa.Payload.Codec.{from_iter-IsPayload, from_iter-fits}
use odp_secure_services.Ffa.Payload.{slice, u32_at, IsPayload, u8_at, payload_len}
use odp_secure_services.Base.Bytes.{le_bytes-IsByte, IsByte, le_bytes}
use odp_secure_services.Handler.Reply.{RepliesWith}
use odp_secure_services.Ffa.Message.{from_req_with_payload, MsgSendDirectReq2}
use odp_secure_services.Base.{
  sym, true, ◌&&◌, leb, ◌+◌, length-take, get_elem?_in_range, All-take, ◌<◌, none, drop, [], some,
  err, take, ◌∷◌, Option, ok, ltb, refl, ◌==◌, inr, ◌≤◌, ◌≡◌, inl, arith, length, Bool-cases, All,
  Result, List, ℕ,
}
use odp_secure_services.Relay.Header.{exact, EcRelayError, take_array, take_exact_array}
use odp_secure_services.Relay.Interface.{
  OdpResponse, invoke_request_with_response_id, RelayLaws, Relay, check_response,
}
use odp_secure_services.Services.Common.{
  with_error, Handled, respond, scalar_response, getter_response, parsed_or_sentinel,
  parse_empty_response, local_error_sentinel,
}
use odp_secure_services.Base.Options.{Returns-mono, ◌>>=◌, Returns, returns, Returns->>=}
use odp_secure_services.Base.Results.{Yields, Yields-map_err}

check_response-Yields :
    {A : Type 0} (P : A → Type 0) (service_id id : ℕ) (parse : List ℕ → Result EcRelayError A)
    (r : OdpResponse)
    → Yields P (parse r.body)
    → Yields P (check_response service_id id parse r)
unfolding check_response
check_response-Yields P service_id id parse r good = elim (Bool-cases r.is_request) [
  | inl request ↦ rw request tt
  | inr response ↦ rw response (elim (Bool-cases (r.service_id == service_id)) [
    | inr elsewhere ↦ rw elsewhere tt
    | inl here ↦ rw here (elim (Bool-cases r.is_error) [
      | inl failed ↦ rw failed tt
      | inr success ↦ rw success (elim (Bool-cases (r.message_id == id)) [
        | inr differs ↦ rw differs tt
        | inl same ↦ rw same good
      ])
    ])
  ])
]

exact-Yields : (P : List ℕ → Type 0) (head rest : List ℕ) → P head → Yields P (exact (head, rest))
exact-Yields P head [] p = p
exact-Yields P head (b ∷ rest) p = tt

-- A body of bytes that is read exactly.
pub take_exact_array-Yields :
    (n : ℕ) (body : List ℕ)
    → All IsByte body
    → Yields (λ (l : List ℕ). All IsByte l × (length l ≡ n)) (take_exact_array n body)
unfolding take_exact_array take_array
take_exact_array-Yields n body bytes = elim (Bool-cases (ltb (length body) n)) [
  | inl short ↦ rw short tt
  | inr long ↦ rw long (
      exact-Yields (λ l. All IsByte l × (length l ≡ n)) (take n body) (drop n body)
        (All-take IsByte n body bytes, length-take n body (ground (arith, long))))
]

pub Yields-any : {E A : Type 0} (r : Result E A) → Yields (λ _. Unit {0}) r
Yields-any (ok a) = tt
Yields-any (err e) = tt

-- An answer of up to 112 bytes is a reply.
pub respond-RepliesWith :
    {R : Type 0} (msg : MsgSendDirectReq2) (r : R) (bytes : List ℕ)
    → All IsByte bytes
    → length bytes ≤ payload_len
    → Returns (λ x. (x.0 ≡ r) × RepliesWith msg x.1) (respond msg r bytes)
unfolding from_req_with_payload
respond-RepliesWith msg r bytes k h = rw (from_iter-fits bytes h) (
    returns _ (
      refl,
      record {
        source = refl;
        destination = refl;
        same_uuid = refl;
        payload_ok = from_iter-IsPayload bytes k h;
      },
    ))

module _ {R : Type 0} (relay : Relay R) (laws : RelayLaws relay) where
  -- What a handler of a message promises.
  abbrev pub Answers : MsgSendDirectReq2 → Handled R → Type 0
  Answers msg = Returns (λ r. laws.Valid r.0 × RepliesWith msg r.1)

  pub respond-Answers :
      (msg : MsgSendDirectReq2) (r : R) (bytes : List ℕ)
      → laws.Valid r
      → All IsByte bytes
      → length bytes ≤ payload_len
      → Answers msg (respond msg r bytes)
  respond-Answers msg r bytes v k h =
      Returns-mono (respond-RepliesWith msg r bytes k h)
        (λ x (same, reply). (subst laws.Valid (sym same) v, reply))

  pub scalar_response-Answers :
      (msg : MsgSendDirectReq2) (r : R) (value : ℕ)
      → laws.Valid r
      → Answers msg (scalar_response msg r value)
  scalar_response-Answers msg r value v =
      respond-Answers msg r (le_bytes 4 value) v (le_bytes-IsByte 4 value) (omega arith)

  -- A call of the relay.
  pub call_total :
      {E A : Type 0} (P : A → Type 0) (f : EcRelayError → E) (service_id id response_id : ℕ)
      (request : List ℕ) (parse : List ℕ → Result EcRelayError A) (r : R)
      → laws.Valid r
      → ((body : List ℕ) → All IsByte body → Yields P (parse body))
      → Returns
          (λ x. laws.Valid x.0 × Yields P x.1)
          (with_error f
            (invoke_request_with_response_id relay service_id id response_id request parse r))
  unfolding invoke_request_with_response_id
  call_total {A = A} P f service_id id response_id request parse r v good =
      Returns->>= _
        (laws.total A P r _ request _ v (λ response bytes.
          check_response-Yields P service_id response_id parse response (good response.body bytes)))
        (λ x (valid, yields). returns _ (valid, Yields-map_err P f x.1 yields))

  pub getter_response-Answers :
      {E : Type 0} (f : EcRelayError → E) (msg : MsgSendDirectReq2) (service_id id response_id : ℕ)
      (request : List ℕ) (parse : List ℕ → Result EcRelayError ℕ) (r : R)
      → laws.Valid r
      → Answers msg (
          getter_response msg (
            with_error f
              (invoke_request_with_response_id relay service_id id response_id request parse r)))
  getter_response-Answers f msg service_id id response_id request parse r v =
      Returns->>= _
        (call_total (λ _. Unit {0}) f service_id id response_id request parse r v
          (λ body _. Yields-any (parse body)))
        (λ x (valid, _). scalar_response-Answers msg x.0 _ valid)

  pub setter_response-Answers :
      {E : Type 0} (f : EcRelayError → E) (status : Result E (Unit {0}) → ℕ)
      (msg : MsgSendDirectReq2) (service_id id response_id : ℕ) (request : List ℕ) (r : R)
      → laws.Valid r
      → Answers msg (
          with_error f (
            invoke_request_with_response_id relay service_id id response_id request
              parse_empty_response r)
          >>= λ (r', result). scalar_response msg r' (status result))
  setter_response-Answers f status msg service_id id response_id request r v =
      Returns->>= _
        (call_total (λ _. Unit {0}) f service_id id response_id request parse_empty_response r v
          (λ body _. Yields-any (parse_empty_response body)))
        (λ x (valid, _). scalar_response-Answers msg x.0 _ valid)

  pub parsed_or_sentinel-Answers :
      (msg : MsgSendDirectReq2) (r : R) (o : Option (List ℕ)) (answer : List ℕ → Handled R)
      → laws.Valid r
      → ((request : List ℕ) → Answers msg (answer request))
      → Answers msg (parsed_or_sentinel msg r o answer)
  parsed_or_sentinel-Answers msg r none answer v k =
      scalar_response-Answers msg r local_error_sentinel v
  parsed_or_sentinel-Answers msg r (some request) answer v k = k request

  -- The byte of a payload.
  pub u8_at-Answers :
      (msg : MsgSendDirectReq2) (i : ℕ) (answer : ℕ → Handled R)
      → IsPayload msg.payload
      → i < payload_len
      → ((b : ℕ) → Answers msg (answer b))
      → Answers msg (u8_at msg.payload i >>= answer)
  unfolding u8_at
  u8_at-Answers msg i answer p h k =
      let (b, e) = get_elem?_in_range msg.payload i (omega (arith, p.len)) in rw e (k b)

  -- A word of a payload.
  pub u32_at-Answers :
      (msg : MsgSendDirectReq2) (i : ℕ) (answer : ℕ → Handled R)
      → IsPayload msg.payload
      → i + 4 ≤ payload_len
      → ((v : ℕ) → Answers msg (answer v))
      → Answers msg (u32_at msg.payload i >>= answer)
  unfolding u32_at slice
  u32_at-Answers msg i answer p h k =
      let inside : (leb i (i + 4) && leb (i + 4) (length msg.payload)) ≡ true =
        ground (arith, p.len) in
      rw inside (k _)
