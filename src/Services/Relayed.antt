-- ===== src/Services/Relayed.antt =====
-- What a response of the embedded controller becomes in the answer of a service.
use odp_secure_services.Ffa.Payload.{payload_len, IsPayload, slice}
use odp_secure_services.Base.Results.{map_err, unwrap_or}
use odp_secure_services.Ffa.Message.{MsgSendDirectReq2}
use odp_secure_services.Relay.Header.{
  body_too_short, body_too_long, build_odp_header, EcRelayError, take_array, take_exact_array,
}
use odp_secure_services.Relay.Interface.{
  check_response, invoke_request_with_response_id, OdpResponse, Relay,
}
use odp_secure_services.Services.Common.{
  parse_ffa_request, with_error, getter_response, scalar_response, parse_u32, parse_empty_response,
  local_error_sentinel,
}
use odp_secure_services.Services.TimeAlarm
use odp_secure_services.Services.Thermal
use odp_secure_services.Base.Bytes.{from_le_bytes}
use odp_secure_services.Base.{
  ◌-◌, leb, ◌<◌, drop, take, refl, ◌+◌, [], ltb, ◌∷◌, inl, inr, false, arith, err, ap, ◌⊎◌, true,
  ok, length, some, ◌≡◌, ◌==◌, Result, if◌then◌else◌, ◌&&◌, not, List, ℕ, Bool,
}

-- The relay, in state `r`, gets the response to a request, and is then in state `r'`.
abbrev pub Responds : {R : Type 0} → Relay R → R → List ℕ → List ℕ → OdpResponse → R → Type 1
Responds {R} relay r header request response r' =
    (A : Type 0) (parse : OdpResponse → Result EcRelayError A)
    → relay.invoke A r header request parse ≡ some (r', parse response)

-- The arguments of a request: the bytes after that of the command.
abbrev pub arguments : ℕ → MsgSendDirectReq2 → List ℕ
arguments n msg = take n (drop 1 msg.payload)

pub parse_ffa_request-arguments :
    (n : ℕ) (msg : MsgSendDirectReq2)
    → IsPayload msg.payload
    → n < payload_len
    → parse_ffa_request n msg.payload ≡ some (arguments n msg)
unfolding parse_ffa_request slice
parse_ffa_request-arguments n msg p h =
    let inside : (leb 1 (1 + n) && leb (1 + n) (length msg.payload)) ≡ true =
      ground (arith, p.len) in
    let width : 1 + n - 1 ≡ n = omega arith in rw (inside, width) refl

-- A response of the service, and one that is a success with the id and as many bytes.
abbrev pub comes_from : ℕ → OdpResponse → Bool
comes_from service_id r = not r.is_request && (r.service_id == service_id)

abbrev pub succeeds : ℕ → ℕ → ℕ → OdpResponse → Bool
succeeds service_id id n r =
    comes_from service_id r && (not r.is_error && ((r.message_id == id) && (length r.body == n)))

-- What a getter of a word reads, and the status that a setter reports.
abbrev pub reading : ℕ → ℕ → OdpResponse → ℕ
reading service_id id r = if succeeds service_id id 4 r then from_le_bytes r.body else 0xFFFFFFFF

abbrev pub status : ℕ → ℕ → OdpResponse → ℕ
status service_id id r =
    if succeeds service_id id 0 r
    then 0
    else if comes_from service_id r && r.is_error
    then r.message_id
    else 0xFFFFFFFF

pub parse_u32-value :
    (body : List ℕ)
    → ((parse_u32 body ≡ ok (from_le_bytes body)) × ((length body == 4) ≡ true))
      ⊎ ((e : EcRelayError) × (parse_u32 body ≡ err e) × ((length body == 4) ≡ false))
unfolding parse_u32 take_exact_array take_array
parse_u32-value [] = inr (body_too_short, refl, refl)
parse_u32-value (a ∷ []) = inr (body_too_short, refl, refl)
parse_u32-value (a ∷ b ∷ []) = inr (body_too_short, refl, refl)
parse_u32-value (a ∷ b ∷ c ∷ []) = inr (body_too_short, refl, refl)
parse_u32-value (a ∷ b ∷ c ∷ d ∷ []) = inl (refl, refl)
parse_u32-value (a ∷ b ∷ c ∷ d ∷ x ∷ body) =
    let long : ltb (5 + length body) 4 ≡ false = ground arith in
    let more : (5 + length body == 4) ≡ false = ground arith in
    inr (body_too_long, ground arith, ground arith)

parse_empty_response-value :
    (body : List ℕ)
    → ((parse_empty_response body ≡ ok tt) × ((length body == 0) ≡ true))
      ⊎ ((parse_empty_response body ≡ err body_too_long) × ((length body == 0) ≡ false))
unfolding parse_empty_response take_exact_array take_array
parse_empty_response-value [] = inl (refl, refl)
parse_empty_response-value (a ∷ body) = inr (ground arith, ground arith)

checked_reading :
    {E : Type 0} (f : EcRelayError → E) (service_id id : ℕ) (r : OdpResponse)
    → unwrap_or (map_err f (check_response service_id id parse_u32 r)) local_error_sentinel
      ≡ reading service_id id r
unfolding check_response
checked_reading f service_id id r = grind (arith, parse_u32-value r.body)

pub checked_status :
    (service_id id : ℕ) (r : OdpResponse)
    → TimeAlarm.setter_status
        (map_err TimeAlarm.relay_error (check_response service_id id parse_empty_response r))
      ≡ status service_id id r
unfolding check_response TimeAlarm.setter_status
checked_status service_id id r = grind (arith, parse_empty_response-value r.body)

pub getter_response-reading :
    {R E : Type 0} (relay : Relay R) (f : EcRelayError → E) (msg : MsgSendDirectReq2)
    (service_id id response_id : ℕ) (request : List ℕ) (r r' : R) (response : OdpResponse)
    → Responds relay r (build_odp_header true service_id id) request response r'
    → getter_response msg (
        with_error f
          (invoke_request_with_response_id relay service_id id response_id request parse_u32 r))
      ≡ scalar_response msg r' (reading service_id response_id response)
unfolding invoke_request_with_response_id
getter_response-reading relay f msg service_id id response_id request r r' response answer =
    rw (answer _ (check_response service_id response_id parse_u32))
      (ap (λ (v : ℕ). scalar_response msg r' v) (checked_reading f service_id response_id response))

pub thermal_checked_status :
    (service_id id : ℕ) (r : OdpResponse)
    → Thermal.setter_status
        (map_err Thermal.relay_error (check_response service_id id parse_empty_response r))
      ≡ status service_id id r
unfolding check_response Thermal.setter_status
thermal_checked_status service_id id r = grind (arith, parse_empty_response-value r.body)
