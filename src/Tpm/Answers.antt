-- ===== src/Tpm/Answers.antt =====
-- tpm.rs: a message to the TPM service, from the request's registers to the response's.
use odp_secure_services.Handler.Reply.{RepliesWith}
use odp_secure_services.Base.{◌^◌, ◌<◌, ◌≡◌, refl, [], ◌∷◌, Option, some, none, Result, ok, arith}
use odp_secure_services.Base.Options.{Returns, returns, Returns->>=}
use odp_secure_services.Base.Bytes.{register_bytes-IsByte, register_bytes, length-register_bytes}
use odp_secure_services.Ffa.Error.{Error}
use odp_secure_services.Ffa.Payload.{DirectMessagePayload, IsPayload, register_at}
use odp_secure_services.Ffa.Payload.Codec.{
  from_iter-IsPayload, from_iter-fits, register_at-in_range, register_at-from_iter,
}
use odp_secure_services.Ffa.Message.{MsgSendDirectReq2, MsgSendDirectResp2, from_req_with_payload}
use odp_secure_services.Tpm.Command.{TpmSstOps, TpmService}
use odp_secure_services.Tpm.Service.{
  TpmRequest, TpmResponse, tpm_request_from, payload_from_response, serve, handle,
}
use odp_secure_services.Tpm.Access.{serve_lem}

-- The request that the first registers of a message spell.
pub data IsRequest (msg : MsgSendDirectReq2) : TpmRequest → Type 0 where
  is_request :
      (request : TpmRequest)
      → register_at msg.payload 0 ≡ some request.opcode
      → register_at msg.payload 1 ≡ some request.function
      → register_at msg.payload 2 ≡ some request.locality
      → IsRequest msg request

-- A response to the sender whose first registers hold the answer.
pub data IsResponse (msg : MsgSendDirectReq2) (answer : TpmResponse)
    : Result Error MsgSendDirectResp2 → Type 0 where
  is_response :
      (payload : DirectMessagePayload)
      → IsPayload payload
      → register_at payload 0 ≡ some answer.tpm_status
      → register_at payload 1 ≡ some answer.tpm_payload
      → IsResponse msg answer (
          ok (record {
            source_id = msg.destination_id;
            destination_id = msg.source_id;
            uuid = msg.uuid;
            payload = payload;
          }))

-- What `handle` returns: the state and the answer of `serve` on the request.
pub record IsServed {S : Type 0} (ops : TpmSstOps S) (s : TpmService S) (msg : MsgSendDirectReq2)
    (r : TpmService S × Result Error MsgSendDirectResp2) : Type 0 where
  pub request : TpmRequest
  pub decoded : IsRequest msg request
  pub state : r.0 ≡ (serve ops msg.source_id request s).0
  pub response : IsResponse msg (serve ops msg.source_id request s).1 r.1

-- What a computation that returns `some` returns.
Returns-some : {A : Type 0} {a : A} {o : Option A} → o ≡ some a → Returns (λ b. o ≡ some b) o
Returns-some {o = some b} e = returns b refl
Returns-some {o = none} e = cc

IsRequest-Returns :
    (msg : MsgSendDirectReq2)
    → IsPayload msg.payload
    → Returns (IsRequest msg) (tpm_request_from msg)
unfolding tpm_request_from
IsRequest-Returns msg p =
    Returns->>= _ (Returns-some (register_at-in_range msg.payload 0 (omega (arith, p.len))))
      λ opcode e0.
        Returns->>= _ (Returns-some (register_at-in_range msg.payload 1 (omega (arith, p.len))))
          λ function e1.
            Returns->>= _ (Returns-some (register_at-in_range msg.payload 2 (omega (arith, p.len))))
              λ locality e2. returns _ (
                is_request (record { opcode = opcode; function = function; locality = locality }) e0
                  e1 e2)

IsResponse-Returns :
    (msg : MsgSendDirectReq2) (answer : TpmResponse)
    → answer.tpm_status < 2 ^ 64
    → answer.tpm_payload < 2 ^ 64
    → Returns
        (λ payload. IsResponse msg answer (ok (from_req_with_payload msg payload)))
        (payload_from_response answer)
unfolding payload_from_response from_req_with_payload
IsResponse-Returns msg answer h k =
    let words = answer.tpm_status ∷ answer.tpm_payload ∷ [] in
    let fits = from_iter-fits (register_bytes words) (omega (arith, length-register_bytes words)) in
    let status = rw fits at (register_at-from_iter words 0 (omega arith) refl h) in
    let payload = rw fits at (register_at-from_iter words 1 (omega arith) refl k) in
    let good =
      from_iter-IsPayload (register_bytes words) (register_bytes-IsByte words)
        (omega (arith, length-register_bytes words)) in
    rw fits (returns _ (is_response _ good status payload))

module _ {S : Type 0} (ops : TpmSstOps S) where
  -- A message with a payload of 112 bytes is answered, never by an error or a panic: the request is its first three registers,
  -- the state is that of `serve`, and the response goes back to the sender with the answer in its
  -- first two registers.
  pub handle-IsServed :
      (s : TpmService S) (msg : MsgSendDirectReq2)
      → IsPayload msg.payload
      → Returns (IsServed ops s msg) (handle ops s msg)
  unfolding handle
  handle-IsServed s msg p = Returns->>= _ (IsRequest-Returns msg p) λ request decoded.
      let served = serve_lem ops (λ _. Unit) msg.source_id request s tt tt (λ _. tt) (λ _. tt) in
      Returns->>= _ (IsResponse-Returns msg (serve ops msg.source_id request s).1 served.1 served.2)
        λ payload answered.
          returns _
            (record { request = request; decoded = decoded; state = refl; response = answered })

-- A served message is answered by a reply.
pub IsResponse-IsReply :
    {msg : MsgSendDirectReq2} {answer : TpmResponse} {r : Result Error MsgSendDirectResp2}
    → IsResponse msg answer r
    → RepliesWith msg r
IsResponse-IsReply (is_response payload good status word) = record {
  source = refl;
  destination = refl;
  same_uuid = refl;
  payload_ok = good;
}
