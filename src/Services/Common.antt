-- ===== src/Services/Common.antt =====
-- services/mod.rs, and the shapes of a call of the relay and of an answer.
use odp_secure_services.Ffa.Error.{Error}
use odp_secure_services.Base.Bytes.{from_le_bytes, le_bytes}
use odp_secure_services.Relay.Header.{take_exact_array, EcRelayError}
use odp_secure_services.Base.{none, ok, some, Result, ◌+◌, List, Option, ℕ}
use odp_secure_services.Base.Options.{◌>>=◌}
use odp_secure_services.Base.Results
use odp_secure_services.Base.Results.{map_err, unwrap_or}
use odp_secure_services.Ffa.Payload.{slice, from_iter, DirectMessagePayload}
use odp_secure_services.Ffa.Message.{MsgSendDirectReq2, MsgSendDirectResp2, from_req_with_payload}

-- `parse_ffa_request::<T>` for a type of `size` bytes, which is a view of those bytes: `none` where
-- they do not lie in the payload.
unfoldable pub parse_ffa_request : ℕ → DirectMessagePayload → Option (List ℕ)
unfolding slice
parse_ffa_request size payload =
    let start : ℕ = 1 in let end = start + size in slice payload start end

-- `Result::map_err` on what a call of the relay returns.
abbrev pub with_error :
    {R E A : Type 0}
    → (EcRelayError → E)
    → Option (R × Result EcRelayError A)
    → Option (R × Result E A)
with_error f call = call >>= λ (r, result). some (r, map_err f result)

-- What a handler returns: the relay's state afterwards, and the response or an error.
abbrev pub Handled : Type 0 → Type 0
Handled R = Option (R × Result Error MsgSendDirectResp2)

-- `Ok(from_req_with_payload(&msg, DirectMessagePayload::from_iter(bytes)))`.
abbrev pub respond : {R : Type 0} → MsgSendDirectReq2 → R → List ℕ → Handled R
respond msg r bytes =
    from_iter bytes >>= λ payload. some (r, ok (from_req_with_payload msg payload))

-- `u32::MAX`.
abbrev pub local_error_sentinel : ℕ
local_error_sentinel = 0xFFFFFFFF

-- A scalar response: `scalar_payload` of time_alarm.rs and of thermal.rs.
abbrev pub scalar_response : {R : Type 0} → MsgSendDirectReq2 → R → ℕ → Handled R
scalar_response msg r value = respond msg r (le_bytes 4 value)

-- The value of a getter, or the sentinel.
abbrev pub getter_response :
    {R E : Type 0} → MsgSendDirectReq2 → Option (R × Result E ℕ) → Handled R
getter_response msg call =
    call >>= λ (r, result). scalar_response msg r (unwrap_or result local_error_sentinel)

-- `.map(…).unwrap_or(LOCAL_ERROR_SENTINEL)` over a request that may not parse.
abbrev pub parsed_or_sentinel :
    {R : Type 0} → MsgSendDirectReq2 → R → Option (List ℕ) → (List ℕ → Handled R) → Handled R
parsed_or_sentinel msg r none answer = scalar_response msg r local_error_sentinel
parsed_or_sentinel msg r (some request) answer = answer request

-- A parser of exactly four bytes as a word, and of no bytes.
unfoldable pub parse_u32 : List ℕ → Result EcRelayError ℕ
unfolding take_exact_array
parse_u32 body = Results.◌>>=◌ (take_exact_array 4 body) λ value. ok (from_le_bytes value)

unfoldable pub parse_empty_response : List ℕ → Result EcRelayError (Unit {0})
unfolding take_exact_array
parse_empty_response body = Results.◌>>=◌ (take_exact_array 0 body) λ _. ok tt
