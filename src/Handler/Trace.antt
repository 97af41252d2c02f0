-- ===== src/Handler/Trace.antt =====
-- What the message loop sends: a wait or a reply in each round.
use odp_secure_services.Ffa.Payload.Codec.{from_iter-fits, from_iter-IsPayload, length-chunks}
use odp_secure_services.Ffa.Message.RoundTrip.{try_from_iter_all}
use odp_secure_services.Base.Bytes.{register_bytes-IsByte, length-register_bytes, register_bytes}
use odp_secure_services.Ffa.Smc.Delivery.{exec_simple-registers}
use odp_secure_services.Handler.Reply.{RepliesWith, Handles, IsReply}
use odp_secure_services.Base.Options.{Returns-value, Returns->>=, returns, Returns}
use odp_secure_services.Ffa.Payload.{payload_len, chunks, registers_iter, IsPayload}
use odp_secure_services.Ffa.Functions.Scheduling.{msg_wait_exec}
use odp_secure_services.Ffa.Error.{
  msg_send_direct_req2, msg_send_direct_resp2, msg_wait, function_id_to_u64, FunctionId, Error,
}
use odp_secure_services.Ffa.Smc.{with_default, exec_simple, SmcCall, Monitor}
use odp_secure_services.Handler.Loop.{
  msg_loop, rounds, handle_request, round, answer, resp2_exec, request_of,
}
use odp_secure_services.Base.{
  zero, ◌+◌, ◌⊎◌, refl, ◌==◌, Bool-cases, length-drop, ◌∷◌, [], inr, ◌/◌, ◌≤◌, inl, drop, Option,
  Result-cases, ap, arith, some, err, suc, ◌≡◌, length, ok, ℕ, Result,
}
use odp_secure_services.Ffa.Message.{
  to_smc_params, MsgSendDirectResp2, SmcParams, MsgSendDirectReq2, from_smc_params, UuidCrate,
}

-- A message register block of eighteen registers carries a well-formed request or none.
abbrev pub WellFormed : Result Error MsgSendDirectReq2 → Type 0
WellFormed (ok request) = IsPayload request.payload
WellFormed (err e) = Unit

module _ (c : UuidCrate) where
  request_of-WellFormed :
      (call : SmcCall)
      → length call.params ≡ 17
      → Returns (λ r. WellFormed r × (request_of c call ≡ some r)) (request_of c call)
  unfolding request_of from_smc_params
  request_of-WellFormed call len =
      let bytes = register_bytes (drop 3 call.params) in
      let count : length bytes ≤ payload_len =
        omega (arith, length-register_bytes (drop 3 call.params), length-drop 3 call.params) in
      let good = from_iter-IsPayload bytes (register_bytes-IsByte (drop 3 call.params)) count in
      elim (Bool-cases (function_id_to_u64 call.id == function_id_to_u64 msg_send_direct_req2)) [
        | inl same ↦ rw (same, from_iter-fits bytes count) (returns _ (good, refl))
        | inr differs ↦ rw differs (returns _ (tt, refl))
      ]

  -- A response with a payload of 112 bytes fits the registers.
  pub to_smc_params-IsPayload :
      (response : MsgSendDirectResp2)
      → IsPayload response.payload
      → (params : SmcParams) × (to_smc_params c response ≡ ok params)
  unfolding to_smc_params registers_iter
  to_smc_params-IsPayload response v =
      let words = chunks (length response.payload / 8) response.payload in
      (
        _,
        try_from_iter_all (_ ∷ _ ∷ _ ∷ words)
            (omega (arith, length-chunks (length response.payload / 8) response.payload, v.len)),
      )

module _ {W : Type 0} (m : Monitor W) (c : UuidCrate) where
  -- The conversation with the monitor, from the world `w0`: after `k` rounds the world is `w`, and
  -- the last call returned `r`. It begins with a wait, and each round answers the call before by one
  -- wait or by one reply to the request that the call before carried.
  pub data Conversation (w0 : W) : ℕ → W → Result Error SmcCall → Type 0 where
    started : Conversation w0 0 (msg_wait_exec m w0).0 (msg_wait_exec m w0).1
    waited :
        {k : ℕ} {w : W} (call : SmcCall)
        → Conversation w0 k w (ok call)
        → Conversation w0 (suc k) (msg_wait_exec m w).0 (msg_wait_exec m w).1
    replied :
        {k : ℕ} {w : W} (call : SmcCall) (request : MsgSendDirectReq2)
        (response : MsgSendDirectResp2) (params : SmcParams)
        → Conversation w0 k w (ok call)
        → request_of c call ≡ some (ok request)
        → IsReply request response
        → to_smc_params c response ≡ ok params
        → Conversation w0 (suc k) (resp2_exec m c w response).0 (resp2_exec m c w response).1

  module _
      (honest : (w : W) (id : ℕ) (params : SmcParams) → length (m.smc w id params).1 ≡ 18) where
    abbrev pub Sized : Result Error SmcCall → Type 0
    Sized (ok call) = length call.params ≡ 17
    Sized (err e) = Unit

    -- A call that a function returns has seventeen parameter registers.
    exec_simple-length :
        (w : W) (id : FunctionId) (params : SmcParams) (call : SmcCall)
        → (exec_simple m w id (ok params) ok).1 ≡ ok call
        → length call.params ≡ 17
    exec_simple-length w id params call h =
        let n = honest w (function_id_to_u64 id) params in
        omega (arith, n, ap length ((exec_simple-registers m w id params call n).0 h).0)

    exec_simple-Sized :
        (w : W) (id : FunctionId) (params : SmcParams) → Sized (exec_simple m w id (ok params) ok).1
    exec_simple-Sized w id params = elim (Result-cases (exec_simple m w id (ok params) ok).1) [
      | inl (call, e) ↦ rw e (exec_simple-length w id params call e)
      | inr (x, e) ↦ rw e tt
    ]

    msg_wait-Sized : (w : W) → Sized (msg_wait_exec m w).1
    unfolding msg_wait_exec
    msg_wait-Sized w = exec_simple-Sized w msg_wait (with_default [])

    resp2-Sized :
        (w : W) (response : MsgSendDirectResp2)
        → IsPayload response.payload
        → Sized (resp2_exec m c w response).1
    unfolding resp2_exec
    resp2-Sized w response v =
        let (params, e) = to_smc_params-IsPayload c response v in
        rw e (exec_simple-Sized w msg_send_direct_resp2 params)

    module _ {ℓ} {N : Type ℓ} (P : N → Type ℓ)
        (handler : N → MsgSendDirectReq2 → Option (N × Result Error MsgSendDirectResp2))
        (handles : Handles P handler) (w0 : W) where
      abbrev After : ℕ → W × N × Result Error SmcCall → Type ℓ
      After k (w, n, r) = P n × Conversation w0 k w r × Sized r

      abbrev always : MsgSendDirectReq2 → Result Error (Unit {0})
      always _ = ok tt

      answer-After :
          (k : ℕ) (w : W) (call : SmcCall) (request : MsgSendDirectReq2)
          (r : N × Result Error MsgSendDirectResp2)
          → Conversation w0 k w (ok call)
          → request_of c call ≡ some (ok request)
          → P r.0
          → RepliesWith request r.1
          → After (suc k) (answer m c handler always w r)
      unfolding answer
      answer-After k w call request (n, ok response) talk read p reply =
          let (params, e) = to_smc_params-IsPayload c response reply.payload_ok in
          (
            p,
            replied call request response params talk read reply e,
            resp2-Sized w response reply.payload_ok,
          )
      answer-After k w call request (n, err e) talk read p reply =
          (p, waited call talk, msg_wait-Sized w)

      round-from :
          (k : ℕ) (w : W) (n : N) (call : SmcCall) (r : Result Error MsgSendDirectReq2)
          → request_of c call ≡ some r
          → WellFormed r
          → P n
          → Conversation w0 k w (ok call)
          → Returns (After (suc k)) (round m c handler always w n call)
      unfolding round handle_request
      round-from k w n call (err e) read wf p talk =
          rw read (returns _ (p, waited call talk, msg_wait-Sized w))
      round-from k w n call (ok request) read wf p talk = rw read (
          Returns->>= _ (handles n request wf p)
            (λ r (pr, reply). returns _ (answer-After k w call request r talk read pr reply)))

      round-After :
          (k : ℕ) (w : W) (n : N) (call : SmcCall)
          → After k (w, n, ok call)
          → Returns (After (suc k)) (round m c handler always w n call)
      round-After k w n call (p, talk, size) =
          let (r, e, (wf, _)) = Returns-value (request_of-WellFormed c call size) in
          round-from k w n call r e wf p talk

      -- The loop has made `j` of `k` rounds, all of them unless a call has failed.
      abbrev pub Stopped : ℕ → W × N × Result Error SmcCall → Type ℓ
      Stopped k (w, n, r) =
          (j : ℕ) × (j ≤ k) × P n × Conversation w0 j w r × ((j ≡ k) ⊎ ((e : Error) × (r ≡ err e)))

      rounds-Stopped :
          (k i : ℕ) (w : W) (n : N) (r : Result Error SmcCall)
          → After i (w, n, r)
          → Returns (Stopped (i + k)) (rounds m c handler always k w n r)
      unfolding rounds
      rounds-Stopped k i w n (err e) (p, talk, size) =
          returns _ (i, omega arith, p, talk, inr (e, refl))
      rounds-Stopped zero i w n (ok call) (p, talk, size) =
          returns _ (i, omega arith, p, talk, inl (omega arith))
      rounds-Stopped (suc k) i w n (ok call) after =
          let more : i + suc k ≡ suc i + k = omega arith in
          rw more (
            Returns->>= _ (round-After i w n call after)
              (λ (w', n', next) good. rounds-Stopped k (suc i) w' n' next good))

      pub msg_loop-Stopped :
          (k : ℕ) (n : N) → P n → Returns (Stopped k) (msg_loop m c handler always k w0 n)
      unfolding msg_loop
      msg_loop-Stopped k n p =
          let all : 0 + k ≡ k = omega arith in
          rw all at (
            rounds-Stopped k 0 (msg_wait_exec m w0).0 n (msg_wait_exec m w0).1
              (p, started, msg_wait-Sized w0))
