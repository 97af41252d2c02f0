-- ===== src/Handler/Loop.antt =====
-- ec-service-lib/src/lib.rs: the loop that waits for messages and answers them. `none` is a panic.
use odp_secure_services.Base.{ℕ, zero, suc, Option, some, Result, ok, err}
use odp_secure_services.Base.Options.{◌>>=◌}
use odp_secure_services.Ffa.Error.{Error, msg_send_direct_req2, msg_send_direct_resp2}
use odp_secure_services.Ffa.Message.{
  UuidCrate, MsgSendDirectReq2, MsgSendDirectResp2, to_smc_params, from_smc_params,
}
use odp_secure_services.Ffa.Smc.{Monitor, SmcCall, exec_simple, try_from_smc_call}
use odp_secure_services.Ffa.Functions.Scheduling.{msg_wait_exec}
use odp_secure_services.Handler.Chain.{Node, node_handle}

module _ (c : UuidCrate) where
  -- `MsgSendDirectReq2::try_from_smc_call(msg)`.
  unfoldable pub request_of : SmcCall → Option (Result Error MsgSendDirectReq2)
  unfolding try_from_smc_call
  request_of =
      try_from_smc_call msg_send_direct_req2
        (λ params. from_smc_params c params >>= λ msg. some (ok msg))

module _ {W : Type 0} (m : Monitor W) (c : UuidCrate) where
  -- `MsgSendDirectResp2::exec`.
  unfoldable pub resp2_exec : W → MsgSendDirectResp2 → W × Result Error SmcCall
  resp2_exec w response = exec_simple m w msg_send_direct_resp2 (to_smc_params c response) ok

  module _ {ℓ} {N : Type ℓ}
      (handler : N → MsgSendDirectReq2 → Option (N × Result Error MsgSendDirectResp2))
      (before_handle_message : MsgSendDirectReq2 → Result Error (Unit {0})) where
    -- What one round leaves: the world, the handler's state, and the next message or the error that
    -- ends the loop.
    abbrev pub Outcome : Type ℓ
    Outcome = W × N × Result Error SmcCall

    -- What the round sends for the handler's answer.
    unfoldable pub answer : W → N × Result Error MsgSendDirectResp2 → Outcome
    answer w (n, ok response) = let (w', next) = resp2_exec w response in (w', n, next)
    answer w (n, err e) = let (w', next) = msg_wait_exec m w in (w', n, next)

    unfoldable pub handle_request : W → N → MsgSendDirectReq2 → Option Outcome
    unfolding answer
    handle_request w n request = elim (before_handle_message request) [
      | err e ↦ some (w, n, err e)
      | ok _ ↦ handler n request >>= λ r. some (answer w r)
    ]

    -- The body of the loop.
    unfoldable pub round : W → N → SmcCall → Option Outcome
    round w n msg = request_of c msg >>= elim [
      | ok request ↦ handle_request w n request
      | err e ↦ let (w', next) = msg_wait_exec m w in some (w', n, next)
    ]

    -- Up to `k` rounds; an error ends the loop.
    unfoldable pub rounds : ℕ → W → N → Result Error SmcCall → Option Outcome
    rounds k w n (err e) = some (w, n, err e)
    rounds zero w n (ok msg) = some (w, n, ok msg)
    rounds (suc k) w n (ok msg) = round w n msg >>= λ (w', n', next). rounds k w' n' next

    -- `msg_loop`, stopped after `k` rounds.
    unfoldable pub msg_loop : ℕ → W → N → Option Outcome
    unfolding rounds
    msg_loop k w n = let (w', first) = msg_wait_exec m w in rounds k w' n first

  -- `MessageHandler::run_message_loop`.
  unfoldable pub run_message_loop : ℕ → W → Node → Option (W × Node × Result Error SmcCall)
  run_message_loop = msg_loop node_handle (λ _. ok tt)
