-- ===== src/Tpm/Sst/Running.antt =====
-- tpm.rs over tpm_sst.rs: no message makes a call of the library panic, or wait without an end.
use odp_secure_services.Tpm.Sst.Clock.{IsCovered, Clock}
use odp_secure_services.Ffa.Payload.{IsPayload}
use odp_secure_services.Ffa.Message.{MsgSendDirectReq2}
use odp_secure_services.Tpm.Sst.Transitions.{transitions-SettledAt}
use odp_secure_services.Base.Options.{Returns-mono, returns, Returns}
use odp_secure_services.Tpm.Service.{
  manage_locality_handler, finish_handler, unregister_handler, TpmRequest, register_handler, serve,
  start_choice, start_handler,
}
use odp_secure_services.Ffa.Error.{ErrorCode}
use odp_secure_services.Tpm.Command.{
  clean_internal_crb, init_internal_crb, handle_locality_request, handle_command, TpmService,
  command_step, TpmSstOps,
}
use odp_secure_services.Tpm.Sst.Board.{Board, TpmSst}
use odp_secure_services.Tpm.Sst.Ops.{go_idle, cmd_ready, locality_request, locality_relinquish}
use odp_secure_services.Tpm.Registers.{TpmState, PtpCrbRegisters, idle, ready, complete}
use odp_secure_services.Tpm.Sst.Service.{call_start, call, after_start, after, sst_ops}
use odp_secure_services.Tpm.Service.{handle}
use mathlib.Core.Path.{subst}
use odp_secure_services.Tpm.Answers.{IsServed, handle-IsServed}
use odp_secure_services.Tpm.Sst.Start.{Started, start-Started}
use odp_secure_services.Base.{
  sym, refl, inr, ◌^◌, inl, ◌%◌, ◌&&◌, ◌==◌, Bool-cases, arith, true, ◌≡◌, Bool, Option, ℕ, none,
  some, false,
}

-- A test of the library's state that its calls keep.
record Keeps {S : Type 0} (ops : TpmSstOps S) (running : S → Bool) : Type 0 where
  go_idle_keeps :
      (x : S) (locality : ℕ) → running x ≡ true → running (ops.go_idle x locality).0 ≡ true
  cmd_ready_keeps :
      (x : S) (locality : ℕ) → running x ≡ true → running (ops.cmd_ready x locality).0 ≡ true
  start_keeps :
      (x : S) (locality : ℕ) (crb : PtpCrbRegisters)
      → running x ≡ true
      → running (ops.start x locality crb).0 ≡ true
  request_keeps :
      (x : S) (locality : ℕ) → running x ≡ true → running (ops.locality_request x locality).0 ≡ true
  relinquish_keeps :
      (x : S) (locality : ℕ)
      → running x ≡ true
      → running (ops.locality_relinquish x locality).0 ≡ true

module _ {S : Type 0} (ops : TpmSstOps S) (running : S → Bool) (keeps : Keeps ops running) where
  command_step-keeps :
      (t : TpmState) (request go : ℕ) (s : TpmService S)
      → running s.sst ≡ true
      → running (command_step ops t request go s).0.sst ≡ true
  unfolding command_step
  command_step-keeps idle request go s p =
      ground (arith, keeps.cmd_ready_keeps s.sst s.active_locality p)
  command_step-keeps ready request go s p = ground (
    arith,
    keeps.go_idle_keeps s.sst s.active_locality p,
    keeps.cmd_ready_keeps s.sst s.active_locality p,
    keeps.start_keeps s.sst s.active_locality (s.crbs s.active_locality) p,
  )
  command_step-keeps complete request go s p = ground (
    arith,
    keeps.go_idle_keeps s.sst s.active_locality p,
    keeps.cmd_ready_keeps s.sst s.active_locality p,
    keeps.start_keeps s.sst s.active_locality (s.crbs s.active_locality) p,
  )

  handle_command-keeps :
      (s : TpmService S) → running s.sst ≡ true → running (handle_command ops s).0.sst ≡ true
  unfolding handle_command
  handle_command-keeps s p =
      let request = (s.crbs s.active_locality).crb_control_request in
      let go = (s.crbs s.active_locality).crb_control_start in
      elim (Bool-cases ((request == 0) && (go == 0))) [
        | inl empty ↦ rw empty p
        | inr some_bit ↦ rw some_bit (command_step-keeps s.current_state request go s p)
      ]

  handle_locality_request-keeps :
      (locality : ℕ) (s : TpmService S)
      → running s.sst ≡ true
      → running (handle_locality_request ops locality s).0.sst ≡ true
  unfolding handle_locality_request init_internal_crb
  handle_locality_request-keeps locality s p =
      ground (arith, keeps.relinquish_keeps s.sst locality p, keeps.request_keeps s.sst locality p)

  start_handler-keeps :
      (request : TpmRequest) (s : TpmService S)
      → running s.sst ≡ true
      → running (start_handler ops request s).0.sst ≡ true
  unfolding start_handler start_choice clean_internal_crb
  start_handler-keeps request s p = ground (
    arith,
    handle_command-keeps s p,
    handle_locality_request-keeps (request.locality % 2 ^ 8) s p,
  )

  serve-keeps :
      (source_id : ℕ) (request : TpmRequest) (s : TpmService S)
      → running s.sst ≡ true
      → running (serve ops source_id request s).0.sst ≡ true
  unfolding serve register_handler unregister_handler finish_handler manage_locality_handler
  serve-keeps source_id request s p = ground (arith, start_handler-keeps request s p)

-- The program has not come to its end in a call of the library.
abbrev pub is_running : {W : Type 0} → Option (TpmSst × W) → Bool
is_running none = false
is_running (some x) = true

after-running :
    {W : Type 0} (Q : W × ErrorCode → Type 0) (sst : TpmSst) (o : Option (W × ErrorCode))
    → Returns Q o
    → is_running (after sst o).0 ≡ true
unfolding after
after-running Q sst _ (returns a q) = refl

after_start-running :
    {W : Type 0} (Q : W × PtpCrbRegisters × ErrorCode → Type 0) (sst : TpmSst)
    (crb : PtpCrbRegisters) (o : Option (W × PtpCrbRegisters × ErrorCode))
    → Returns Q o
    → is_running (after_start sst crb o).0 ≡ true
unfolding after_start
after_start-running Q sst crb _ (returns a q) = refl

call-running :
    {W : Type 0} (op : TpmSst → ℕ → W → Option (W × ErrorCode))
    (Q : TpmSst → ℕ → W × ErrorCode → Type 0)
    → ((sst : TpmSst) (locality : ℕ) (w : W) → Returns (Q sst locality) (op sst locality w))
    → (x : Option (TpmSst × W)) (locality : ℕ) → is_running x ≡ true
    → is_running (call op x locality).0 ≡ true
unfolding call
call-running op Q total none locality h = absurd (ground (arith, h))
call-running op Q total (some (sst, w)) locality h =
    after-running (Q sst locality) sst _ (total sst locality w)

module _ {W : Type 0} (b : Board W) (gap fuel : ℕ) (clock : Clock b gap)
    (covered : IsCovered b gap fuel) where
  call_start-running :
      (x : Option (TpmSst × W)) (locality : ℕ) (crb : PtpCrbRegisters)
      → is_running x ≡ true
      → is_running (call_start b fuel x locality crb).0 ≡ true
  unfolding call_start
  call_start-running none locality crb h = absurd (ground (arith, h))
  call_start-running (some (sst, w)) locality crb h =
      after_start-running (Started crb) sst crb _
        (start-Started b gap fuel clock covered sst locality crb w)

  sst_ops-Keeps : Keeps (sst_ops b fuel) is_running
  unfolding sst_ops
  sst_ops-Keeps = record {
    go_idle_keeps =
        call-running (go_idle b fuel) _
          (λ sst l w. (transitions-SettledAt b gap fuel clock covered sst l w).0);
    cmd_ready_keeps =
        call-running (cmd_ready b fuel) _
          (λ sst l w. (transitions-SettledAt b gap fuel clock covered sst l w).1);
    start_keeps = call_start-running;
    request_keeps =
        call-running (locality_request b fuel) _
          (λ sst l w. (transitions-SettledAt b gap fuel clock covered sst l w).2);
    relinquish_keeps =
        call-running (locality_relinquish b fuel) _
          (λ sst l w. (transitions-SettledAt b gap fuel clock covered sst l w).3);
  }

  -- The TPM service over the library that drives the TPM, when the counter runs with the time, the
  -- yields succeed and the fuel covers the longest timeout: a well-formed message is answered, with
  -- the response that `serve` gives, and no call of the library has panicked or waited without an end.
  pub handle-IsRunning :
      (s : TpmService (Option (TpmSst × W))) (msg : MsgSendDirectReq2)
      → IsPayload msg.payload
      → is_running s.sst ≡ true
      → Returns
          (λ r. IsServed (sst_ops b fuel) s msg r × (is_running r.0.sst ≡ true))
          (handle (sst_ops b fuel) s msg)
  handle-IsRunning s msg p running =
      Returns-mono (handle-IsServed (sst_ops b fuel) s msg p) λ r served. (
        served,
        subst (λ (t : TpmService (Option (TpmSst × W))). is_running t.sst ≡ true) (sym served.state)
            (serve-keeps (sst_ops b fuel) is_running sst_ops-Keeps msg.source_id served.request s
              running),
      )
