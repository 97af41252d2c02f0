-- ===== src/Tpm/Machine.antt =====
-- The state diagram of the CRB interface, which the header of tpm.rs cites, and that a command moves
-- along its edges only.
use odp_secure_services.Base.{
  ℕ, ◌≡◌, ◌≢◌, refl, Bool, true, false, ◌&&◌, ◌==◌, if◌then◌else◌, Bool-cases, inl, inr,
}
use odp_secure_services.Ffa.Error.{ErrorCode}
use odp_secure_services.Tpm.Registers.{
  TpmState, idle, ready, complete, TpmStatus, has_bit, is_ok, control_area_request_go_idle,
  control_area_request_command_ready, control_start, convert_error_to_status,
}
use odp_secure_services.Tpm.Command.{TpmSstOps, TpmService, command_step, handle_command}

-- One command, under the values of the control request and start registers and of
-- TPM_CapCRBIdleBypass: from which state to which, with what status.
pub data CommandStep (request go : ℕ) (bypass : Bool)
    : TpmState → TpmState → TpmStatus → Type 0 where
  refused : (t : TpmState) (c : TpmStatus) → c ≢ TpmStatus.ok → CommandStep request go bypass t t c
  wake :
      has_bit request control_area_request_command_ready ≡ true
      → CommandStep request go bypass idle ready TpmStatus.ok
  sleep :
      has_bit request control_area_request_go_idle ≡ true
      → CommandStep request go bypass ready idle TpmStatus.ok
  stay :
      has_bit request control_area_request_go_idle ≡ false
      → has_bit request control_area_request_command_ready ≡ true
      → CommandStep request go bypass ready ready TpmStatus.ok
  execute :
      has_bit request control_area_request_go_idle ≡ false
      → has_bit request control_area_request_command_ready ≡ false
      → has_bit go control_start ≡ true
      → CommandStep request go bypass ready complete TpmStatus.ok
  finish :
      has_bit request control_area_request_go_idle ≡ true
      → CommandStep request go bypass complete idle TpmStatus.ok
  rearm :
      has_bit request control_area_request_go_idle ≡ false
      → has_bit request control_area_request_command_ready ≡ true
      → bypass ≡ true
      → CommandStep request go bypass complete ready TpmStatus.ok
  repeat :
      has_bit request control_area_request_go_idle ≡ false
      → has_bit request control_area_request_command_ready ≡ false
      → has_bit go control_start ≡ true
      → bypass ≡ true
      → CommandStep request go bypass complete complete TpmStatus.ok

status_of_failure : (c : ErrorCode) → is_ok c ≡ false → convert_error_to_status c ≢ TpmStatus.ok
unfolding convert_error_to_status
status_of_failure ErrorCode.ok h = λ e. cc
status_of_failure _ h = λ e. cc

status_of_success : (c : ErrorCode) → is_ok c ≡ true → convert_error_to_status c ≡ TpmStatus.ok
unfolding convert_error_to_status
status_of_success ErrorCode.ok h = refl
status_of_success _ h = cc

-- A call of the library, with the state after its success and after its failure.
after_call :
    {S : Type 0} {request go : ℕ} {bypass : Bool} {t t' : TpmState} (c : ErrorCode)
    (good bad : TpmService S)
    → good.current_state ≡ t'
    → bad.current_state ≡ t
    → CommandStep request go bypass t t' TpmStatus.ok
    → CommandStep request go bypass t
        (if is_ok c then good else bad).current_state
        (convert_error_to_status c)
after_call {t = t} c good bad g b edge = elim (Bool-cases (is_ok c)) [
  | inl yes_ok ↦ rw (yes_ok, status_of_success c yes_ok, g) edge
  | inr failed ↦ rw (failed, b) (refused t _ (status_of_failure c failed))
]

denied_step :
    (request go : ℕ) (bypass : Bool) (t t' : TpmState)
    → t' ≡ t
    → CommandStep request go bypass t t' (convert_error_to_status ErrorCode.denied)
denied_step request go bypass t t' e = rw e (refused t _ (status_of_failure ErrorCode.denied refl))

module _ {S : Type 0} (ops : TpmSstOps S) where
  abbrev Steps : TpmState → ℕ → ℕ → TpmService S → Type 0
  Steps t request go s =
      CommandStep request go (ops.is_idle_bypass_supported s.sst) t
        (command_step ops t request go s).0.current_state
        (convert_error_to_status (command_step ops t request go s).1)

  idle-Steps :
      (request go : ℕ) (s : TpmService S) → s.current_state ≡ idle → Steps idle request go s
  unfolding command_step
  idle-Steps request go s at_idle =
      elim (Bool-cases (has_bit request control_area_request_command_ready)) [
        | inr off ↦ rw off (denied_step request go _ idle _ at_idle)
        | inl on ↦ rw on (after_call _ _ _ refl at_idle (wake on))
      ]

  ready-Steps :
      (request go : ℕ) (s : TpmService S) → s.current_state ≡ ready → Steps ready request go s
  unfolding command_step
  ready-Steps request go s at_ready =
      elim (Bool-cases (has_bit request control_area_request_go_idle)) [
        | inl down ↦ rw down (after_call _ _ _ refl at_ready (sleep down))
        | inr up ↦ elim (Bool-cases (has_bit request control_area_request_command_ready)) [
          | inl on ↦ rw (up, on) (after_call _ _ _ at_ready at_ready (stay up on))
          | inr off ↦ elim (Bool-cases (has_bit go control_start)) [
            | inl run ↦ rw (up, off, run) (after_call _ _ _ refl at_ready (execute up off run))
            | inr rest ↦ rw (up, off, rest) (denied_step request go _ ready _ at_ready)
          ]
        ]
      ]

  complete-Steps :
      (request go : ℕ) (s : TpmService S) → s.current_state ≡ complete → Steps complete request go s
  unfolding command_step
  complete-Steps request go s at_end =
      elim (Bool-cases (has_bit request control_area_request_go_idle)) [
        | inl down ↦ rw down (after_call _ _ _ refl at_end (finish down))
        | inr up ↦ elim (Bool-cases (ops.is_idle_bypass_supported s.sst)) [
          | inl bypass ↦ elim (Bool-cases (has_bit request control_area_request_command_ready)) [
            | inl on ↦ rw (up, on, bypass) (after_call _ _ _ refl at_end (rearm up on refl))
            | inr off ↦ elim (Bool-cases (has_bit go control_start)) [
              | inl run ↦
                  rw (up, off, run, bypass)
                    (after_call _ _ _ at_end at_end (repeat up off run refl))
              | inr rest ↦ rw (up, off, rest) (denied_step request go _ complete _ at_end)
            ]
          ]
          | inr none_of ↦ elim (Bool-cases (has_bit request control_area_request_command_ready)) [
            | inl on ↦ rw (up, on, none_of) (denied_step request go _ complete _ at_end)
            | inr off ↦ elim (Bool-cases (has_bit go control_start)) [
              | inl run ↦ rw (up, off, run, none_of) (denied_step request go _ complete _ at_end)
              | inr rest ↦ rw (up, off, rest) (denied_step request go _ complete _ at_end)
            ]
          ]
        ]
      ]

  all-Steps :
      (t : TpmState) (request go : ℕ) (s : TpmService S)
      → s.current_state ≡ t
      → Steps t request go s
  all-Steps idle = idle-Steps
  all-Steps ready = ready-Steps
  all-Steps complete = complete-Steps

  -- A command takes the service along one edge of the state diagram, whose bits the active block's
  -- control registers hold, or it is refused and the state stays. OK is answered for the edges only.
  pub handle_command-CommandStep :
      (s : TpmService S)
      → CommandStep
          (s.crbs s.active_locality).crb_control_request
          (s.crbs s.active_locality).crb_control_start
          (ops.is_idle_bypass_supported s.sst)
          s.current_state
          (handle_command ops s).0.current_state
          (handle_command ops s).1
  unfolding handle_command
  handle_command-CommandStep s =
      let request = (s.crbs s.active_locality).crb_control_request in
      let go = (s.crbs s.active_locality).crb_control_start in
      elim (Bool-cases ((request == 0) && (go == 0))) [
        | inl empty ↦ rw empty (refused s.current_state _ (λ e. cc))
        | inr some_bit ↦ rw some_bit (all-Steps s.current_state request go s refl)
      ]
