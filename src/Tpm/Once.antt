-- ===== src/Tpm/Once.antt =====
-- tpm.rs: the control registers of a start message are consumed by it, and what `init` and `deinit`
-- leave.
use odp_secure_services.Base.{
  ltb, ℕ, ◌+◌, ◌≡◌, ◌≢◌, refl, false, if◌then◌else◌, [], ◌∷◌, arith, ◌∙◌, replicate,
}
use odp_secure_services.Tpm.Registers.{
  PtpCrbRegisters, zero_registers, inv_crb_ctrl_data, no_active_locality, num_localities, opened,
  closed, idle, data_buffer_offset, control_area_status_tpm_idle,
}
use odp_secure_services.Tpm.Command.{
  TpmSstOps, TpmService, point_at_buffer, crb_address, init_internal_crb, clean_internal_crb,
  cleaned, handle_command, handle_locality_request,
}
use odp_secure_services.Tpm.Service.{
  TpmRequest, start_handler, start_choice, init, deinit, reset_runtime_state, default_interface_id,
}
use odp_secure_services.Tpm.Access.{IsService}

module _ {S : Type 0} (ops : TpmSstOps S) where
  clean_active : (s : TpmService S) → (clean_internal_crb s).active_locality ≡ s.active_locality
  unfolding clean_internal_crb
  clean_active s = ground arith

  cleaned_active :
      (s : TpmService S)
      → s.active_locality ≢ no_active_locality
      → ((clean_internal_crb s).crbs (clean_internal_crb s).active_locality).crb_control_request ≡ 0
        × (((clean_internal_crb s).crbs (clean_internal_crb s).active_locality).crb_control_start
            ≡ 0)
        × (((clean_internal_crb s).crbs (clean_internal_crb s).active_locality).locality_control
            ≡ 0)
  unfolding clean_internal_crb cleaned point_at_buffer
  cleaned_active s h = ground arith

  idle_registers :
      (s : TpmService S)
      → (s.crbs s.active_locality).crb_control_request ≡ 0
      → (s.crbs s.active_locality).crb_control_start ≡ 0
      → (s.crbs s.active_locality).locality_control ≡ 0
      → (handle_command ops s ≡ (s, inv_crb_ctrl_data))
        × (handle_locality_request ops s.active_locality s ≡ (s, inv_crb_ctrl_data))
  unfolding handle_command handle_locality_request
  idle_registers s h k l = (rw (h, k) refl, rw l refl)

  -- While a locality is active after a start message, a further command or locality request for it,
  -- without a write of the host between, changes nothing and is answered by INV_CRB_CTRL_DATA.
  pub start_handler_once :
      (request : TpmRequest) (s : TpmService S)
      → (start_handler ops request s).0.active_locality ≢ no_active_locality
      → (handle_command ops (start_handler ops request s).0
          ≡ ((start_handler ops request s).0, inv_crb_ctrl_data))
        × (handle_locality_request ops
              (start_handler ops request s).0.active_locality
              (start_handler ops request s).0
            ≡ ((start_handler ops request s).0, inv_crb_ctrl_data))
  unfolding start_handler
  start_handler_once request s h =
      let t = (start_choice ops request s).0 in
      let zero = cleaned_active t (λ e. h (clean_active t ∙ e)) in
      idle_registers (clean_internal_crb t) zero.0 zero.1 zero.2

  -- The block of an initialised locality.
  abbrev initial_block : ℕ → ℕ → PtpCrbRegisters
  initial_block base i =
      point_at_buffer (crb_address base i + data_buffer_offset) (record zero_registers {
        interface_id = default_interface_id;
        crb_control_status = control_area_status_tpm_idle;
      })

  -- The state after `init`.
  pub record IsInitial (s s' : TpmService S) : Type 0 where
    pub no_command : s'.current_state ≡ idle
    pub no_active : s'.active_locality ≡ no_active_locality
    pub not_registered : s'.notification_registered ≡ false
    pub two_opened : s'.locality_states ≡ opened ∷ opened ∷ closed ∷ closed ∷ closed ∷ []
    pub blocks :
        (i : ℕ)
        → s'.crbs i
          ≡ (if ltb i num_localities then initial_block s.tpm_internal_crb_address i else s.crbs i)

  -- `init` initialises the blocks of the five localities and no other, opens the first two
  -- localities, and leaves the service idle with no active locality and no registration, whatever its
  -- state was. After `deinit` all five localities are closed and none is active.
  pub init-IsInitial :
      (s : TpmService S)
      → IsInitial s (init ops s)
        × IsService (init ops s)
        × ((deinit s).locality_states ≡ replicate num_localities closed)
        × ((deinit s).active_locality ≡ no_active_locality)
  unfolding init init_internal_crb deinit reset_runtime_state
  init-IsInitial s = (
    record {
      no_command = refl;
      no_active = refl;
      not_registered = refl;
      two_opened = refl;
      blocks = λ i. ground arith;
    },
    record { active_bound = omega arith; states_length = refl },
    refl,
    refl,
  )
