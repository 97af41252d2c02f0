-- ===== src/Tpm/Command.antt =====
-- tpm.rs: the service's state, and the handling of a command and of a locality request.
-- The state translation library is the trait `TpmSstOps`; the type `S` is its state with the TPM
-- device behind it. The internal CRB memory is one register block for each locality.
use odp_secure_services.Base.{
  ℕ, ◌+◌, ◌*◌, ◌/◌, ◌%◌, ◌^◌, bit_or, List, Bool, not, ◌&&◌, ◌==◌, if◌then◌else◌,
}
use odp_secure_services.Ffa.Error.{ErrorCode}
use odp_secure_services.Tpm.Registers.{
  PtpCrbRegisters, zero_registers, zero_bytes, crb_data_buffer_size, data_buffer_offset,
  size_of_registers, control_area_status_tpm_idle, control_area_request_go_idle,
  control_area_request_command_ready, control_start, locality_control_relinquish,
  locality_control_request_access, locality_state_tpm_reg_valid_status,
  locality_state_locality_assigned, locality_status_granted, has_bit, TpmStatus, inv_crb_ctrl_data,
  TpmState, idle, ready, complete, TpmLocalityState, no_active_locality, convert_error_to_status,
  is_ok,
}

pub record TpmSstOps (S : Type 0) : Type 0 where
  pub go_idle : S → ℕ → S × ErrorCode
  pub cmd_ready : S → ℕ → S × ErrorCode
  pub start : S → ℕ → PtpCrbRegisters → S × PtpCrbRegisters × ErrorCode
  pub locality_request : S → ℕ → S × ErrorCode
  pub locality_relinquish : S → ℕ → S × ErrorCode
  pub is_idle_bypass_supported : S → Bool
  pub init : S → S

pub record TpmService (S : Type 0) : Type 0 where
  pub current_state : TpmState
  pub active_locality : ℕ
  pub interface_id_default : ℕ
  pub locality_states : List TpmLocalityState
  pub tpm_internal_crb_address : ℕ
  pub notification_registered : Bool
  pub sst : S
  pub crbs : ℕ → PtpCrbRegisters

abbrev pub update : (ℕ → PtpCrbRegisters) → ℕ → PtpCrbRegisters → ℕ → PtpCrbRegisters
update crbs locality crb j = if j == locality then crb else crbs j

-- The address that `crb_ptr` computes.
unfoldable pub crb_address : ℕ → ℕ → ℕ
crb_address base locality = base + locality * size_of_registers

-- The command and response buffer of a block is its own data buffer.
unfoldable pub point_at_buffer : ℕ → PtpCrbRegisters → PtpCrbRegisters
point_at_buffer buf_addr crb = record crb {
  crb_control_command_address_high = buf_addr / 2 ^ 32 % 2 ^ 32;
  crb_control_command_address_low = buf_addr % 2 ^ 32;
  crb_control_command_size = crb_data_buffer_size;
  crb_control_response_address = buf_addr;
  crb_control_response_size = crb_data_buffer_size;
}

-- `locality_state |= PTP_CRB_LOCALITY_STATE_ACTIVE_LOCALITY_n`.
unfoldable pub active_locality_bits : ℕ → ℕ
active_locality_bits locality =
    if locality == 1
    then 4
    else if locality == 2
    then 8
    else if locality == 3
    then 12
    else if locality == 4
    then 16
    else 0

unfoldable pub clean_status : TpmState → ℕ
clean_status idle = control_area_status_tpm_idle
clean_status ready = 0
clean_status complete = 0

module _ {S : Type 0} where
  unfoldable pub init_internal_crb : ℕ → TpmService S → TpmService S
  init_internal_crb locality s = record s {
    crbs = update s.crbs locality (
        point_at_buffer (crb_address s.tpm_internal_crb_address locality + data_buffer_offset)
          (record zero_registers {
            interface_id = s.interface_id_default;
            crb_control_status = control_area_status_tpm_idle;
          }));
  }

  -- The registers that `clean_internal_crb` writes in the active block.
  unfoldable pub cleaned : TpmService S → PtpCrbRegisters → PtpCrbRegisters
  cleaned s crb =
      point_at_buffer
        (crb_address s.tpm_internal_crb_address s.active_locality + data_buffer_offset)
        (record crb {
          locality_state =
              bit_or
                (bit_or (bit_or crb.locality_state (active_locality_bits s.active_locality))
                  locality_state_tpm_reg_valid_status)
                locality_state_locality_assigned;
          locality_status = bit_or crb.locality_status locality_status_granted;
          locality_control = 0;
          interface_id = s.interface_id_default;
          crb_control_extension = 0;
          crb_control_request = 0;
          crb_control_cancel = 0;
          crb_control_start = 0;
          crb_interrupt_enable = 0;
          crb_interrupt_status = 0;
          crb_control_status = clean_status s.current_state;
        })

  unfoldable pub clean_internal_crb : TpmService S → TpmService S
  clean_internal_crb s = if s.active_locality == no_active_locality then s else record s {
    crbs = update s.crbs s.active_locality (cleaned s (s.crbs s.active_locality));
  }

  abbrev clear_buffer : TpmService S → TpmService S
  clear_buffer s = record s {
    crbs =
        update s.crbs s.active_locality
          (record (s.crbs s.active_locality) { crb_data_buffer = zero_bytes crb_data_buffer_size });
  }

module _ {S : Type 0} (ops : TpmSstOps S) where
  -- A call of the library and, if it succeeds, the change of state that follows.
  abbrev then_on_ok :
      (S → ℕ → S × ErrorCode)
      → TpmService S
      → (TpmService S → TpmService S)
      → TpmService S × ErrorCode
  then_on_ok call s next =
      let (sst', status) = call s.sst s.active_locality in
      let s' = record s { sst = sst' } in (if is_ok status then next s' else s', status)

  -- `sst.start` works on the active block in place.
  abbrev start_then : TpmService S → (TpmService S → TpmService S) → TpmService S × ErrorCode
  start_then s next =
      let (sst', crb', status) = ops.start s.sst s.active_locality (s.crbs s.active_locality) in
      let s' = record s { sst = sst'; crbs = update s.crbs s.active_locality crb' } in
      (if is_ok status then next s' else s', status)

  -- The `match self.current_state`, over the control request and start registers.
  unfoldable pub command_step : TpmState → ℕ → ℕ → TpmService S → TpmService S × ErrorCode
  command_step idle request go s =
      if has_bit request control_area_request_command_ready
      then then_on_ok ops.cmd_ready s (λ s'. record s' { current_state = ready })
      else (s, ErrorCode.denied)
  command_step ready request go s =
      if has_bit request control_area_request_go_idle
      then then_on_ok ops.go_idle s (λ s'. record s' { current_state = idle })
      else if has_bit request control_area_request_command_ready
      then then_on_ok ops.cmd_ready s (λ s'. s')
      else if has_bit go control_start
      then start_then s (λ s'. record s' { current_state = complete })
      else (s, ErrorCode.denied)
  command_step complete request go s =
      if has_bit request control_area_request_go_idle
      then then_on_ok ops.go_idle s (λ s'. clear_buffer (record s' { current_state = idle }))
      else if has_bit request control_area_request_command_ready
      then (if ops.is_idle_bypass_supported s.sst
          then then_on_ok ops.cmd_ready s (λ s'. clear_buffer (record s' { current_state = ready }))
          else (s, ErrorCode.denied))
      else if has_bit go control_start
      then (if ops.is_idle_bypass_supported s.sst
          then start_then s (λ s'. s')
          else (s, ErrorCode.denied))
      else (s, ErrorCode.denied)

  unfoldable pub handle_command : TpmService S → TpmService S × TpmStatus
  handle_command s =
      let request = (s.crbs s.active_locality).crb_control_request in
      let go = (s.crbs s.active_locality).crb_control_start in
      if (request == 0) && (go == 0)
      then (s, inv_crb_ctrl_data)
      else (let (s', status) = command_step s.current_state request go s in
          (s', convert_error_to_status status))

  -- The end of `handle_locality_request`: on success the block is initialised.
  abbrev locality_done : ℕ → ℕ → TpmService S → S × ErrorCode → TpmService S × TpmStatus
  locality_done locality new_active s (sst', status) =
      let s' = record s { sst = sst' } in
      (
        if is_ok status
            then record (init_internal_crb locality s') { active_locality = new_active }
            else s',
        convert_error_to_status status,
      )

  unfoldable pub handle_locality_request : ℕ → TpmService S → TpmService S × TpmStatus
  handle_locality_request locality s =
      let control = (s.crbs locality).locality_control in
      if has_bit control locality_control_relinquish
      then (if locality == s.active_locality
          then locality_done locality no_active_locality s (ops.locality_relinquish s.sst locality)
          else (s, TpmStatus.denied))
      else if has_bit control locality_control_request_access
      then (if not (s.active_locality == no_active_locality) && not (s.active_locality == locality)
          then (s, TpmStatus.denied)
          else locality_done locality locality s (ops.locality_request s.sst locality))
      else (s, inv_crb_ctrl_data)
