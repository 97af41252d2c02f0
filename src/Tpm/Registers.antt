-- ===== src/Tpm/Registers.antt =====
-- The CRB registers of tpm_sst.rs, and the interface identifier and the codes of tpm.rs.
use odp_secure_services.Base.{ℕ, ◌+◌, bit_and, List, Bool, true, false, not, ◌==◌, replicate}
use odp_secure_services.Ffa.Error.{ErrorCode}

abbrev pub crb_data_buffer_size : ℕ
crb_data_buffer_size = 0xF80

abbrev pub control_area_status_tpm_idle : ℕ
control_area_status_tpm_idle = 2

abbrev pub control_area_request_go_idle : ℕ
control_area_request_go_idle = 2

abbrev pub control_area_request_command_ready : ℕ
control_area_request_command_ready = 1

abbrev pub control_start : ℕ
control_start = 1

abbrev pub locality_control_relinquish : ℕ
locality_control_relinquish = 2

abbrev pub locality_control_request_access : ℕ
locality_control_request_access = 1

abbrev pub locality_state_tpm_reg_valid_status : ℕ
locality_state_tpm_reg_valid_status = 0x80

abbrev pub locality_state_locality_assigned : ℕ
locality_state_locality_assigned = 2

abbrev pub locality_status_granted : ℕ
locality_status_granted = 1

-- `x & mask != 0`.
abbrev pub has_bit : ℕ → ℕ → Bool
has_bit x mask = not (bit_and x mask == 0)

pub record PtpCrbRegisters : Type 0 where
  pub locality_state : ℕ
  pub reserved1 : List ℕ
  pub locality_control : ℕ
  pub locality_status : ℕ
  pub reserved2 : List ℕ
  pub interface_id : ℕ
  pub vid : ℕ
  pub did : ℕ
  pub crb_control_extension : ℕ
  pub crb_control_request : ℕ
  pub crb_control_status : ℕ
  pub crb_control_cancel : ℕ
  pub crb_control_start : ℕ
  pub crb_interrupt_enable : ℕ
  pub crb_interrupt_status : ℕ
  pub crb_control_command_size : ℕ
  pub crb_control_command_address_low : ℕ
  pub crb_control_command_address_high : ℕ
  pub crb_control_response_size : ℕ
  pub crb_control_response_address : ℕ
  pub reserved4 : List ℕ
  pub crb_data_buffer : List ℕ

-- The offset of the buffer in the block, and the size of the block.
abbrev pub data_buffer_offset : ℕ
data_buffer_offset = 0x80

abbrev pub size_of_registers : ℕ
size_of_registers = data_buffer_offset + crb_data_buffer_size

unfoldable pub zero_bytes : ℕ → List ℕ
zero_bytes n = replicate n 0

-- `ptr::write_bytes(crb, 0x00, 1)`.
unfoldable pub zero_registers : PtpCrbRegisters
zero_registers = record {
  locality_state = 0;
  reserved1 = zero_bytes 4;
  locality_control = 0;
  locality_status = 0;
  reserved2 = zero_bytes 0x20;
  interface_id = 0;
  vid = 0;
  did = 0;
  crb_control_extension = 0;
  crb_control_request = 0;
  crb_control_status = 0;
  crb_control_cancel = 0;
  crb_control_start = 0;
  crb_interrupt_enable = 0;
  crb_interrupt_status = 0;
  crb_control_command_size = 0;
  crb_control_command_address_low = 0;
  crb_control_command_address_high = 0;
  crb_control_response_size = 0;
  crb_control_response_address = 0;
  reserved4 = zero_bytes 0x10;
  crb_data_buffer = zero_bytes crb_data_buffer_size;
}

pub data TpmFunction : Type 0 where
  get_interface_version get_feature_info start register_for_notification : TpmFunction
  unregister_for_notification finish_notified manage_locality : TpmFunction

abbrev pub function_code : TpmFunction → ℕ
function_code get_interface_version = 0x0f000001
function_code get_feature_info = 0x0f000101
function_code start = 0x0f000201
function_code register_for_notification = 0x0f000301
function_code unregister_for_notification = 0x0f000401
function_code finish_notified = 0x0f000501
function_code manage_locality = 0x1f000001

pub data TpmStatus : Type 0 where
  ok ok_results_returned no_func not_sup inv_arg inv_crb_ctrl_data already denied no_mem : TpmStatus

abbrev pub status_code : TpmStatus → ℕ
status_code ok = 0x05000001
status_code ok_results_returned = 0x05000002
status_code no_func = 0x8e000001
status_code not_sup = 0x8e000002
status_code inv_arg = 0x8e000005
status_code inv_crb_ctrl_data = 0x8e000006
status_code already = 0x8e000009
status_code denied = 0x8e00000a
status_code no_mem = 0x8e00000b

pub data TpmState : Type 0 where
  idle ready complete : TpmState

pub data TpmLocalityState : Type 0 where
  closed opened : TpmLocalityState

abbrev pub num_localities : ℕ
num_localities = 5

abbrev pub no_active_locality : ℕ
no_active_locality = num_localities

-- `convert_error_to_status`.
unfoldable pub convert_error_to_status : ErrorCode → TpmStatus
convert_error_to_status ErrorCode.ok = ok
convert_error_to_status ErrorCode.denied = denied
convert_error_to_status ErrorCode.no_memory = no_mem
convert_error_to_status _ = denied

abbrev pub is_ok : ErrorCode → Bool
is_ok ErrorCode.ok = true
is_ok _ = false
