-- ===== src/Tpm/Sst/Ops.antt =====
-- tpm_sst.rs: the operations of `TpmSstOps` on the TPM. The internal CRB is a register block that
-- `start` takes and gives back.
use odp_secure_services.Tpm.Sst.Poll.{then_call, wait_register_bits}
use odp_secure_services.Ffa.Error.{ErrorCode}
use odp_secure_services.Tpm.Registers.{
  is_ok, locality_control_relinquish, locality_control_request_access, control_area_status_tpm_idle,
  locality_status_granted, control_area_request_command_ready, control_area_request_go_idle,
  crb_data_buffer_size, has_bit, zero_bytes, PtpCrbRegisters,
}
use odp_secure_services.Tpm.Sst.Transfer.{copy_command_data, start_command, copy_response_data}
use odp_secure_services.Tpm.Sst.Packet.{tpm_packet_length, contains, tpm_header_size, copy_at}
use odp_secure_services.Tpm.Sst.Board.{
  acc_rquuse, acc_active, timeout_b, fifo_valid, sts_ready, timeout_a, timeout_c, external, Board,
  TpmSst,
}
use odp_secure_services.Base.Options.{◌>>=◌}
use odp_secure_services.Tpm.Sst.Crb
use odp_secure_services.Tpm.Sst.Fifo
use odp_secure_services.Base.{
  ◌++◌, bit_or, ◌&&◌, ok, drop, some, ◌-◌, if◌then◌else◌, err, take, Result, ◌==◌, Option, ◌+◌,
  bit_and, ℕ, List,
}

-- What `init` makes of the interface identifier.
unfoldable pub identified : TpmSst → ℕ → TpmSst
identified sst interface_id = record sst {
  is_crb_interface = bit_and interface_id 0x00F == 1;
  is_idle_bypass_supported = has_bit interface_id 0x200;
}

-- The local buffer: the header and the rest of the command, in two copies over zeros.
unfoldable pub header_buffer : List ℕ → List ℕ
header_buffer block = copy_at (zero_bytes crb_data_buffer_size) 0 (take tpm_header_size block)

unfoldable pub command_buffer : List ℕ → ℕ → List ℕ
command_buffer block n =
    copy_at (header_buffer block) tpm_header_size
      (take (n - tpm_header_size) (drop tpm_header_size block))

module _ {W : Type 0} (b : Board W) (fuel : ℕ) where
  unfoldable pub sst_init : TpmSst → W → TpmSst × W
  unfolding identified
  sst_init sst w =
      let (w', interface_id) = b.read_u32 w (sst.tpm_crb_address + Crb.interface_id) in
      (identified sst interface_id, w')

  module _ (sst : TpmSst) (locality : ℕ) where
    -- A wait for bits of the FIFO's status, or of a register of the CRB.
    abbrev wait_field : ℕ → ℕ → ℕ → ℕ → W → Option (W × ErrorCode)
    wait_field offset = wait_register_bits b fuel sst (external sst locality offset)

    unfoldable pub go_idle : W → Option (W × ErrorCode)
    unfolding then_call
    go_idle w =
        if sst.is_crb_interface
        then (wait_field Crb.crb_control_request 0 control_area_request_go_idle timeout_c (
              b.write_u32 w (external sst locality Crb.crb_control_request)
                control_area_request_go_idle)
            >>= then_call
                (wait_field Crb.crb_control_status control_area_status_tpm_idle 0 timeout_c))
        else (wait_field Fifo.status sts_ready 0 timeout_b
            (b.write_u8 w (external sst locality Fifo.status) sts_ready))

    unfoldable pub cmd_ready : W → Option (W × ErrorCode)
    unfolding then_call
    cmd_ready w =
        if sst.is_crb_interface
        then (wait_field Crb.crb_control_request 0 control_area_request_command_ready timeout_c (
              b.write_u32 w (external sst locality Crb.crb_control_request)
                control_area_request_command_ready)
            >>= then_call
                (wait_field Crb.crb_control_status 0 control_area_status_tpm_idle timeout_c))
        else (wait_field Fifo.status sts_ready 0 timeout_b
            (b.write_u8 w (external sst locality Fifo.status) sts_ready))

    unfoldable pub locality_request : W → Option (W × ErrorCode)
    locality_request w =
        if sst.is_crb_interface
        then (wait_field Crb.locality_status locality_status_granted 0 timeout_a (
            b.write_u32 w (external sst locality Crb.locality_control)
              locality_control_request_access))
        else (wait_field Fifo.access (bit_or acc_active fifo_valid) 0 timeout_a
            (b.write_u8 w (external sst locality Fifo.access) acc_rquuse))

    unfoldable pub locality_relinquish : W → Option (W × ErrorCode)
    locality_relinquish w =
        if sst.is_crb_interface
        then (wait_field Crb.locality_status 0 locality_status_granted timeout_a (
            b.write_u32 w (external sst locality Crb.locality_control) locality_control_relinquish))
        else (wait_field Fifo.access fifo_valid acc_active timeout_a
            (b.write_u8 w (external sst locality Fifo.access) acc_active))

    -- The end of `start`: the response is copied over the first bytes of the block's data.
    unfoldable pub answered :
        PtpCrbRegisters
        → List ℕ
        → W × List ℕ × Result ErrorCode ℕ
        → Option (W × PtpCrbRegisters × ErrorCode)
    answered crb rest (w, buffer, err e) = some (w, crb, e)
    answered crb rest (w, buffer, ok n) = some (
      w,
      record crb { crb_data_buffer = copy_at crb.crb_data_buffer 0 (take n (buffer ++ rest)) },
      ErrorCode.ok,
    )

    -- What follows `start_command`.
    unfoldable pub started :
        PtpCrbRegisters → List ℕ → W × ErrorCode → Option (W × PtpCrbRegisters × ErrorCode)
    unfolding answered
    started crb buffer (w, status) =
        if is_ok status
        then copy_response_data b fuel sst locality (take crb.crb_control_response_size buffer) w
          >>= answered crb (drop crb.crb_control_response_size buffer)
        else some (w, crb, status)

    -- What follows `copy_command_data`.
    unfoldable pub copied :
        PtpCrbRegisters → List ℕ → W × ErrorCode → Option (W × PtpCrbRegisters × ErrorCode)
    unfolding started
    copied crb buffer (w, status) =
        if is_ok status
        then start_command b fuel sst locality w >>= started crb buffer
        else some (w, crb, status)

    -- The command goes out once its length is known.
    unfoldable pub run_command :
        PtpCrbRegisters → W → Result ErrorCode ℕ → Option (W × PtpCrbRegisters × ErrorCode)
    unfolding command_buffer copied
    run_command crb w (err e) = some (w, crb, e)
    run_command crb w (ok n) =
        let buffer = command_buffer crb.crb_data_buffer n in
        copy_command_data b fuel sst locality buffer n w >>= copied crb buffer

    unfoldable pub start : PtpCrbRegisters → W → Option (W × PtpCrbRegisters × ErrorCode)
    unfolding run_command header_buffer
    start crb w =
        if contains tpm_header_size crb_data_buffer_size crb.crb_control_command_size
          && contains tpm_header_size crb_data_buffer_size crb.crb_control_response_size
        then run_command crb w
            (tpm_packet_length (header_buffer crb.crb_data_buffer) crb.crb_control_command_size)
        else some (w, crb, ErrorCode.invalid_parameters)
