-- ===== src/Tpm/Sst/Transfer.antt =====
-- tpm_sst.rs: the command on its way to the TPM, its start, and the response on its way back.
use odp_secure_services.Tpm.Registers.{control_start}
use odp_secure_services.Tpm.Sst.Packet.{read_tpm_response}
use odp_secure_services.Tpm.Sst.Poll.{then_call, wait_register_bits, fifo_read_burst_count}
use odp_secure_services.Ffa.Error.{ErrorCode}
use odp_secure_services.Tpm.Sst.Board.{
  sts_go, timeout_c, sts_data, timeout_max, sts_expect, sts_valid, external, TpmSst, Board,
}
use odp_secure_services.Base.Options.{◌>>=◌}
use odp_secure_services.Tpm.Sst.Crb
use odp_secure_services.Tpm.Sst.Fifo
use odp_secure_services.Base.{
  ◌-◌, ◌==◌, bit_or, bit_and, if◌then◌else◌, length, none, err, take, some, ok, [], [], zero, ◌+◌,
  Result, Option, suc, ◌∷◌, List, ℕ,
}

module _ {W : Type 0} (b : Board W) where
  -- The CRB loop: one byte after the other into the data buffer.
  unfoldable pub write_buffer : ℕ → List ℕ → W → W
  write_buffer address [] w = w
  write_buffer address (byte ∷ bytes) w =
      write_buffer (address + 1) bytes (b.write_u8 w address byte)

  -- The inner FIFO loop: bytes while the burst lasts. It leaves those that are still to be sent.
  unfoldable pub write_burst : ℕ → ℕ → List ℕ → W → W × List ℕ
  write_burst fifo zero bytes w = (w, bytes)
  write_burst fifo (suc burst) [] w = (w, [])
  write_burst fifo (suc burst) (byte ∷ bytes) w =
      write_burst fifo burst bytes (b.write_u8 w fifo byte)

module _ {W : Type 0} (b : Board W) (fuel : ℕ) where
  module _ (sst : TpmSst) (locality : ℕ) where
    -- What follows the wait for a burst.
    unfoldable pub sent_burst :
        List ℕ
        → (W × List ℕ → Option (W × ErrorCode))
        → W × Result ErrorCode ℕ
        → Option (W × ErrorCode)
    sent_burst bytes next (w, ok burst) =
        next (write_burst b (external sst locality Fifo.data_fifo) burst bytes w)
    sent_burst bytes next (w, err e) = some (w, e)

    -- The outer FIFO loop, while bytes are left.
    unfoldable pub write_fifo : ℕ → List ℕ → W → Option (W × ErrorCode)
    unfolding sent_burst
    write_fifo n [] w = some (w, ErrorCode.ok)
    write_fifo zero (byte ∷ bytes) w = none
    write_fifo (suc n) (byte ∷ bytes) w =
        fifo_read_burst_count b fuel sst locality w
        >>= sent_burst (byte ∷ bytes) (λ (w', rest). write_fifo n rest w')

    unfoldable pub copy_command_data : List ℕ → ℕ → W → Option (W × ErrorCode)
    unfolding write_buffer write_fifo then_call
    copy_command_data tpm_command_buffer command_data_len w =
        let bytes = take command_data_len tpm_command_buffer in
        if sst.is_crb_interface
        then (some
            (write_buffer b (external sst locality Crb.crb_data_buffer) bytes w, ErrorCode.ok))
        else (write_fifo (length bytes) bytes w
            >>= then_call (
                wait_register_bits b fuel sst (external sst locality Fifo.status) sts_valid
                  sts_expect timeout_c))

    unfoldable pub start_command : W → Option (W × ErrorCode)
    start_command w =
        if sst.is_crb_interface
        then (let register = external sst locality Crb.crb_control_start in
            wait_register_bits b fuel sst register 0 control_start timeout_max
              (b.write_u32 w register control_start))
        else (let register = external sst locality Fifo.status in
            wait_register_bits b fuel sst register (bit_or sts_valid sts_data) 0 timeout_max
              (b.write_u8 w register sts_go))

    -- The closure for a CRB.
    unfoldable pub read_crb_byte : W → ℕ → Option (W × Result ErrorCode ℕ)
    read_crb_byte w offset =
        let (w', byte) = b.read_u8 w (external sst locality Crb.crb_data_buffer + offset) in
        some (w', ok byte)

    -- The closure for a FIFO, once a burst is known: the status is checked before the byte is read.
    unfoldable pub take_fifo_byte : W × Result ErrorCode ℕ → Option ((W × ℕ) × Result ErrorCode ℕ)
    take_fifo_byte (w, err e) = some ((w, 0), err e)
    take_fifo_byte (w, ok burst) =
        let (w', status) = b.read_u8 w (external sst locality Fifo.status) in
        let (w'', byte) = b.read_u8 w' (external sst locality Fifo.data_fifo) in
        some (
          if bit_and status sts_data == 0
          then ((w', burst), err ErrorCode.denied)
          else ((w'', burst - 1), ok byte))

    -- The closure for a FIFO; the number is `remaining_burst`.
    unfoldable pub read_fifo_byte : W × ℕ → ℕ → Option ((W × ℕ) × Result ErrorCode ℕ)
    unfolding take_fifo_byte
    read_fifo_byte (w, zero) offset = fifo_read_burst_count b fuel sst locality w >>= take_fifo_byte
    read_fifo_byte (w, suc burst) offset = take_fifo_byte (w, ok (suc burst))

    unfoldable pub copy_response_data : List ℕ → W → Option (W × List ℕ × Result ErrorCode ℕ)
    copy_response_data tpm_command_buffer w =
        if sst.is_crb_interface
        then (read_tpm_response read_crb_byte w tpm_command_buffer)
        else (read_tpm_response read_fifo_byte (w, 0) tpm_command_buffer
            >>= λ ((w', remaining), buffer, result). some (w', buffer, result))
