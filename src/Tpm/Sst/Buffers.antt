-- ===== src/Tpm/Sst/Buffers.antt =====
-- tpm_sst.rs: the lengths of the local buffer of `start`.
use odp_secure_services.Tpm.Sst.Ops.{command_buffer, header_buffer}
use odp_secure_services.Tpm.Sst.Packet.{copy_at, tpm_header_size}
use odp_secure_services.Tpm.Registers.{zero_bytes, crb_data_buffer_size}
use odp_secure_services.Base.{
  length-drop, length-replicate, ◌+◌, ◌-◌, length-append, length-take, take, arith, drop, ◌++◌, ◌≤◌,
  length, ◌≡◌, List, ℕ,
}

length-copy_at_ge :
    (buffer : List ℕ) (offset : ℕ) (bytes : List ℕ)
    → offset ≤ length buffer
    → length buffer ≤ length (copy_at buffer offset bytes)
length-copy_at_ge buffer offset bytes h = omega (
  arith,
  length-append (take offset buffer) (bytes ++ drop (offset + length bytes) buffer),
  length-append bytes (drop (offset + length bytes) buffer),
  length-take offset buffer h,
  length-drop (offset + length bytes) buffer,
)

length-zero_bytes : (n : ℕ) → length (zero_bytes n) ≡ n
unfolding zero_bytes
length-zero_bytes n = length-replicate n 0

pub length-header_buffer : (block : List ℕ) → crb_data_buffer_size ≤ length (header_buffer block)
unfolding header_buffer
length-header_buffer block = omega (
  arith,
  length-copy_at_ge (zero_bytes crb_data_buffer_size) 0 (take tpm_header_size block) (omega arith),
  length-zero_bytes crb_data_buffer_size,
)

pub length-command_buffer :
    (block : List ℕ) (n : ℕ) → crb_data_buffer_size ≤ length (command_buffer block n)
unfolding command_buffer
length-command_buffer block n = omega (
  arith,
  length-copy_at_ge (header_buffer block) tpm_header_size
      (take (n - tpm_header_size) (drop tpm_header_size block))
      (omega (arith, length-header_buffer block)),
  length-header_buffer block,
)
