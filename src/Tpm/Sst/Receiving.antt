-- ===== src/Tpm/Sst/Receiving.antt =====
-- tpm_sst.rs: the readers of both interfaces return, and so does the response.
use odp_secure_services.Tpm.Sst.Conditions.{IsBurst}
use odp_secure_services.Tpm.Sst.Clock.{IsCovered, unit-Quiet, Clock}
use odp_secure_services.Tpm.Sst.Answer.{Responded, read_tpm_response-Responded}
use odp_secure_services.Tpm.Sst.Poll.{wait_register_bits}
use odp_secure_services.Tpm.Sst.Response.{IsReader}
use odp_secure_services.Tpm.Sst.Transfer.{
  copy_response_data, read_crb_byte, read_fifo_byte, take_fifo_byte,
}
use odp_secure_services.Tpm.Sst.Packet.{Reading, tpm_header_size, packet_size}
use odp_secure_services.Tpm.Sst.Registers.{fifo_read_burst_count-Returns, wait_register_bits-Quiet}
use odp_secure_services.Ffa.Error.{ErrorCode}
use odp_secure_services.Tpm.Sst.Board.{sts_data, external, timeout_max, TpmSst, Board}
use odp_secure_services.Tpm.Sst.Fifo
use odp_secure_services.Base.Options.{Returns-mono, returns, Returns->>=, Returns}
use odp_secure_services.Base.{
  ◌==◌, bit_and, Option, zero, arith, suc, ◌≢◌, err, drop, if_split, ◌++◌, ◌≤◌, length, ◌≡◌, ok,
  Result, List, ℕ,
}

-- The buffer begins with a packet of the length that its header says, and goes on as before.
abbrev pub IsResponse : {W : Type 0} → List ℕ → W × List ℕ × Result ErrorCode ℕ → Type 0
IsResponse buffer (w', buffer', ok n) =
    (bytes : List ℕ) × (length bytes ≡ n)
    × (packet_size bytes ≡ n)
    × (tpm_header_size ≤ n)
    × (n ≤ length buffer)
    × (buffer' ≡ bytes ++ drop n buffer)
IsResponse buffer (w', buffer', err e) = e ≢ ErrorCode.ok

Responded-IsResponse :
    {S : Type 0} {W : Type 0} (read_byte : S → ℕ → Option (S × Result ErrorCode ℕ)) (s : S)
    (world : S → W) (buffer : List ℕ) (r : Reading read_byte ℕ)
    → Responded read_byte s buffer r
    → IsResponse buffer (world r.0, r.1, r.2)
Responded-IsResponse read_byte s world buffer (s', buffer', ok n)
      (bytes, l, size, lo, hi, reads, e) =
    (bytes, l, size, lo, hi, e)
Responded-IsResponse read_byte s world buffer (s', buffer', err code) f = f

module _ {W : Type 0} (b : Board W) (gap fuel : ℕ) (clock : Clock b gap)
    (covered : IsCovered b gap fuel) (sst : TpmSst) (locality : ℕ) where
  pub waits :
      (register bit_set bit_clear timeout : ℕ) (w : W)
      → timeout ≤ timeout_max
      → Returns (λ r. Unit {0}) (wait_register_bits b fuel sst register bit_set bit_clear timeout w)
  waits register bit_set bit_clear timeout w le =
      wait_register_bits-Quiet b gap fuel clock covered (λ w. Unit {0}) (unit-Quiet b) sst register
        bit_set bit_clear timeout w le tt

  take_fifo_byte-fails :
      (r : W × Result ErrorCode ℕ)
      → IsBurst r.1
      → Returns
          (λ x. (e : ErrorCode) → x.1 ≡ err e → e ≢ ErrorCode.ok)
          (take_fifo_byte b fuel sst locality r)
  unfolding take_fifo_byte
  take_fifo_byte-fails (w, ok burst) positive =
      let status = (b.read_u8 w (external sst locality Fifo.status)).1 in
      returns _ (λ e same.
        if_split (λ (x : (W × ℕ) × Result ErrorCode ℕ). x.1 ≡ err e → e ≢ ErrorCode.ok)
          (bit_and status sts_data == 0) (λ t same'. λ good. grind (arith, same', good))
          (λ t same'. λ good. grind (arith, same', good)) same)
  take_fifo_byte-fails (w, err code) denies =
      returns _ (λ e same. λ good. grind (arith, denies, same, good))

  read_fifo_byte-IsReader : IsReader (read_fifo_byte b fuel sst locality)
  unfolding read_fifo_byte
  read_fifo_byte-IsReader (w, zero) offset =
      Returns->>= _
        (fifo_read_burst_count-Returns b gap fuel clock covered (λ w. Unit {0}) (unit-Quiet b) sst
          locality w tt)
        λ r (_, burst). take_fifo_byte-fails r burst
  read_fifo_byte-IsReader (w, suc burst) offset =
      take_fifo_byte-fails (w, ok (suc burst)) (omega arith)

  read_crb_byte-IsReader : IsReader (read_crb_byte b fuel sst locality)
  unfolding read_crb_byte
  read_crb_byte-IsReader w offset = returns _ (λ e same. λ good. grind (arith, same, good))

  pub copy_response_data-IsResponse :
      (buffer : List ℕ) (w : W)
      → Returns (IsResponse buffer) (copy_response_data b fuel sst locality buffer w)
  unfolding copy_response_data
  copy_response_data-IsResponse buffer w =
      if_split (Returns (IsResponse buffer)) sst.is_crb_interface
        (λ t.
          Returns-mono
            (read_tpm_response-Responded (read_crb_byte b fuel sst locality) read_crb_byte-IsReader
              w buffer)
            λ r p. Responded-IsResponse _ w (λ x. x) buffer r p)
        (λ t.
          Returns->>= _
            (read_tpm_response-Responded (read_fifo_byte b fuel sst locality)
              read_fifo_byte-IsReader (w, 0) buffer)
            λ r p. returns _ (Responded-IsResponse _ (w, 0) (λ x. x.0) buffer r p))
