-- ===== src/Tpm/Sst/Start.antt =====
-- tpm_sst.rs: `start` ends, and changes the internal CRB by a whole response or not at all.
use odp_secure_services.Tpm.Sst.Conditions.{is_ok-ne}
use odp_secure_services.Tpm.Sst.Clock.{IsCovered, unit-Quiet, Clock}
use odp_secure_services.Tpm.Sst.Sending.{copy_command_data-Wrote, Writer}
use odp_secure_services.Tpm.Sst.Ops.{
  start, command_buffer, header_buffer, run_command, started, copied, answered,
}
use odp_secure_services.Tpm.Sst.Answer.{tpm_packet_length-IsLength, IsLength}
use odp_secure_services.Tpm.Sst.Transfer.{copy_command_data, start_command}
use odp_secure_services.Tpm.Sst.Packet.{contains, copy_at, tpm_header_size, packet_size}
use odp_secure_services.Ffa.Error.{ErrorCode}
use odp_secure_services.Tpm.Sst.Board.{sts_data, sts_valid, external, timeout_max, TpmSst, Board}
use odp_secure_services.Tpm.Registers.{crb_data_buffer_size, is_ok, control_start, PtpCrbRegisters}
use mathlib.Core.List.{append_assoc}
use odp_secure_services.Tpm.Sst.Fifo
use odp_secure_services.Tpm.Sst.Buffers.{length-command_buffer}
use odp_secure_services.Tpm.Sst.Receiving.{IsResponse, waits, copy_response_data-IsResponse}
use odp_secure_services.Base.Options.{Returns-mono, returns, Returns->>=, Returns}
use odp_secure_services.Base.{
  ◌&&◌, [], Bool-cases, true, take-append, ap, ◌∙◌, sym, ap₂, refl, length-take, take, inr, bit_or,
  inl, arith, ◌⊎◌, ◌≢◌, err, drop, if_split, ◌++◌, ◌≤◌, length, ◌≡◌, ok, Result, List, ℕ,
}

-- On success the block's data begin with a packet, no longer than the response size of the block
-- allows, and go on as before; nothing else of the block has changed. On an error nothing has.
abbrev pub Started : {W : Type 0} → PtpCrbRegisters → W × PtpCrbRegisters × ErrorCode → Type 0
Started crb (w', crb', status) =
    ((status ≡ ErrorCode.ok)
      × ((bytes : List ℕ) × (packet_size bytes ≡ length bytes)
          × (tpm_header_size ≤ length bytes)
          × (length bytes ≤ crb.crb_control_response_size)
          × (crb'
              ≡ record crb { crb_data_buffer = bytes ++ drop (length bytes) crb.crb_data_buffer })))
    ⊎ ((status ≢ ErrorCode.ok) × (crb' ≡ crb))

module _ {W : Type 0} (b : Board W) (gap fuel : ℕ) (clock : Clock b gap)
    (covered : IsCovered b gap fuel) (sst : TpmSst) (locality : ℕ) where
  start_command-Returns : (w : W) → Returns (λ r. Unit {0}) (start_command b fuel sst locality w)
  unfolding start_command
  start_command-Returns w =
      if_split (Returns (λ r. Unit {0})) sst.is_crb_interface
        (λ t.
          waits b gap fuel clock covered sst locality _ 0 control_start timeout_max _ (omega arith))
        (λ t.
          waits b gap fuel clock covered sst locality _ (bit_or sts_valid sts_data) 0 timeout_max _
            (omega arith))

  answered-Started :
      (crb : PtpCrbRegisters) (buffer rest : List ℕ) (r : W × List ℕ × Result ErrorCode ℕ)
      → length buffer ≤ crb.crb_control_response_size
      → IsResponse buffer r
      → Returns (Started crb) (answered b fuel sst locality crb rest r)
  unfolding answered
  answered-Started crb buffer rest (w', buffer', ok n) small (bytes, l, size, lo, hi, e) =
      returns _ (
        inl (
          refl,
          (
            bytes,
            omega (arith, l, size),
            omega (arith, l, lo),
            omega (arith, l, hi, small),
            ap (λ (d : List ℕ). record crb { crb_data_buffer = d }) placed,
          ),
        ))
    where
      first : take n (buffer' ++ rest) ≡ bytes
      first =
          ap₂ (λ (k : ℕ) (l : List ℕ). take k (l ++ rest)) (sym l) e
          ∙ (ap (take (length bytes)) (append_assoc bytes (drop n buffer) rest)
              ∙ take-append bytes (drop n buffer ++ rest))

      placed :
          copy_at crb.crb_data_buffer 0 (take n (buffer' ++ rest))
          ≡ bytes ++ drop (length bytes) crb.crb_data_buffer
      placed =
          ap (copy_at crb.crb_data_buffer 0) first
          ∙ ap (λ (k : ℕ). bytes ++ drop k crb.crb_data_buffer) (omega arith)
  answered-Started crb buffer rest (w', buffer', err code) small fails =
      returns _ (inr (fails, refl))

  started-Started :
      (crb : PtpCrbRegisters) (buffer : List ℕ) (r : W × ErrorCode)
      → crb.crb_control_response_size ≤ length buffer
      → Returns (Started crb) (started b fuel sst locality crb buffer r)
  unfolding started
  started-Started crb buffer (w', status) fits =
      if_split (Returns (Started crb)) (is_ok status)
        (λ t.
          Returns->>= _
            (copy_response_data-IsResponse b gap fuel clock covered sst locality
              (take crb.crb_control_response_size buffer) w')
            λ r p.
              answered-Started crb (take crb.crb_control_response_size buffer) _ r
                (omega (arith, length-take crb.crb_control_response_size buffer fits)) p)
        (λ t. returns _ (inr (is_ok-ne status t, refl)))

  copied-Started :
      (crb : PtpCrbRegisters) (buffer : List ℕ) (r : W × ErrorCode)
      → crb.crb_control_response_size ≤ length buffer
      → Returns (Started crb) (copied b fuel sst locality crb buffer r)
  unfolding copied
  copied-Started crb buffer (w', status) fits =
      if_split (Returns (Started crb)) (is_ok status)
        (λ t.
          Returns->>= (started b fuel sst locality crb buffer) (start_command-Returns w')
            λ r p. started-Started crb buffer r fits)
        (λ t. returns _ (inr (is_ok-ne status t, refl)))

  -- A record of nothing.
  writer : Writer b (external sst locality Fifo.data_fifo)
  writer = record {
    Written = λ done w. Unit {0};
    written_byte = λ done w byte q. tt;
    written_quiet = λ done. unit-Quiet b;
  }

  copy_command_data-crb :
      (buffer : List ℕ) (n : ℕ) (w : W)
      → sst.is_crb_interface ≡ true
      → Returns (λ r. Unit {0}) (copy_command_data b fuel sst locality buffer n w)
  unfolding copy_command_data
  copy_command_data-crb buffer n w t =
      if_split (Returns (λ r. Unit {0})) sst.is_crb_interface (λ t'. returns _ tt)
        (λ t'. absurd (ground (arith, t, t')))

  copy_command_data-Returns :
      (buffer : List ℕ) (n : ℕ) (w : W)
      → Returns (λ r. Unit {0}) (copy_command_data b fuel sst locality buffer n w)
  unfolding writer
  copy_command_data-Returns buffer n w = elim (Bool-cases sst.is_crb_interface) [
    | inl t ↦ copy_command_data-crb buffer n w t
    | inr t ↦
        Returns-mono
          (copy_command_data-Wrote b sst locality writer gap fuel clock covered buffer [] n w t tt)
          λ r p. tt
  ]

  run_command-Started :
      (crb : PtpCrbRegisters) (w : W) (r : Result ErrorCode ℕ)
      → crb.crb_control_response_size ≤ crb_data_buffer_size
      → IsLength (header_buffer crb.crb_data_buffer) crb.crb_control_command_size r
      → Returns (Started crb) (run_command b fuel sst locality crb w r)
  unfolding run_command
  run_command-Started crb w (ok n) fits len =
      Returns->>= (copied b fuel sst locality crb (command_buffer crb.crb_data_buffer n))
        (copy_command_data-Returns (command_buffer crb.crb_data_buffer n) n w)
        λ r p.
          copied-Started crb (command_buffer crb.crb_data_buffer n) r
            (omega (arith, fits, length-command_buffer crb.crb_data_buffer n))
  run_command-Started crb w (err code) fits bad =
      returns _ (inr ((λ good. grind (arith, bad, good)), refl))

  -- `start` returns, when the counter runs with the time, the yields succeed and the fuel covers the
  -- longest timeout. With success the data of the block begin with a packet of the length in its
  -- own header, no longer than the response size of the block, and everything else of the block is
  -- as it was; with any other code the whole block is as it was.
  pub start-Started :
      (crb : PtpCrbRegisters) (w : W) → Returns (Started crb) (start b fuel sst locality crb w)
  unfolding start
  start-Started crb w =
      if_split (Returns (Started crb))
        (contains tpm_header_size crb_data_buffer_size crb.crb_control_command_size
          && contains tpm_header_size crb_data_buffer_size crb.crb_control_response_size)
        (λ t. run_command-Started crb w _ (ground (arith, t)) (
          tpm_packet_length-IsLength (header_buffer crb.crb_data_buffer)
            crb.crb_control_command_size))
        (λ t. returns _ (inr ((λ good. grind (arith, good)), refl)))
