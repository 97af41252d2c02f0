-- ===== src/Tpm/Sst/Sending.antt =====
-- tpm_sst.rs: a FIFO gets the bytes of the command, each once and in order. `Writer` is any record
-- of what has been written to the data FIFO.
use odp_secure_services.Tpm.Sst.Conditions.{IsBurst, is_ok-eq}
use odp_secure_services.Tpm.Sst.Clock.{IsCovered, Quiet, Clock}
use odp_secure_services.Tpm.Registers.{is_ok}
use odp_secure_services.Tpm.Sst.Poll.{then_call}
use odp_secure_services.Tpm.Sst.Registers.{wait_register_bits-Quiet, fifo_read_burst_count-Returns}
use odp_secure_services.Tpm.Sst.Transfer.{copy_command_data, write_fifo, sent_burst, write_burst}
use odp_secure_services.Ffa.Error.{ErrorCode}
use odp_secure_services.Tpm.Sst.Board.{timeout_c, sts_expect, sts_valid, external, TpmSst, Board}
use odp_secure_services.Tpm.Sst.Fifo
use mathlib.Core.Path.{subst}
use mathlib.Core.List.{append-nil, append_assoc}
use odp_secure_services.Base.Options.{Returns->>=, Returns-mono, returns, Returns}
use odp_secure_services.Base.{
  if_split, take, false, err, length-append, arith, ok, Result, ◌<◌, ◌≤◌, Option, ◌∙◌, sym, refl,
  zero, ap, suc, min, length, [], ◌∷◌, ◌++◌, ◌≡◌, List, ℕ,
}

-- A predicate of what has been written to the FIFO so far: a byte more is a write more, and no
-- access of a wait changes it.
pub record Writer {W : Type 0} (b : Board W) (fifo : ℕ) : Type 1 where
  pub Written : List ℕ → W → Type 0
  pub written_byte :
      (done : List ℕ) (w : W) (byte : ℕ)
      → Written done w
      → Written (done ++ (byte ∷ [])) (b.write_u8 w fifo byte)
  pub written_quiet : (done : List ℕ) → Quiet b (Written done)

-- After the bytes `before` a part of `bytes` has been written; all of it, if the code is a success.
abbrev pub Wrote :
    {W : Type 0} (Written : List ℕ → W → Type 0) → List ℕ → List ℕ → W × ErrorCode → Type 0
Wrote {W} Written before bytes (w', status) =
    (done : List ℕ) × (rest : List ℕ) × (bytes ≡ done ++ rest)
    × Written (before ++ done) w'
    × (status ≡ ErrorCode.ok → rest ≡ [])

module _ {W : Type 0} (b : Board W) (sst : TpmSst) (locality : ℕ)
    (writer : Writer b (external sst locality Fifo.data_fifo)) where
  open writer use {Written}

  abbrev fifo : ℕ
  fifo = external sst locality Fifo.data_fifo

  write_burst-Written :
      (n : ℕ) (bytes before : List ℕ) (w : W)
      → Written before w
      → (done : List ℕ) × (bytes ≡ done ++ (write_burst b fifo n bytes w).1)
        × Written (before ++ done) (write_burst b fifo n bytes w).0
        × (length done ≡ min n (length bytes))
  unfolding write_burst
  write_burst-Written zero bytes before w q =
      ([], refl, subst (λ l. Written l w) (sym (append-nil before)) q, omega arith)
  write_burst-Written (suc n) [] before w q =
      ([], refl, subst (λ l. Written l w) (sym (append-nil before)) q, omega arith)
  write_burst-Written (suc n) (byte ∷ bytes) before w q =
      let (done, e, q', l) =
        write_burst-Written n bytes (before ++ (byte ∷ [])) (b.write_u8 w fifo byte)
          (writer.written_byte before w byte q) in
      (
        byte ∷ done,
        ap (λ bs. byte ∷ bs) e,
        subst (λ l. Written l (write_burst b fifo n bytes (b.write_u8 w fifo byte)).0)
            (append_assoc before (byte ∷ []) done) q',
        omega (arith, l),
      )

  Wrote-append :
      (before bytes done rest : List ℕ) (r : W × ErrorCode)
      → bytes ≡ done ++ rest
      → Wrote Written (before ++ done) rest r
      → Wrote Written before bytes r
  Wrote-append before bytes done rest r e (done', rest', e', q, whole) = (
    done ++ done',
    rest',
    e ∙ (ap (λ l. done ++ l) e' ∙ sym (append_assoc done done' rest')),
    subst (λ l. Written l r.0) (append_assoc before done done') q,
    whole,
  )

  module _ (gap fuel : ℕ) (clock : Clock b gap) (covered : IsCovered b gap fuel) where
    -- A burst of at least one byte is written, then the rest.
    sent_burst-Wrote :
        (bytes before : List ℕ) (next : W × List ℕ → Option (W × ErrorCode))
        → 0 < length bytes
        → ((w' : W) (before' rest : List ℕ)
            → length rest < length bytes
            → Written before' w'
            → Returns (Wrote Written before' rest) (next (w', rest)))
        → (r : W × Result ErrorCode ℕ) → Written before r.0
        → IsBurst r.1
        → Returns (Wrote Written before bytes) (sent_burst b fuel sst locality bytes next r)
    unfolding sent_burst
    sent_burst-Wrote bytes before next some_left later (w', ok n) q positive =
        let (done, e, q', l) = write_burst-Written n bytes before w' q in
        Returns-mono
          (later _ (before ++ done) _
            (omega (arith, l, ap length e, length-append done (write_burst b fifo n bytes w').1))
            q')
          (λ r wrote. Wrote-append before bytes done _ r e wrote)
    sent_burst-Wrote bytes before next some_left later (w', err e) q denies = returns _ (
      [],
      bytes,
      refl,
      subst (λ l. Written l w') (sym (append-nil before)) q,
      λ e'. absurd (grind (arith, denies, e')),
    )

    write_fifo-Wrote :
        (n : ℕ) (bytes before : List ℕ) (w : W)
        → length bytes ≤ n
        → Written before w
        → Returns (Wrote Written before bytes) (write_fifo b fuel sst locality n bytes w)
    unfolding write_fifo
    write_fifo-Wrote n [] before w h q =
        returns _ ([], [], refl, subst (λ l. Written l w) (sym (append-nil before)) q, λ e. refl)
    write_fifo-Wrote zero (byte ∷ bytes) before w h q = absurd (omega arith)
    write_fifo-Wrote (suc n) (byte ∷ bytes) before w h q =
        Returns->>= _
          (fifo_read_burst_count-Returns b gap fuel clock covered (Written before)
            (writer.written_quiet before) sst locality w q)
          (λ r (same, burst).
            sent_burst-Wrote (byte ∷ bytes) before
              (λ (w', rest). write_fifo b fuel sst locality n rest w') (omega arith)
              (λ w' before' rest shorter q'. write_fifo-Wrote n rest before' w' (omega arith) q') r
              same burst)

    then_call-Wrote :
        (before bytes : List ℕ) (next : W → Option (W × ErrorCode))
        → ((done : List ℕ) (w' : W) → Written done w' → Returns (λ r. Written done r.0) (next w'))
        → (r : W × ErrorCode) → Wrote Written before bytes r
        → Returns (Wrote Written before bytes) (then_call next r)
    unfolding then_call
    then_call-Wrote before bytes next quiet (w', status) (done, rest, e, q, whole) =
        if_split (Returns (Wrote Written before bytes)) (is_ok status)
          (λ t.
            Returns-mono (quiet (before ++ done) w' q)
              λ r q'. (done, rest, e, q', λ _. whole (is_ok-eq status t)))
          (λ t. returns _ (done, rest, e, q, whole))

    -- Over a FIFO, what `copy_command_data` writes to it is a first part of the command, and all of
    -- the command when it succeeds; it returns, since the counter runs with the time and the fuel
    -- covers the longest timeout.
    pub copy_command_data-Wrote :
        (buffer before : List ℕ) (n : ℕ) (w : W)
        → sst.is_crb_interface ≡ false
        → Written before w
        → Returns
            (Wrote Written before (take n buffer))
            (copy_command_data b fuel sst locality buffer n w)
    unfolding copy_command_data
    copy_command_data-Wrote buffer before n w fifo_type q =
        if_split (Returns (Wrote Written before (take n buffer))) sst.is_crb_interface
          (λ t. absurd (ground (arith, t, fifo_type)))
          (λ t.
            Returns->>= _
              (write_fifo-Wrote (length (take n buffer)) (take n buffer) before w (omega arith) q)
              λ r wrote.
                then_call-Wrote before (take n buffer) _
                  (λ done w' q'.
                    wait_register_bits-Quiet b gap fuel clock covered (Written done)
                      (writer.written_quiet done) sst (external sst locality Fifo.status) sts_valid
                      sts_expect timeout_c w' (omega arith) q')
                  r wrote)
