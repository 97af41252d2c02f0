-- ===== src/Tpm/Sst/Registers.antt =====
-- tpm_sst.rs: what the waits for a register and for a burst count leave.
use odp_secure_services.Tpm.Sst.Conditions.{
  nonzero_some, if_none, if_some, bits_match_iff, Held, IsBurst,
}
use odp_secure_services.Tpm.Sst.Clock.{IsCovered, Quiet, Clock}
use odp_secure_services.Ffa.Error.{ErrorCode}
use odp_secure_services.Tpm.Sst.Waiting.{poll-Returns, counter_ticks_mono, Polled, IsAttempt}
use odp_secure_services.Tpm.Sst.Poll.{
  fifo_read_burst_count, status_of, wait_register_bits, check_register, poll, read_register,
  read_burst, timeout_ticks, bits_match,
}
use odp_secure_services.Tpm.Sst.Board.{
  timeout_d, external, poll_delay_us, TpmSst, timeout_max, Board,
}
use odp_secure_services.Tpm.Sst.Fifo
use odp_secure_services.Base.Options.{Returns-mono, returns, Returns->>=, Returns}
use odp_secure_services.Base.{
  Result, false, refl, err, none, ok, ap, ◌⊎◌, some, inr, inl, Bool-cases, ◌≤◌, ◌<◌, arith, Option,
  ◌+◌, true, ◌≡◌, ℕ,
}

module _ {W : Type 0} (b : Board W) (gap fuel : ℕ) (clock : Clock b gap)
    (covered : IsCovered b gap fuel) (P : W → Type 0) (quiet : Quiet b P) where
  open clock use {time}

  poll-Covered :
      {A : Type 0} (attempt : W → W × Option A)
      → IsAttempt b gap clock P quiet attempt
      → (timeout : ℕ) (w : W) → timeout ≤ timeout_max
      → P w
      → Returns
          (λ r.
            (w0 : W) × P w0
            × Polled b gap clock P quiet attempt
                (time (b.counter w0).0 + timeout_ticks b timeout)
                r)
          (poll b fuel attempt timeout w)
  poll-Covered attempt is timeout w le p =
      let wait = counter_ticks_mono b.frequency timeout timeout_max le in
      let delay = counter_ticks_mono b.frequency poll_delay_us timeout_max (omega arith) in
      poll-Returns b gap clock P quiet attempt is fuel timeout w (omega (arith, covered.fits, wait))
        (omega (arith, covered.enough, wait)) (omega (arith, covered.fits, delay))
        (omega (arith, covered.enough, delay)) p

  read_burst-IsAttempt : (address : ℕ) → IsAttempt b gap clock P quiet (read_burst b address)
  unfolding read_burst
  read_burst-IsAttempt address = record {
    keeps = λ w. omega (
      arith,
      clock.read_u8_keeps w address,
      clock.read_u8_keeps (b.read_u8 w address).0 (address + 1),
    );
    near = λ w. omega (
      arith,
      clock.read_u8_gap w address,
      clock.read_u8_gap (b.read_u8 w address).0 (address + 1),
    );
    same = λ w p. quiet.read_u8_quiet _ _ (quiet.read_u8_quiet w address p);
  }

  read_register-Time :
      (sst : TpmSst) (register : ℕ) (w : W)
      → (time w ≤ time (read_register b sst register w).0)
        × (time (read_register b sst register w).0 ≤ time w + gap)
  unfolding read_register
  read_register-Time sst register w = elim (Bool-cases sst.is_crb_interface) [
    | inl e ↦ rw e (clock.read_u32_keeps w register, clock.read_u32_gap w register)
    | inr e ↦ rw e (clock.read_u8_keeps w register, clock.read_u8_gap w register)
  ]

  read_register-Quiet :
      (sst : TpmSst) (register : ℕ) (w : W) → P w → P (read_register b sst register w).0
  unfolding read_register
  read_register-Quiet sst register w p = elim (Bool-cases sst.is_crb_interface) [
    | inl e ↦ rw e (quiet.read_u32_quiet w register p)
    | inr e ↦ rw e (quiet.read_u8_quiet w register p)
  ]

  check_register-IsAttempt :
      (sst : TpmSst) (register bit_set bit_clear : ℕ)
      → IsAttempt b gap clock P quiet (check_register b sst register bit_set bit_clear)
  unfolding check_register
  check_register-IsAttempt sst register bit_set bit_clear = record {
    keeps = λ w. (read_register-Time sst register w).0;
    near = λ w. omega (arith, (read_register-Time sst register w).1);
    same = λ w p. read_register-Quiet sst register w p;
  }

  check_register-Held :
      (sst : TpmSst) (register bit_set bit_clear : ℕ) (w w' : W) (u : Unit {0})
      → check_register b sst register bit_set bit_clear w ≡ (w', some u)
      → Held b sst register bit_set bit_clear w'
  unfolding check_register
  check_register-Held sst register bit_set bit_clear w w' u e =
      let v = (read_register b sst register w).1 in
      let world : (read_register b sst register w).0 ≡ w' =
        ap (λ (r : W × Option (Unit {0})). r.0) e in
      let held =
        bits_match_iff bit_set bit_clear v (
          if_some tt (bits_match bit_set bit_clear v)
            (ap (λ (r : W × Option (Unit {0})). r.1) e)) in
      (w, v, ap (λ (x : W). (x, v)) world, held.0, held.1)

  check_register-none :
      (sst : TpmSst) (register bit_set bit_clear : ℕ) (w : W)
      → (check_register b sst register bit_set bit_clear w).1 ≡ none
      → bits_match bit_set bit_clear (read_register b sst register w).1 ≡ false
  unfolding check_register
  check_register-none sst register bit_set bit_clear w e = if_none tt _ e

  -- What a wait leaves: the bits, or a timeout that has passed since a read without them.
  abbrev pub Waited : TpmSst → ℕ → ℕ → ℕ → ℕ → W × ErrorCode → Type 0
  Waited sst register bit_set bit_clear timeout (w', status) =
      P w'
      × (((status ≡ ErrorCode.ok) × Held b sst register bit_set bit_clear w')
          ⊎ ((status ≡ ErrorCode.denied)
              × ((w : W) × P w × (time (b.counter w).0 + timeout_ticks b timeout ≤ time w'))
              × ((w : W) × P w
                  × (bits_match bit_set bit_clear (read_register b sst register w).1 ≡ false))))

  Polled-Waited :
      (sst : TpmSst) (register bit_set bit_clear timeout : ℕ) (w0 : W)
      → P w0
      → (r : W × Result ErrorCode (Unit {0}))
      → Polled b gap clock P quiet
          (check_register b sst register bit_set bit_clear)
          (time (b.counter w0).0 + timeout_ticks b timeout)
          r
      → Waited sst register bit_set bit_clear timeout (r.0, status_of r.1)
  Polled-Waited sst register bit_set bit_clear timeout w0 p0 (w', ok u) (last, p') =
      (p', inl (refl, check_register-Held sst register bit_set bit_clear last.0 w' u last.1))
  Polled-Waited sst register bit_set bit_clear timeout w0 p0 (w', err e)
        (denies, late, p', failed) =
      (
        p',
        inr (
          denies,
          (w0, p0, late),
          (
            failed.0,
            failed.1,
            check_register-none sst register bit_set bit_clear failed.0 failed.2,
          ),
        ),
      )

  -- A wait for register bits returns, when the counter runs with the time, the yields succeed and the
  -- fuel covers the timeout: `Ok` after a read in which the bits are as asked, or `Denied` after a read
  -- in which they are not, and no earlier than the timeout after the wait's first reading of the
  -- counter. What the accesses of a wait leave alone is left alone.
  pub wait_register_bits-Waited :
      (sst : TpmSst) (register bit_set bit_clear timeout : ℕ) (w : W)
      → timeout ≤ timeout_max
      → P w
      → Returns
          (Waited sst register bit_set bit_clear timeout)
          (wait_register_bits b fuel sst register bit_set bit_clear timeout w)
  unfolding wait_register_bits
  wait_register_bits-Waited sst register bit_set bit_clear timeout w le p =
      Returns->>= _
        (poll-Covered _ (check_register-IsAttempt sst register bit_set bit_clear) timeout w le p)
        λ r (w0, p0, polled).
          returns _ (Polled-Waited sst register bit_set bit_clear timeout w0 p0 r polled)

  -- A wait succeeds, when the bits are as asked and stay so while it waits.
  pub wait_register_bits-ready :
      (sst : TpmSst) (register bit_set bit_clear timeout : ℕ) (w : W)
      → timeout ≤ timeout_max
      → P w
      → ((w' : W) → P w' → bits_match bit_set bit_clear (read_register b sst register w').1 ≡ true)
      → Returns
          (λ r. r.1 ≡ ErrorCode.ok)
          (wait_register_bits b fuel sst register bit_set bit_clear timeout w)
  wait_register_bits-ready sst register bit_set bit_clear timeout w le p ready =
      Returns-mono (wait_register_bits-Waited sst register bit_set bit_clear timeout w le p)
        λ r (p', outcome). elim outcome [
          | inl held ↦ held.0
          | inr late ↦
              let failed = late.2 in absurd (ground (arith, failed.2, ready failed.0 failed.1))
        ]

  pub wait_register_bits-Quiet :
      (sst : TpmSst) (register bit_set bit_clear timeout : ℕ) (w : W)
      → timeout ≤ timeout_max
      → P w
      → Returns (λ r. P r.0) (wait_register_bits b fuel sst register bit_set bit_clear timeout w)
  wait_register_bits-Quiet sst register bit_set bit_clear timeout w le p =
      Returns-mono (wait_register_bits-Waited sst register bit_set bit_clear timeout w le p)
        λ r waited. waited.0

  read_burst-positive : (address n : ℕ) (w w' : W) → read_burst b address w ≡ (w', some n) → 0 < n
  unfolding read_burst
  read_burst-positive address n w w' e = nonzero_some _ n (ap (λ (r : W × Option ℕ). r.1) e)

  Polled-positive :
      (address deadline : ℕ) (r : W × Result ErrorCode ℕ)
      → Polled b gap clock P quiet (read_burst b address) deadline r
      → P r.0 × IsBurst r.1
  Polled-positive address deadline (w', ok n) (last, p') =
      (p', read_burst-positive address n last.0 w' last.1)
  Polled-positive address deadline (w', err e) (denies, late, p', failed) = (p', denies)

  pub fifo_read_burst_count-Returns :
      (sst : TpmSst) (locality : ℕ) (w : W)
      → P w
      → Returns (λ r. P r.0 × IsBurst r.1) (fifo_read_burst_count b fuel sst locality w)
  unfolding fifo_read_burst_count
  fifo_read_burst_count-Returns sst locality w p =
      Returns-mono
        (poll-Covered _ (read_burst-IsAttempt (external sst locality Fifo.burst_count)) timeout_d w
          (omega arith) p)
        λ r (w0, p0, polled). Polled-positive _ _ r polled
