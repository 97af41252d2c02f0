-- ===== src/Tpm/Sst/Waiting.antt =====
-- tpm_sst.rs: the waits end. The counter runs with the time, and the yields succeed.
use odp_secure_services.Tpm.Sst.Clock.{Quiet, Clock}
use mathlib.Core.Path.{subst}
use odp_secure_services.Ffa.Error.{ErrorCode}
use odp_secure_services.Tpm.Sst.Poll.{
  poll, unless_expired, while_short, after_attempt, poll_loop, timeout_ticks, yield_now,
  delay_microseconds, spin,
}
use odp_secure_services.Tpm.Sst.Board.{
  poll_delay_us, wrapping_sub, counter_ticks_for_microseconds, Board,
}
use native.Mathlib.Nat.{mul-le-mul_left}
use odp_secure_services.Base.Options.{Returns-mono, Returns->>=, returns, Returns}
use odp_secure_services.Base.{
  ap, none, leb, refl, Bool, err, some, Result, Option, ltb, true, false, zero, ok, ◌-◌, suc, ◌^◌,
  arith, ◌+◌, ◌%◌, ◌*◌, ◌<◌, ◌≡◌, ◌≤◌, ℕ,
}

-- The ticks that have passed are the difference of the counter's values.
pub wrapping_sub-elapsed :
    (t s : ℕ) → s ≤ t → t < s + 2 ^ 64 → wrapping_sub (t % 2 ^ 64) (s % 2 ^ 64) ≡ t - s
wrapping_sub-elapsed t s h k = omega arith

pub counter_ticks_mono :
    (f us us' : ℕ)
    → us ≤ us'
    → counter_ticks_for_microseconds f us ≤ counter_ticks_for_microseconds f us'
unfolding counter_ticks_for_microseconds
counter_ticks_mono f us us' h = let scaled : f * us ≤ f * us' = mul-le-mul_left f h in omega arith

module _ {W : Type 0} (b : Board W) (gap : ℕ) (clock : Clock b gap) (P : W → Type 0)
    (quiet : Quiet b P) where
  open clock use {time}

  counter-elapsed :
      (start : ℕ) (w : W)
      → start ≤ time w
      → time w + gap < start + 2 ^ 64
      → wrapping_sub (b.counter w).1 (start % 2 ^ 64) ≡ time (b.counter w).0 - start
  counter-elapsed start w lo hi = rw (clock.counter_value w) (
      wrapping_sub-elapsed (time (b.counter w).0) start (omega (arith, clock.counter_moves w))
        (omega (arith, clock.counter_gap w)))

  -- A turn of the spin loop, given that the turns after it return.
  while_short-Returns :
      (start ticks : ℕ) (w : W) (next : W → Option W)
      → ticks + gap < 2 ^ 64
      → start ≤ time w
      → time w ≤ start + ticks
      → P w
      → ((w' : W) → time w < time w' → time w' ≤ start + ticks → P w' → Returns P (next w'))
      → (short : Bool) → ltb (wrapping_sub (b.counter w).1 (start % 2 ^ 64)) ticks ≡ short
      → Returns P (while_short b short next (b.counter w).0)
  unfolding while_short
  while_short-Returns start ticks w next fits lo hi p later true e =
      later (b.counter w).0 (clock.counter_moves w)
        (ground (arith, counter-elapsed start w lo (omega arith), e, clock.counter_moves w))
        (quiet.counter_quiet w p)
  while_short-Returns start ticks w next fits lo hi p later false e =
      returns _ (quiet.counter_quiet w p)

  pub spin-Returns :
      (n start ticks : ℕ) (w : W)
      → ticks + gap < 2 ^ 64
      → start ≤ time w
      → time w ≤ start + ticks
      → start + ticks < time w + n
      → P w
      → Returns P (spin b n (start % 2 ^ 64) ticks w)
  unfolding spin
  spin-Returns zero start ticks w fits lo hi enough p = absurd (omega arith)
  spin-Returns (suc n) start ticks w fits lo hi enough p =
      while_short-Returns start ticks w (spin b n (start % 2 ^ 64) ticks) fits lo hi p
        (λ w' more hi' p'. spin-Returns n start ticks w' fits (omega arith) hi' (omega arith) p') _
        refl

  pub delay_microseconds-Returns :
      (fuel us : ℕ) (w : W)
      → timeout_ticks b us + gap < 2 ^ 64
      → timeout_ticks b us < fuel
      → P w
      → Returns P (delay_microseconds b fuel us w)
  unfolding delay_microseconds
  delay_microseconds-Returns fuel us w fits enough p = rw (clock.counter_value w) (
      spin-Returns fuel (time (b.counter w).0) (timeout_ticks b us) (b.counter w).0 fits
        (omega arith) (omega arith) (omega arith) (quiet.counter_quiet w p))

  pub yield_now-Returns :
      (w : W)
      → P w
      → Returns (λ w'. (time w ≤ time w') × (time w' ≤ time w + gap) × P w') (yield_now b w)
  unfolding yield_now
  yield_now-Returns w p =
      rw (clock.yield_ok w)
        (returns _ (clock.yield_keeps w, clock.yield_gap w, quiet.yield_quiet w p))

  module _ {A : Type 0} (attempt : W → W × Option A) where
    -- An attempt takes at most two accesses.
    pub record IsAttempt : Type 0 where
      pub keeps : (w : W) → time w ≤ time (attempt w).0
      pub near : (w : W) → time (attempt w).0 ≤ time w + 2 * gap
      pub same : (w : W) → P w → P (attempt w).0

    -- The value is that of the last attempt; `denied` comes when an attempt has failed, and no
    -- earlier than the timeout.
    abbrev pub Polled : ℕ → W × Result ErrorCode A → Type 0
    Polled deadline (w', ok a) = ((w : W) × (attempt w ≡ (w', some a))) × P w'
    Polled deadline (w', err e) =
        (e ≡ ErrorCode.denied)
        × (deadline ≤ time w')
        × P w'
        × ((w : W) × P w × ((attempt w).1 ≡ none))

    -- A round, given that the rounds after it return.
    after_attempt-Returns :
        IsAttempt
        → (start ticks last : ℕ) (w : W) (next : W → Option (W × Result ErrorCode A))
        → ticks + 4 * gap < 2 ^ 64
        → start ≤ last
        → last ≤ start + ticks
        → last ≤ time w
        → time w ≤ last + gap
        → P w
        → ((last' : ℕ) (w' : W)
            → last < last'
            → last' ≤ start + ticks
            → last' ≤ time w'
            → time w' ≤ last' + gap
            → P w'
            → Returns (Polled (start + ticks)) (next w'))
        → (r : W × Option A) → attempt w ≡ r
        → Returns (Polled (start + ticks)) (after_attempt b attempt (start % 2 ^ 64) ticks next r)
    unfolding after_attempt unless_expired
    after_attempt-Returns is start ticks last w next fits lo hi since near p later (w', some a) e =
        returns _ ((w, e), subst (λ (r : W × Option A). P r.0) e (is.same w p))
    after_attempt-Returns is start ticks last w next fits lo hi since near p later (w', none) e =
        go _ refl
      where
        kept : P w'
        kept = subst (λ (r : W × Option A). P r.0) e (is.same w p)

        late : time w ≤ time w'
        late = subst (λ (r : W × Option A). time w ≤ time r.0) e (is.keeps w)

        soon : time w' ≤ time w + 2 * gap
        soon = subst (λ (r : W × Option A). time r.0 ≤ time w + 2 * gap) e (is.near w)

        now : wrapping_sub (b.counter w').1 (start % 2 ^ 64) ≡ time (b.counter w').0 - start
        now = counter-elapsed start w' (omega (arith, late)) (omega (arith, soon))

        go :
            (over : Bool)
            → leb ticks (wrapping_sub (b.counter w').1 (start % 2 ^ 64)) ≡ over
            → Returns (Polled (start + ticks)) (unless_expired b over next (b.counter w').0)
        go true over = returns _ (
          refl,
          ground (arith, now, over, late, clock.counter_moves w'),
          quiet.counter_quiet w' kept,
          (w, p, ap (λ (r : W × Option A). r.1) e),
        )
        go false over =
            Returns->>= next (yield_now-Returns (b.counter w').0 (quiet.counter_quiet w' kept))
              λ w'' (keeps, near', p').
                later (time (b.counter w').0) w'' (omega (arith, late, clock.counter_moves w'))
                  (ground (arith, now, over)) keeps near' p'

    pub poll_loop-Returns :
        IsAttempt
        → (n start ticks last : ℕ) (w : W) → ticks + 4 * gap < 2 ^ 64
        → start ≤ last
        → last ≤ start + ticks
        → last ≤ time w
        → time w ≤ last + gap
        → start + ticks < last + n
        → P w
        → Returns (Polled (start + ticks)) (poll_loop b attempt n (start % 2 ^ 64) ticks w)
    unfolding poll_loop
    poll_loop-Returns is zero start ticks last w fits lo hi since near enough p =
        absurd (omega arith)
    poll_loop-Returns is (suc n) start ticks last w fits lo hi since near enough p =
        after_attempt-Returns is start ticks last w
          (λ w'. poll_loop b attempt n (start % 2 ^ 64) ticks w') fits lo hi since near p
          (λ last' w' more hi' since' near' p'.
            poll_loop-Returns is n start ticks last' w' fits (omega arith) hi' since' near'
              (omega arith) p')
          (attempt w) refl

    -- The wait returns, when the fuel covers the delay and the timeout.
    pub poll-Returns :
        IsAttempt
        → (fuel timeout : ℕ) (w : W) → timeout_ticks b timeout + 4 * gap < 2 ^ 64
        → timeout_ticks b timeout < fuel
        → timeout_ticks b poll_delay_us + gap < 2 ^ 64
        → timeout_ticks b poll_delay_us < fuel
        → P w
        → Returns
            (λ r. (w0 : W) × P w0 × Polled (time (b.counter w0).0 + timeout_ticks b timeout) r)
            (poll b fuel attempt timeout w)
    unfolding poll
    poll-Returns is fuel timeout w fits enough fits' enough' p =
        Returns->>= _ (delay_microseconds-Returns fuel poll_delay_us w fits' enough' p) λ w' p'.
          rw (clock.counter_value w') (
            Returns-mono
              (poll_loop-Returns is fuel (time (b.counter w').0) (timeout_ticks b timeout)
                (time (b.counter w').0) (b.counter w').0 fits (omega arith) (omega arith)
                (omega arith) (omega arith) (omega arith) (quiet.counter_quiet w' p'))
              λ r polled. (w', p', polled))
