-- ===== src/Tpm/Sst/Poll.antt =====
-- tpm_sst.rs: the delay, the timeout, and the waits for a register. `none` is a panic, when the
-- monitor refuses the yield, or the end of the fuel of a loop.
use odp_secure_services.Ffa.Error.{ErrorCode}
use odp_secure_services.Tpm.Sst.Board.{
  timeout_d, wrapping_sub, external, poll_delay_us, yield_timeout_hint_ns, TpmSst,
  counter_ticks_for_microseconds, Board,
}
use odp_secure_services.Tpm.Registers.{is_ok}
use odp_secure_services.Base.Options.{◌>>=◌}
use odp_secure_services.Ffa.Functions.Scheduling.{yield_exec, new_yield}
use odp_secure_services.Tpm.Sst.Fifo
use odp_secure_services.Base.{
  true, false, ◌^◌, ◌&&◌, ◌*◌, zero, ltb, ◌==◌, bit_or, leb, suc, err, if◌then◌else◌, bit_and, ◌+◌,
  some, none, ok, Bool, Option, Result, ℕ,
}

-- `Result::unwrap`.
abbrev pub unwrap {ℓ κ} : {E : Type ℓ} {A : Type κ} → Result E A → Option A
unwrap (ok a) = some a
unwrap (err e) = none

-- The code of a wait that gives no value.
abbrev pub status_of : {A : Type 0} → Result ErrorCode A → ErrorCode
status_of (ok a) = ErrorCode.ok
status_of (err e) = e

-- The next call, if the one before it succeeded.
unfoldable pub then_call :
    {W : Type 0} → (W → Option (W × ErrorCode)) → W × ErrorCode → Option (W × ErrorCode)
then_call next (w, status) = if is_ok status then next w else some (w, status)

unfoldable pub bits_match : ℕ → ℕ → ℕ → Bool
bits_match bit_set bit_clear reg_read =
    (bit_and reg_read bit_set == bit_set) && (bit_and reg_read bit_clear == 0)

module _ {W : Type 0} (b : Board W) where
  abbrev pub timeout_ticks : ℕ → ℕ
  timeout_ticks us = counter_ticks_for_microseconds b.frequency us

  -- The body of the loop of `delay_microseconds`, after its condition.
  unfoldable pub while_short : Bool → (W → Option W) → W → Option W
  while_short true next w = next w
  while_short false next w = some w

  -- The loop of `delay_microseconds`.
  unfoldable pub spin : ℕ → ℕ → ℕ → W → Option W
  unfolding while_short
  spin zero start ticks w = none
  spin (suc n) start ticks w =
      let (w', now) = b.counter w in
      while_short (ltb (wrapping_sub now start) ticks) (spin n start ticks) w'

  -- `Yield::new(YIELD_TIMEOUT_HINT_NS).exec().unwrap()`.
  unfoldable pub yield_now : W → Option W
  yield_now w =
      let (w', result) = yield_exec b.monitor w (new_yield yield_timeout_hint_ns) in
      unwrap result >>= λ _. some w'

  -- The end of a round: the timeout, or another round after a yield.
  unfoldable pub unless_expired :
      {A : Type 0}
      → Bool
      → (W → Option (W × Result ErrorCode A))
      → W
      → Option (W × Result ErrorCode A)
  unless_expired true next w = some (w, err ErrorCode.denied)
  unless_expired false next w = yield_now w >>= next

  module _ {A : Type 0} (attempt : W → W × Option A) where
    -- What follows an attempt: its value, or the test of the timeout.
    unfoldable pub after_attempt :
        ℕ
        → ℕ
        → (W → Option (W × Result ErrorCode A))
        → W × Option A
        → Option (W × Result ErrorCode A)
    unfolding unless_expired
    after_attempt start ticks next (w, some a) = some (w, ok a)
    after_attempt start ticks next (w, none) =
        let (w', now) = b.counter w in unless_expired (leb ticks (wrapping_sub now start)) next w'

    -- The loop that `wait_register_bits` and `fifo_read_burst_count` have.
    unfoldable pub poll_loop : ℕ → ℕ → ℕ → W → Option (W × Result ErrorCode A)
    unfolding after_attempt
    poll_loop zero start ticks w = none
    poll_loop (suc n) start ticks w =
        after_attempt start ticks (λ w'. poll_loop n start ticks w') (attempt w)

  -- The burst count is read in two bytes; zero is none.
  unfoldable pub read_burst : ℕ → W → W × Option ℕ
  read_burst address w =
      let (w', lo) = b.read_u8 w address in
      let (w'', hi) = b.read_u8 w' (address + 1) in
      let burst_count = bit_or (hi * 2 ^ 8) lo in
      (w'', if burst_count == 0 then none else some burst_count)

  module _ (sst : TpmSst) where
    -- A register is a word of a CRB, or a byte of a FIFO.
    unfoldable pub read_register : ℕ → W → W × ℕ
    read_register register w =
        if sst.is_crb_interface then b.read_u32 w register else b.read_u8 w register

    unfoldable pub check_register : ℕ → ℕ → ℕ → W → W × Option (Unit {0})
    unfolding read_register bits_match
    check_register register bit_set bit_clear w =
        let (w', reg_read) = read_register register w in
        (w', if bits_match bit_set bit_clear reg_read then some tt else none)

module _ {W : Type 0} (b : Board W) (fuel : ℕ) where
  unfoldable pub delay_microseconds : ℕ → W → Option W
  unfolding spin
  delay_microseconds us w =
      let (w', start) = b.counter w in spin b fuel start (timeout_ticks b us) w'

  -- The loop, after the delay and the start of the timeout.
  unfoldable pub poll : {A : Type 0} → (W → W × Option A) → ℕ → W → Option (W × Result ErrorCode A)
  unfolding poll_loop
  poll attempt timeout w = delay_microseconds poll_delay_us w >>= λ w'.
      let (w'', start) = b.counter w' in
      poll_loop b attempt fuel start (timeout_ticks b timeout) w''

  module _ (sst : TpmSst) where
    unfoldable pub fifo_read_burst_count : ℕ → W → Option (W × Result ErrorCode ℕ)
    fifo_read_burst_count locality w =
        poll (read_burst b (external sst locality Fifo.burst_count)) timeout_d w

    unfoldable pub wait_register_bits : ℕ → ℕ → ℕ → ℕ → W → Option (W × ErrorCode)
    wait_register_bits register bit_set bit_clear timeout w =
        poll (check_register b sst register bit_set bit_clear) timeout w >>= λ (w', result).
        some (w', status_of result)
