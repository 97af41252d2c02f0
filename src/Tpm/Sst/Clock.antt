-- ===== src/Tpm/Sst/Clock.antt =====
-- tpm_sst.rs: what is assumed of the counter, the accesses and the yields, and of the fuel.
use odp_secure_services.Tpm.Sst.Poll.{timeout_ticks}
use odp_secure_services.Ffa.Functions.Scheduling.{new_yield, yield_exec}
use odp_secure_services.Tpm.Sst.Board.{timeout_max, Board}
use odp_secure_services.Base.{ok, ◌≤◌, ◌*◌, ◌<◌, ◌+◌, ◌^◌, ◌%◌, ◌≡◌, ℕ}

-- The time of a world is its counter without the wrap-around. Every access takes at most `gap`
-- ticks, and the counter moves on between two readings of it.
pub record Clock {W : Type 0} (b : Board W) (gap : ℕ) : Type 0 where
  pub time : W → ℕ
  pub counter_value : (w : W) → (b.counter w).1 ≡ time (b.counter w).0 % 2 ^ 64
  pub counter_moves : (w : W) → time w < time (b.counter w).0
  pub counter_gap : (w : W) → time (b.counter w).0 ≤ time w + gap
  pub read_u8_keeps : (w : W) (a : ℕ) → time w ≤ time (b.read_u8 w a).0
  pub read_u8_gap : (w : W) (a : ℕ) → time (b.read_u8 w a).0 ≤ time w + gap
  pub read_u32_keeps : (w : W) (a : ℕ) → time w ≤ time (b.read_u32 w a).0
  pub read_u32_gap : (w : W) (a : ℕ) → time (b.read_u32 w a).0 ≤ time w + gap
  pub yield_ok : (w : W) → (yield_exec b.monitor w (new_yield 0)).1 ≡ ok tt
  pub yield_keeps : (w : W) → time w ≤ time (yield_exec b.monitor w (new_yield 0)).0
  pub yield_gap : (w : W) → time (yield_exec b.monitor w (new_yield 0)).0 ≤ time w + gap

-- What the accesses that only wait leave as it is.
pub record Quiet {W : Type 0} (b : Board W) (P : W → Type 0) : Type 0 where
  pub counter_quiet : (w : W) → P w → P (b.counter w).0
  pub read_u8_quiet : (w : W) (a : ℕ) → P w → P (b.read_u8 w a).0
  pub read_u32_quiet : (w : W) (a : ℕ) → P w → P (b.read_u32 w a).0
  pub yield_quiet : (w : W) → P w → P (yield_exec b.monitor w (new_yield 0)).0

-- They keep what says nothing.
pub unit-Quiet : {W : Type 0} (b : Board W) → Quiet b (λ w. Unit {0})
unit-Quiet b = record {
  counter_quiet = λ w p. tt;
  read_u8_quiet = λ w a p. tt;
  read_u32_quiet = λ w a p. tt;
  yield_quiet = λ w p. tt;
}

-- The fuel is more than the ticks of the longest timeout, and no wait outlasts the counter.
pub record IsCovered {W : Type 0} (b : Board W) (gap fuel : ℕ) : Type 0 where
  pub fits : timeout_ticks b timeout_max + 4 * gap < 2 ^ 64
  pub enough : timeout_ticks b timeout_max < fuel
