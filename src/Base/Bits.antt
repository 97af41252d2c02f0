-- ===== src/Base/Bits.antt =====
-- The bits of a machine word: what `|`, `&` and `!` of the source do to each of them.
use Prim.Native.Nat.{
  ℕ, zero, suc, ◌+◌, ◌-◌, ◌*◌, ◌/◌, ◌%◌, ◌^◌, ◌≤◌, ◌<◌, min, max, bit_and, bit_or, bitwise, digits,
  bit_and-bitwise, bit_or-bitwise,
}
use mathlib.Core.Path.{◌≡◌, refl, ap, ◌∙◌}
use native.Mathlib.Nat.{
  pow-suc, one-le-pow, div-add-mod, add-mul-mod_self_left, mod-eq_of_lt, mod-lt,
}
use native.Mathlib.Omega.{arith}
use odp_secure_services.Base.Tests.{◌==◌, if◌then◌else◌}

-- Bit `i` of `x`, as 0 or 1.
abbrev pub test_bit : ℕ → ℕ → ℕ
test_bit x zero = x % 2
test_bit x (suc i) = test_bit (x / 2) i

-- `!x` of a `w`-bit word.
abbrev pub complement : ℕ → ℕ → ℕ
complement w x = 2 ^ w - 1 - x

module _ (z : ℕ → ℕ) (f : ℕ → ℕ → ℕ) where
  digits_enough : (n m a b : ℕ) → a ≤ n → a ≤ m → digits z f n a b ≡ digits z f m a b
  digits_enough zero zero zero b p q = refl
  digits_enough zero (suc m) zero b p q = refl
  digits_enough (suc n) zero zero b p q = refl
  digits_enough (suc n) (suc m) zero b p q = refl
  digits_enough zero m (suc a) b p q = absurd (omega arith)
  digits_enough (suc n) zero (suc a) b p q = absurd (omega arith)
  digits_enough (suc n) (suc m) (suc a) b p q =
      rw (digits_enough n m (suc a / 2) (b / 2) (omega arith) (omega arith))

  bitwise_lowest :
      (a b : ℕ)
      → bitwise z f (suc a) b ≡ bitwise z f (suc a / 2) (b / 2) * 2 + f (suc a % 2) (b % 2)
  bitwise_lowest a b =
      omega (arith, digits_enough a (suc a / 2) (suc a / 2) (b / 2) (omega arith) (omega arith))

-- One binary digit at a time.
pub bit_or_lowest : (a b : ℕ) → bit_or a b ≡ bit_or (a / 2) (b / 2) * 2 + max (a % 2) (b % 2)
bit_or_lowest zero b = simp bit_or-bitwise (omega arith)
bit_or_lowest (suc a) b = simp bit_or-bitwise (bitwise_lowest (λ y. y) max a b)

pub bit_and_lowest : (a b : ℕ) → bit_and a b ≡ bit_and (a / 2) (b / 2) * 2 + min (a % 2) (b % 2)
bit_and_lowest zero b = simp bit_and-bitwise (omega arith)
bit_and_lowest (suc a) b = simp bit_and-bitwise (bitwise_lowest (λ y. 0) min a b)

pub test_bit-or : (a b i : ℕ) → test_bit (bit_or a b) i ≡ max (test_bit a i) (test_bit b i)
test_bit-or a b zero = omega (arith, bit_or_lowest a b)
test_bit-or a b (suc i) =
    let half : bit_or a b / 2 ≡ bit_or (a / 2) (b / 2) = omega (arith, bit_or_lowest a b) in
    rw half (test_bit-or (a / 2) (b / 2) i)

pub test_bit-and : (a b i : ℕ) → test_bit (bit_and a b) i ≡ min (test_bit a i) (test_bit b i)
test_bit-and a b zero = omega (arith, bit_and_lowest a b)
test_bit-and a b (suc i) =
    let half : bit_and a b / 2 ≡ bit_and (a / 2) (b / 2) = omega (arith, bit_and_lowest a b) in
    rw half (test_bit-and (a / 2) (b / 2) i)

pub test_bit_le : (x i : ℕ) → test_bit x i ≤ 1
test_bit_le x zero = omega arith
test_bit_le x (suc i) = test_bit_le (x / 2) i

pub test_bit-zero : (i : ℕ) → test_bit 0 i ≡ 0
test_bit-zero zero = refl
test_bit-zero (suc i) = test_bit-zero i

-- `1 << k` has the one bit `k`.
pub test_bit-pow : (k i : ℕ) → test_bit (2 ^ k) i ≡ (if k == i then 1 else 0)
test_bit-pow zero zero = refl
test_bit-pow zero (suc i) = ground (arith, test_bit-zero i)
test_bit-pow (suc k) zero = ground (arith, pow-suc 2 k)
test_bit-pow (suc k) (suc i) =
    let half : 2 ^ suc k / 2 ≡ 2 ^ k = omega (arith, pow-suc 2 k) in
    rw half (ground (arith, test_bit-pow k i))

-- `!x` flips every bit of the word.
pub test_bit-complement :
    (w x i : ℕ) → x < 2 ^ w → i < w → test_bit (complement w x) i ≡ 1 - test_bit x i
test_bit-complement zero x i h k = elim k [ ]
test_bit-complement (suc w) x zero h k = omega (arith, pow-suc 2 w)
test_bit-complement (suc w) x (suc i) h k =
    let half : complement (suc w) x / 2 ≡ complement w (x / 2) = omega (arith, pow-suc 2 w) in
    rw half (test_bit-complement w (x / 2) i (omega (arith, pow-suc 2 w)) (omega arith))

bit_and_zero : (b : ℕ) → bit_and 0 b ≡ 0
bit_and_zero b = bit_and-bitwise 0 b

bit_and_none : (n a : ℕ) → a ≤ n → bit_and a 0 ≡ 0
bit_and_none n zero h = refl
bit_and_none zero (suc a) h = absurd (omega arith)
bit_and_none (suc n) (suc a) h =
    omega (arith, bit_and_lowest (suc a) 0, bit_and_none n (suc a / 2) (omega arith))

-- `x & (1 << k)` is nonzero exactly if bit `k` is set.
pub bit_and-pow : (x k : ℕ) → bit_and x (2 ^ k) ≡ test_bit x k * 2 ^ k
bit_and-pow x zero = omega (arith, bit_and_lowest x 1, bit_and_none (x / 2) (x / 2) (omega arith))
bit_and-pow x (suc k) =
    let half : 2 ^ suc k / 2 ≡ 2 ^ k = omega (arith, pow-suc 2 k) in
    let ih : bit_and (x / 2) (2 ^ suc k / 2) ≡ test_bit (x / 2) k * 2 ^ k =
      rw half (bit_and-pow (x / 2) k) in
    omega (
      arith,
      bit_and_lowest x (2 ^ suc k),
      ih,
      pow-suc 2 k,
      ap (λ (t : ℕ). test_bit (x / 2) k * t) (pow-suc 2 k),
    )

-- No bit above the width.
pub bit_or-lt : (w a b : ℕ) → a < 2 ^ w → b < 2 ^ w → bit_or a b < 2 ^ w
bit_or-lt zero zero zero h k = omega arith
bit_or-lt zero (suc a) b h k = absurd (omega arith)
bit_or-lt zero zero (suc b) h k = absurd (omega arith)
bit_or-lt (suc w) a b h k = omega (
  arith,
  pow-suc 2 w,
  bit_or_lowest a b,
  bit_or-lt w (a / 2) (b / 2) (omega (arith, pow-suc 2 w)) (omega (arith, pow-suc 2 w)),
)

pub bit_and-le : (n a b : ℕ) → a ≤ n → bit_and a b ≤ a
bit_and-le n zero b h = omega (arith, bit_and_zero b)
bit_and-le zero (suc a) b h = absurd (omega arith)
bit_and-le (suc n) (suc a) b h =
    omega (arith, bit_and_lowest (suc a) b, bit_and-le n (suc a / 2) (b / 2) (omega arith))

pub bit_or-zero_right : (n a : ℕ) → a ≤ n → bit_or a 0 ≡ a
bit_or-zero_right n zero h = refl
bit_or-zero_right zero (suc a) h = absurd (omega arith)
bit_or-zero_right (suc n) (suc a) h =
    omega (arith, bit_or_lowest (suc a) 0, bit_or-zero_right n (suc a / 2) (omega arith))

-- `(h << k) | l` is a sum where `l` fits in `k` bits.
pub bit_or-shift : (k h l : ℕ) → l < 2 ^ k → bit_or (h * 2 ^ k) l ≡ h * 2 ^ k + l
bit_or-shift zero h l fits =
    let none_left : l ≡ 0 = omega arith in
    rw none_left (ground (arith, bit_or-zero_right (h * 1) (h * 1)))
bit_or-shift (suc k) h l fits =
    let twice : h * 2 ^ suc k ≡ 2 * (h * 2 ^ k) =
      omega (arith, ap (λ (t : ℕ). h * t) (pow-suc 2 k)) in
    let half : h * 2 ^ suc k / 2 ≡ h * 2 ^ k = omega arith in
    let ih : bit_or (h * 2 ^ suc k / 2) (l / 2) ≡ h * 2 ^ k + l / 2 =
      rw half (bit_or-shift k h (l / 2) (omega (arith, pow-suc 2 k))) in
    omega (arith, bit_or_lowest (h * 2 ^ suc k) l, ih)

mod_half : (k a : ℕ) → a % 2 ^ suc k ≡ 2 * (a / 2 % 2 ^ k) + a % 2
mod_half k a =
    let low = 2 * (a / 2 % 2 ^ k) + a % 2 in
    let whole : a ≡ low + 2 ^ suc k * (a / 2 / 2 ^ k) =
      omega
        (arith, div-add-mod (a / 2) (2 ^ k), ap (λ (t : ℕ). t * (a / 2 / 2 ^ k)) (pow-suc 2 k)) in
    let fits : low < 2 ^ suc k =
      omega (arith, pow-suc 2 k, mod-lt (a / 2) {m = 2 ^ k} (one-le-pow k 2 (omega arith))) in
    ap (λ (t : ℕ). t % 2 ^ suc k) whole
    ∙ (add-mul-mod_self_left low (2 ^ suc k) (a / 2 / 2 ^ k) ∙ mod-eq_of_lt fits)

-- `a & (2 ^ k - 1)` is the remainder.
pub bit_and-mask : (k a : ℕ) → bit_and a (2 ^ k - 1) ≡ a % 2 ^ k
bit_and-mask zero a = omega (arith, bit_and_none a a (omega arith))
bit_and-mask (suc k) a =
    let half : (2 ^ suc k - 1) / 2 ≡ 2 ^ k - 1 = omega (arith, pow-suc 2 k) in
    let ih : bit_and (a / 2) ((2 ^ suc k - 1) / 2) ≡ a / 2 % 2 ^ k =
      rw half (bit_and-mask k (a / 2)) in
    let split : a % 2 ^ suc k ≡ 2 * (a / 2 % 2 ^ k) + a % 2 = mod_half k a in
    omega (arith, bit_and_lowest a (2 ^ suc k - 1), ih, pow-suc 2 k, one-le-pow k 2)
