-- ===== src/Base/Bytes.antt =====
-- Little-endian bytes: `to_le_bytes` and `from_le_bytes` at any width, and the byte swap.
use mathlib.Core.List.{reverse, reverse_aux, reverse-reverse}
use native.Mathlib.Nat.{pow-suc}
use odp_secure_services.Base.Lists.{length, All, All-append, length-append}
use Prim.Native.Nat.{ℕ, zero, suc, ◌+◌, ◌*◌, ◌/◌, ◌%◌, ◌^◌, ◌<◌}
use mathlib.Core.Path.{◌≡◌, refl, ap, ◌∙◌}
use mathlib.Core.List.{List, [], ◌∷◌, ◌++◌}
use native.Mathlib.Omega.{arith}

abbrev pub IsByte : ℕ → Type 0
IsByte b = b < 256

abbrev pub le_bytes : ℕ → ℕ → List ℕ
le_bytes zero v = []
le_bytes (suc n) v = (v % 256) ∷ le_bytes n (v / 256)

abbrev pub from_le_bytes : List ℕ → ℕ
from_le_bytes [] = 0
from_le_bytes (b ∷ bs) = b + 256 * from_le_bytes bs

pub length-le_bytes : (n v : ℕ) → length (le_bytes n v) ≡ n
length-le_bytes zero v = refl
length-le_bytes (suc n) v = ap suc (length-le_bytes n (v / 256))

pub le_bytes-IsByte : (n v : ℕ) → All IsByte (le_bytes n v)
le_bytes-IsByte zero v = tt
le_bytes-IsByte (suc n) v = (omega arith, le_bytes-IsByte n (v / 256))

-- `n` bytes hold a number below `256 ^ n`.
pub from_le_bytes-le_bytes : (n v : ℕ) → v < 256 ^ n → from_le_bytes (le_bytes n v) ≡ v
from_le_bytes-le_bytes zero v h = omega arith
from_le_bytes-le_bytes (suc n) v h =
    omega (arith, pow-suc 256 n, from_le_bytes-le_bytes n (v / 256) (omega (arith, pow-suc 256 n)))

pub from_le_bytes-lt : (bs : List ℕ) → All IsByte bs → from_le_bytes bs < 256 ^ length bs
from_le_bytes-lt [] k = omega arith
from_le_bytes-lt (b ∷ bs) k = omega (arith, pow-suc 256 (length bs), from_le_bytes-lt bs k.1, k.0)

-- Bytes are read back from the number that they make.
pub le_bytes-from_le_bytes :
    (bs : List ℕ) → All IsByte bs → le_bytes (length bs) (from_le_bytes bs) ≡ bs
le_bytes-from_le_bytes [] k = refl
le_bytes-from_le_bytes (b ∷ bs) k =
    let byte : b < 256 = k.0 in
    let rest : (b + 256 * from_le_bytes bs) / 256 ≡ from_le_bytes bs = omega arith in
    let low : (b + 256 * from_le_bytes bs) % 256 ≡ b = omega arith in
    rw (rest, low, le_bytes-from_le_bytes bs k.1)

length-reverse_aux : (xs ys : List ℕ) → length (reverse_aux xs ys) ≡ length xs + length ys
length-reverse_aux [] ys = omega arith
length-reverse_aux (x ∷ xs) ys = omega (arith, length-reverse_aux xs (x ∷ ys))

reverse_aux-IsByte :
    (xs ys : List ℕ) → All IsByte xs → All IsByte ys → All IsByte (reverse_aux xs ys)
reverse_aux-IsByte [] ys h k = k
reverse_aux-IsByte (x ∷ xs) ys h k = reverse_aux-IsByte xs (x ∷ ys) h.1 (h.0, k)

-- `u64::to_be` and `u64::from_be` on a little-endian machine.
unfoldable pub swap_bytes : ℕ → ℕ
swap_bytes v = from_le_bytes (reverse (le_bytes 8 v))

-- Swapping twice gives the word back.
pub swap_bytes-swap_bytes : (v : ℕ) → v < 2 ^ 64 → swap_bytes (swap_bytes v) ≡ v
unfolding swap_bytes
swap_bytes-swap_bytes v h =
    let back : le_bytes 8 (from_le_bytes (reverse (le_bytes 8 v))) ≡ reverse (le_bytes 8 v) =
      le_bytes-from_le_bytes (reverse (le_bytes 8 v))
        (reverse_aux-IsByte (le_bytes 8 v) [] (le_bytes-IsByte 8 v) tt) in
    ap (λ l. from_le_bytes (reverse l)) back
    ∙ (ap from_le_bytes (reverse-reverse (le_bytes 8 v)) ∙ from_le_bytes-le_bytes 8 v h)

pub swap_bytes-lt : (v : ℕ) → swap_bytes v < 2 ^ 64
unfolding swap_bytes
swap_bytes-lt v =
    from_le_bytes-lt (reverse (le_bytes 8 v))
      (reverse_aux-IsByte (le_bytes 8 v) [] (le_bytes-IsByte 8 v) tt)

-- The bytes of a sequence of 64-bit registers.
abbrev pub register_bytes : List ℕ → List ℕ
register_bytes [] = []
register_bytes (r ∷ rs) = le_bytes 8 r ++ register_bytes rs

pub length-register_bytes : (rs : List ℕ) → length (register_bytes rs) ≡ length rs * 8
length-register_bytes [] = refl
length-register_bytes (r ∷ rs) = omega (
  arith,
  length-append (le_bytes 8 r) (register_bytes rs),
  length-le_bytes 8 r,
  length-register_bytes rs,
)

pub register_bytes-IsByte : (rs : List ℕ) → All IsByte (register_bytes rs)
register_bytes-IsByte [] = tt
register_bytes-IsByte (r ∷ rs) =
    All-append IsByte (le_bytes 8 r) (register_bytes rs) (le_bytes-IsByte 8 r)
      (register_bytes-IsByte rs)
