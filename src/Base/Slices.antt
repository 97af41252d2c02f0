-- ===== src/Base/Slices.antt =====
-- Prefixes, suffixes and runs of one element.
use Prim.Native.Nat.{ℕ, zero, suc, ◌+◌, ◌≤◌, ◌<◌}
use mathlib.Core.Path.{◌≡◌, refl, ap}
use mathlib.Core.Logic.{◌⊎◌}
use mathlib.Core.List.{List, [], ◌∷◌, ◌++◌}
use native.Mathlib.Omega.{arith}
use odp_secure_services.Base.Lists.{length, take, drop, replicate}

pub take_all : {A : Type 0} (n : ℕ) (xs : List A) → length xs ≤ n → take n xs ≡ xs
take_all zero [] h = refl
take_all zero (x ∷ xs) h = absurd (omega arith)
take_all (suc n) [] h = refl
take_all (suc n) (x ∷ xs) h = ap (λ l. x ∷ l) (take_all n xs (omega arith))

pub drop_all : {A : Type 0} (n : ℕ) (xs : List A) → length xs ≤ n → drop n xs ≡ []
drop_all zero [] h = refl
drop_all zero (x ∷ xs) h = absurd (omega arith)
drop_all (suc n) [] h = refl
drop_all (suc n) (x ∷ xs) h = drop_all n xs (omega arith)

pub replicate-append :
    {A : Type 0} (n m k : ℕ) (a : A) → n + m ≡ k → replicate n a ++ replicate m a ≡ replicate k a
replicate-append zero m k a h = ap (λ (j : ℕ). replicate j a) (omega arith)
replicate-append (suc n) m zero a h = absurd (omega arith)
replicate-append (suc n) m (suc k) a h = ap (λ l. a ∷ l) (replicate-append n m k a (omega arith))

pub le_cases : (a b : ℕ) → (a ≤ b) ⊎ (b < a)
le_cases a b = grind arith
