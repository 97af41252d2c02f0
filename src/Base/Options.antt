-- ===== src/Base/Options.antt =====
-- Code that can panic (an index out of range, an `unwrap` of nothing): `none` is the panic.
use mathlib.Core.Path.{◌≡◌, refl}
use mathlib.Core.Option.{Option, none, some}

infixl 5 ◌>>=◌ ◌>>◌
abbrev pub ◌>>=◌ {ℓ κ} : {A : Type ℓ} {B : Type κ} → Option A → (A → Option B) → Option B
none >>= f = none
some a >>= f = f a

abbrev pub ◌>>◌ {ℓ κ} : {A : Type ℓ} {B : Type κ} → Option A → Option B → Option B
m >> k = m >>= λ _. k

-- The code does not panic, and what it returns satisfies `P`.
pub data Returns {ℓ κ} {A : Type ℓ} (P : A → Type κ) : Option A → Type (ℓ ⊔ κ) where
  returns : (a : A) → P a → Returns P (some a)

module _ {ℓ κ} {A : Type ℓ} {P : A → Type κ} where
  pub Returns->>= {ℓ' κ'} :
      {B : Type ℓ'} {Q : B → Type κ'} {o : Option A} (f : A → Option B)
      → Returns P o
      → ((a : A) → P a → Returns Q (f a))
      → Returns Q (o >>= f)
  Returns->>= f (returns a p) k = k a p

  pub Returns-value : {o : Option A} → Returns P o → (a : A) × (o ≡ some a) × P a
  Returns-value (returns a p) = (a, refl, p)

  pub Returns-mono {κ'} :
      {Q : A → Type κ'} {o : Option A} → Returns P o → ((a : A) → P a → Q a) → Returns Q o
  Returns-mono (returns a p) k = returns a (k a p)

  -- The value is the one that the code returns.
  pub Returns-self : {o : Option A} → Returns P o → Returns (λ a. P a × (o ≡ some a)) o
  Returns-self (returns a p) = returns a (p, refl)
