-- ===== src/Base/Results.antt =====
-- Chains of fallible steps: `?` on a `Result`.
use odp_secure_services.Base.Tests.{Result, ok, err}

infixl 5 ◌>>=◌
abbrev pub ◌>>=◌ {ℓ κ ℓ'} :
    {E : Type ℓ} {A : Type κ} {B : Type ℓ'} → Result E A → (A → Result E B) → Result E B
ok a >>= f = f a
err e >>= f = err e

-- `Result::map_err`.
abbrev pub map_err {ℓ κ ℓ'} :
    {E : Type ℓ} {F : Type κ} {A : Type ℓ'} → (E → F) → Result E A → Result F A
map_err f (ok a) = ok a
map_err f (err e) = err (f e)

-- `Result::unwrap_or`.
abbrev pub unwrap_or {ℓ κ} : {E : Type ℓ} {A : Type κ} → Result E A → A → A
unwrap_or (ok a) d = a
unwrap_or (err e) d = d

-- A value that is returned satisfies `P`.
abbrev pub Yields {ℓ κ ℓ'} : {E : Type ℓ} {A : Type κ} → (A → Type ℓ') → Result E A → Type ℓ'
Yields P (ok a) = P a
Yields P (err e) = Unit

pub Yields->>= {ℓ κ ℓ' κ' m} :
    {E : Type ℓ} {A : Type κ} {B : Type ℓ'} (P : A → Type κ') (Q : B → Type m) (r : Result E A)
    (f : A → Result E B)
    → Yields P r
    → ((a : A) → P a → Yields Q (f a))
    → Yields Q (r >>= f)
Yields->>= P Q (ok a) f p q = q a p
Yields->>= P Q (err e) f p q = tt

pub Yields-map_err {ℓ κ ℓ' κ'} :
    {E : Type ℓ} {F : Type κ} {A : Type ℓ'} (P : A → Type κ') (f : E → F) (r : Result E A)
    → Yields P r
    → Yields P (map_err f r)
Yields-map_err P f (ok a) p = p
Yields-map_err P f (err e) p = tt

-- `Result::map`.
abbrev pub map_ok {ℓ κ ℓ'} :
    {E : Type ℓ} {A : Type κ} {B : Type ℓ'} → (A → B) → Result E A → Result E B
map_ok f (ok a) = ok (f a)
map_ok f (err e) = err e
