-- ===== src/Notify/Count.antt =====
-- How many mappings in use hold a notification id: in an entry, and in the whole table.
use odp_secure_services.Base.{
  ℕ, zero, suc, ◌+◌, ◌≤◌, ◌≡◌, refl, List, [], ◌∷◌, some, ◌==◌, ◌&&◌, if◌then◌else◌, get_elem?, set,
  replicate, arith, some_eq,
}
use odp_secure_services.Notify.Types.{
  NfyMapping, NfyEntry, empty_mapping, empty_mappings, empty_entry,
}

abbrev pub uses : ℕ → NfyMapping → ℕ
uses k m = if m.in_use && (m.id == k) then 1 else 0

unfoldable pub count_id : ℕ → List NfyMapping → ℕ
count_id k [] = 0
count_id k (m ∷ ms) = uses k m + count_id k ms

abbrev pub entry_uses : ℕ → NfyEntry → ℕ
entry_uses k e = if e.in_use then count_id k e.mappings else 0

unfoldable pub total : ℕ → List NfyEntry → ℕ
total k [] = 0
total k (e ∷ es) = entry_uses k e + total k es

pub count_id-set :
    (k : ℕ) (ms : List NfyMapping) (i : ℕ) {m : NfyMapping} (v : NfyMapping)
    → get_elem? ms i ≡ some m
    → count_id k (set ms i v) + uses k m ≡ count_id k ms + uses k v
unfolding count_id
count_id-set k [] i v h = ground arith
count_id-set k (x ∷ ms) zero {m} v h = let same : x ≡ m = some_eq h in rw same (omega arith)
count_id-set k (x ∷ ms) (suc i) v h = omega (arith, count_id-set k ms i v h)

pub total-set :
    (k : ℕ) (es : List NfyEntry) (i : ℕ) {e : NfyEntry} (v : NfyEntry)
    → get_elem? es i ≡ some e
    → total k (set es i v) + entry_uses k e ≡ total k es + entry_uses k v
unfolding total
total-set k [] i v h = ground arith
total-set k (x ∷ es) zero {e} v h = let same : x ≡ e = some_eq h in rw same (omega arith)
total-set k (x ∷ es) (suc i) v h = omega (arith, total-set k es i v h)

pub entry_uses-le-total :
    (k : ℕ) (es : List NfyEntry) (i : ℕ) {e : NfyEntry}
    → get_elem? es i ≡ some e
    → entry_uses k e ≤ total k es
unfolding total
entry_uses-le-total k [] i h = ground arith
entry_uses-le-total k (x ∷ es) zero {e} h = let same : x ≡ e = some_eq h in rw same (omega arith)
entry_uses-le-total k (x ∷ es) (suc i) h = omega (arith, entry_uses-le-total k es i h)

count_id-replicate : (k n : ℕ) → count_id k (replicate n empty_mapping) ≡ 0
unfolding count_id
count_id-replicate k zero = refl
count_id-replicate k (suc n) = omega (arith, count_id-replicate k n)

-- A fresh entry holds no id.
pub count_id-empty : (k : ℕ) → count_id k empty_mappings ≡ 0
count_id-empty k = count_id-replicate k 64

pub total-replicate : (k n : ℕ) → total k (replicate n empty_entry) ≡ 0
unfolding total
total-replicate k zero = refl
total-replicate k (suc n) = omega (arith, total-replicate k n)
