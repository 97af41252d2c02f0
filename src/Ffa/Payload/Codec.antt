-- ===== src/Ffa/Payload/Codec.antt =====
-- What `from_iter` builds and what the accessors read back.
use odp_secure_services.Base.{
  Option, if_split, leb, if◌then◌else◌, ℕ, zero, suc, ◌+◌, ◌-◌, ◌*◌, ◌^◌, ◌≤◌, ◌<◌, ◌≡◌, refl, ap,
  ap₂, ◌∙◌, List, [], ◌∷◌, ◌++◌, none, some, length, get_elem?, set, take, drop, replicate, All,
  arith, length-append, length-take, length-drop, drop-append, All-append, All-replicate, All-take,
  All-drop, take-append-drop, get_elem?-eq_lt,
}
use odp_secure_services.Base.Options.{◌>>=◌}
use odp_secure_services.Base.Bytes.{
  IsByte, le_bytes, from_le_bytes, register_bytes, length-le_bytes, length-register_bytes,
  from_le_bytes-le_bytes, le_bytes-from_le_bytes,
}
use odp_secure_services.Ffa.Payload.{
  DirectMessagePayload, IsPayload, payload_len, store_from, from_iter, register_at, chunks,
}
use mathlib.Core.List.{append-nil, append_assoc}

abbrev zeros : List ℕ
zeros = replicate payload_len 0

set_at_length :
    (pre : List ℕ) (x y : ℕ) (rest : List ℕ)
    → set (pre ++ x ∷ rest) (length pre) y ≡ (pre ++ y ∷ []) ++ rest
set_at_length [] x y rest = refl
set_at_length (p ∷ pre) x y rest = ap (λ l. p ∷ l) (set_at_length pre x y rest)

get_at_length :
    (pre : List ℕ) (x : ℕ) (rest : List ℕ) → get_elem? (pre ++ x ∷ rest) (length pre) ≡ some x
get_at_length [] x rest = refl
get_at_length (p ∷ pre) x rest = get_at_length pre x rest

get_past_length : (pre : List ℕ) → get_elem? pre (length pre) ≡ none
get_past_length [] = refl
get_past_length (p ∷ pre) = get_past_length pre

store_from-fits :
    (bs pre rest : List ℕ)
    → length bs ≤ length rest
    → store_from (pre ++ rest) (length pre) bs ≡ some (pre ++ (bs ++ drop (length bs) rest))
unfolding store_from
store_from-fits [] pre rest h = refl
store_from-fits (b ∷ bs) pre [] h = absurd (omega arith)
store_from-fits (b ∷ bs) pre (x ∷ rest) h =
    let len : suc (length pre) ≡ length (pre ++ b ∷ []) =
      omega (arith, length-append pre (b ∷ [])) in
    rw (get_at_length pre x rest, store_from)
      (rw (set_at_length pre x b rest, len)
        (store_from-fits bs (pre ++ b ∷ []) rest (omega arith)
          ∙ ap some (append_assoc pre (b ∷ []) (bs ++ drop (length bs) rest))))

store_from-overflow :
    (bs pre rest : List ℕ)
    → length rest < length bs
    → store_from (pre ++ rest) (length pre) bs ≡ none
unfolding store_from
store_from-overflow [] pre rest h = absurd (omega arith)
store_from-overflow (b ∷ bs) pre [] h = rw (append-nil pre) (rw (get_past_length pre, store_from))
store_from-overflow (b ∷ bs) pre (x ∷ rest) h =
    let len : suc (length pre) ≡ length (pre ++ b ∷ []) =
      omega (arith, length-append pre (b ∷ [])) in
    rw (get_at_length pre x rest, store_from)
      (rw (set_at_length pre x b rest, len)
        (store_from-overflow bs (pre ++ b ∷ []) rest (omega arith)))

-- Up to 112 bytes are stored in front and the rest of the payload is zero.
pub from_iter-fits :
    (bs : List ℕ) → length bs ≤ payload_len → from_iter bs ≡ some (bs ++ drop (length bs) zeros)
unfolding from_iter
from_iter-fits bs h = store_from-fits bs [] zeros h

-- More than 112 bytes make `from_iter` panic.
from_iter-overflow : (bs : List ℕ) → payload_len < length bs → from_iter bs ≡ none
unfolding from_iter
from_iter-overflow bs h = store_from-overflow bs [] zeros h

-- Up to 112 bytes are stored in front of a payload that is zero behind them; more make `from_iter`
-- panic.
pub from_iter-fills :
    (bs : List ℕ)
    → from_iter bs
      ≡ (if leb (length bs) payload_len then some (bs ++ drop (length bs) zeros) else none)
from_iter-fills bs =
    if_split (λ (r : Option (List ℕ)). from_iter bs ≡ r) (leb (length bs) payload_len)
      (λ t. from_iter-fits bs (ground (arith, t))) (λ t. from_iter-overflow bs (ground (arith, t)))

pub from_iter-IsPayload :
    (bs : List ℕ)
    → All IsByte bs
    → length bs ≤ payload_len
    → IsPayload (bs ++ drop (length bs) zeros)
from_iter-IsPayload bs k h = record {
  len = omega (arith, length-append bs (drop (length bs) zeros), length-drop (length bs) zeros);
  bytes =
      All-append IsByte bs _ k
        (All-drop IsByte (length bs) zeros (All-replicate IsByte payload_len 0 (omega arith)));
}

word_at :
    (rs z : List ℕ) (i : ℕ) {r : ℕ}
    → get_elem? rs i ≡ some r
    → r < 2 ^ 64
    → from_le_bytes (take 8 (drop (i * 8) (register_bytes rs ++ z))) ≡ r
word_at [] z i e h = ground arith
word_at (x ∷ rs) z zero {r} e h = let same : x ≡ r = cc in rw same (from_le_bytes-le_bytes 8 r h)
word_at (x ∷ rs) z (suc i) e h =
    let skip : suc i * 8 ≡ length (le_bytes 8 x) + i * 8 = omega (arith, length-le_bytes 8 x) in
    let later : drop (suc i * 8) ((le_bytes 8 x ++ register_bytes rs) ++ z)
        ≡ drop (i * 8) (register_bytes rs ++ z) =
      rw (skip, append_assoc (le_bytes 8 x) (register_bytes rs) z)
        (drop-append (le_bytes 8 x) (register_bytes rs ++ z) (i * 8)) in
    ap (λ l. from_le_bytes (take 8 l)) later ∙ word_at rs z i e h

-- A read in range is the 8 bytes there.
pub register_at-in_range :
    (p : DirectMessagePayload) (i : ℕ)
    → i * 8 + 8 ≤ length p
    → register_at p i ≡ some (from_le_bytes (take 8 (drop (i * 8) p)))
unfolding register_at
register_at-in_range p i h =
    let width : i * 8 + 8 - i * 8 ≡ 8 = omega arith in rw width (ground arith)

-- Of up to 14 registers that are stored in a payload, each 64-bit one is read back at its index.
pub register_at-from_iter :
    (rs : List ℕ) (i : ℕ) {r : ℕ}
    → length rs ≤ 14
    → get_elem? rs i ≡ some r
    → r < 2 ^ 64
    → (from_iter (register_bytes rs) >>= λ p. register_at p i) ≡ some r
register_at-from_iter rs i h e w =
    let len = length-register_bytes rs in
    let z = drop (length (register_bytes rs)) zeros in
    let p = register_bytes rs ++ z in
    let index : i < length rs = get_elem?-eq_lt rs i e in
    let total : length p ≡ length (register_bytes rs) + (112 - length (register_bytes rs)) = omega (
      arith,
      length-append (register_bytes rs) z,
      length-drop {A = ℕ} (length (register_bytes rs)) zeros,
    ) in
    rw (from_iter-fits (register_bytes rs) (omega (arith, len)))
      (register_at-in_range p i (omega (arith, len)) ∙ ap some (word_at rs z i e w))

-- The registers of a payload are its bytes, in order.
pub register_bytes-chunks :
    (n : ℕ) (bs : List ℕ) → length bs ≡ n * 8 → All IsByte bs → register_bytes (chunks n bs) ≡ bs
register_bytes-chunks zero [] h k = refl
register_bytes-chunks zero (b ∷ bs) h k = absurd (omega arith)
register_bytes-chunks (suc n) bs h k =
    let eight : length (take 8 bs) ≡ 8 = length-take 8 bs (omega arith) in
    let word : le_bytes 8 (from_le_bytes (take 8 bs)) ≡ take 8 bs =
      rw eight at (le_bytes-from_le_bytes (take 8 bs) (All-take IsByte 8 bs k)) in
    let rest : register_bytes (chunks n (drop 8 bs)) ≡ drop 8 bs =
      register_bytes-chunks n (drop 8 bs) (omega (arith, length-drop 8 bs))
        (All-drop IsByte 8 bs k) in
    ap₂ ◌++◌ word rest ∙ take-append-drop 8 bs

pub length-chunks : (n : ℕ) (bs : List ℕ) → length (chunks n bs) ≡ n
length-chunks zero bs = refl
length-chunks (suc n) bs = ap suc (length-chunks n (drop 8 bs))
