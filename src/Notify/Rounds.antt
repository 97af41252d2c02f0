-- ===== src/Notify/Rounds.antt =====
-- One round of each loop over the mappings: what a round that succeeds has done, and the rule by
-- which a property kept by every round is kept by the loop.
use odp_secure_services.Base.{
  ℕ, suc, ◌%◌, ◌^◌, ◌<◌, ◌≡◌, refl, inl, inr, bit_and, bit_or, List, [], ◌∷◌, true, false, Option,
  none, some, Result, ok, err, get_elem?, set, arith, Option-cases, Result-cases, Bool-cases,
  some_eq, sym,
}
use odp_secure_services.Base.Bits.{complement}
use odp_secure_services.Notify.Types.{NotifyTuple, NotifyType, NfyMapping, empty_mapping}
use odp_secure_services.Notify.Table.{
  find_cookie, claim, register_one, register_loop, unregister_one, unregister_loop,
}
use mathlib.Core.Path.{subst₂}

-- A mapping is claimed in a free slot.
pub claim_view :
    (new : NfyMapping) (ms : List NfyMapping) {ms' : List NfyMapping}
    → claim new ms ≡ some ms'
    → (i : ℕ) × (m : NfyMapping) × (get_elem? ms i ≡ some m)
      × (m.in_use ≡ false)
      × (ms' ≡ set ms i new)
unfolding claim
claim_view new [] h = cc
claim_view new (m ∷ ms) {ms'} h = elim (Bool-cases m.in_use) [
  | inr free ↦ (0, m, refl, free, sym (some_eq (rw (free, claim) at h)))
  | inl used ↦ elim (Option-cases (claim new ms)) [
    | inl full ↦ ground (arith, used, full)
    | inr (rest, e) ↦
        let (i, x, at_i, free, same) = claim_view new ms e in
        (suc i, x, at_i, free, ground (arith, used, e, same))
  ]
]

-- What a round of registration that succeeds has checked and done.
pub register_one_ok :
    (old : List NfyMapping) (src_id cookie id : ℕ) (ntype : NotifyType) (ms : List NfyMapping)
    (bitmap : ℕ) {ms' : List NfyMapping} {bitmap' : ℕ}
    → register_one old src_id (cookie, id, ntype) ms bitmap ≡ ok (ms', bitmap')
    → (find_cookie old cookie ≡ none)
      × (id < 64)
      × (bit_and bitmap (2 ^ id) ≡ 0)
      × (claim
            (record { cookie = cookie; id = id; ntype = ntype; src_id = src_id; in_use = true })
            ms
          ≡ some ms')
      × (bitmap' ≡ bit_or bitmap (2 ^ id))
unfolding register_one
register_one_ok old src_id cookie id ntype ms bitmap h = ground arith

-- What a round of removal that succeeds has checked and done.
pub unregister_one_ok :
    (old : List NfyMapping) (src_id cookie id : ℕ) (ntype : NotifyType) (ms : List NfyMapping)
    (bitmap : ℕ) {ms' : List NfyMapping} {bitmap' : ℕ}
    → unregister_one old src_id (cookie, id, ntype) ms bitmap ≡ some (ok (ms', bitmap'))
    → (i : ℕ) × (m : NfyMapping) × (find_cookie old cookie ≡ some i)
      × (get_elem? ms i ≡ some m)
      × (m.id ≡ id)
      × (m.src_id ≡ src_id)
      × (ms' ≡ set ms i empty_mapping)
      × (bitmap' ≡ bit_and bitmap (complement 64 (2 ^ (m.id % 64))))
unfolding unregister_one
unregister_one_ok old src_id cookie id ntype ms bitmap h = ground arith

ok_ne_err : {A : Type 0} {E : Type 0} {a : A} {e : E} → ◌≡◌ {A = Result E A} (err e) (ok a) → ⊥
ok_ne_err h = cc

none_ne_some : {A : Type 0} {a : A} → none ≡ some a → ⊥
none_ne_some h = cc

err_ne_ok :
    {A : Type 0} {E : Type 0} {a : A} {e : E}
    → ◌≡◌ {A = Option (Result E A)} (some (err e)) (some (ok a))
    → ⊥
err_ne_ok h = cc

module _ (P : List NfyMapping → ℕ → Type 0) (old : List NfyMapping) (src_id : ℕ) where
  pub register_loop_rule :
      ((t : NotifyTuple) (ms : List NfyMapping) (bitmap : ℕ) (ms' : List NfyMapping) (bitmap' : ℕ)
        → register_one old src_id t ms bitmap ≡ ok (ms', bitmap')
        → P ms bitmap
        → P ms' bitmap')
      → (ts : List NotifyTuple) (ms : List NfyMapping) (bitmap : ℕ) {ms' : List NfyMapping}
        {bitmap' : ℕ}
      → register_loop old src_id ts ms bitmap ≡ ok (ms', bitmap')
      → P ms bitmap
      → P ms' bitmap'
  unfolding register_loop
  register_loop_rule keep [] ms bitmap h v = subst₂ P (cc) (cc) v
  register_loop_rule keep (t ∷ ts) ms bitmap h v =
      elim (Result-cases (register_one old src_id t ms bitmap)) [
        | inl ((ms₁, b₁), e) ↦
            register_loop_rule keep ts ms₁ b₁ (rw (e, register_loop) at h)
              (keep t ms bitmap ms₁ b₁ e v)
        | inr (code, e) ↦ absurd (ok_ne_err (rw (e, register_loop) at h))
      ]

  pub unregister_loop_rule :
      ((t : NotifyTuple) (ms : List NfyMapping) (bitmap : ℕ) (ms' : List NfyMapping) (bitmap' : ℕ)
        → unregister_one old src_id t ms bitmap ≡ some (ok (ms', bitmap'))
        → P ms bitmap
        → P ms' bitmap')
      → (ts : List NotifyTuple) (ms : List NfyMapping) (bitmap : ℕ) {ms' : List NfyMapping}
        {bitmap' : ℕ}
      → unregister_loop old src_id ts ms bitmap ≡ some (ok (ms', bitmap'))
      → P ms bitmap
      → P ms' bitmap'
  unfolding unregister_loop
  unregister_loop_rule keep [] ms bitmap h v = subst₂ P (cc) (cc) v
  unregister_loop_rule keep (t ∷ ts) ms bitmap h v =
      elim (Option-cases (unregister_one old src_id t ms bitmap)) [
        | inl e ↦ absurd (none_ne_some (rw (e, unregister_loop) at h))
        | inr (err code, e) ↦ absurd (err_ne_ok (rw (e, unregister_loop) at h))
        | inr (ok (ms₁, b₁), e) ↦
            unregister_loop_rule keep ts ms₁ b₁ (rw (e, unregister_loop) at h)
              (keep t ms bitmap ms₁ b₁ e v)
      ]
