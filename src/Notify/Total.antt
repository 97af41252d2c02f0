-- ===== src/Notify/Total.antt =====
-- Assign and Unassign do not panic and keep the tables well formed; so no message makes the service
-- panic.
use odp_secure_services.Base.{
  ℕ, ◌^◌, ◌<◌, ◌≡◌, ◌≢◌, refl, ◌∙◌, inl, inr, bit_and, bit_or, List, [], ◌∷◌, none, some, Result,
  ok, err, ltb, ◌==◌, length, get_elem?, set, All, arith, Option-cases, Bool-cases, length-set,
  All-set, All-get_elem?, position-set, All-mono,
}
use odp_secure_services.Base.Options.{Returns, returns, Returns-mono}
use odp_secure_services.Base.Bits.{bit_or-lt, bit_and-le, complement}
use odp_secure_services.Ffa.Error.{ErrorCode}
use odp_secure_services.Notify.Types.{NotifyTuple, NotifyType, global, NfyMapping, nfy_bitmask}
use odp_secure_services.Notify.Table.{find_cookie}
use odp_secure_services.Notify.Service.{
  clear_id, assign_check, assign_apply, all_found, unassign_apply,
}
use odp_secure_services.Notify.Valid.{IsMapping, IsTable, shift-lt}
use odp_secure_services.Notify.Commit.{find_cookie_view}

-- A mapping that keeps its cookie and its use is found where it was.
find_cookie-set :
    (ms : List NfyMapping) (cookie i : ℕ) {m : NfyMapping} (m' : NfyMapping)
    → get_elem? ms i ≡ some m
    → m'.in_use ≡ m.in_use
    → m'.cookie ≡ m.cookie
    → find_cookie (set ms i m') cookie ≡ find_cookie ms cookie
unfolding find_cookie
find_cookie-set ms cookie i m' h u c = position-set _ ms i m' h (rw (u, c) refl)

clear_id-lt : (bitmap id : ℕ) → bitmap < 2 ^ 64 → clear_id bitmap id < 2 ^ 64
unfolding clear_id nfy_bitmask
clear_id-lt bitmap id h = ground (arith, bit_and-le bitmap bitmap (complement 64 (2 ^ id)))

-- Every cookie of the request is found.
abbrev pub AllFound : List NfyMapping → List NotifyTuple → Type 0
AllFound ms ts = All (λ (t : NotifyTuple). find_cookie ms t.0 ≢ none) ts

abbrev pub IdFits : NotifyTuple → Type 0
IdFits (cookie, id, ntype) = id < 64

-- What the validation of Assign establishes.
abbrev pub Checked : List NfyMapping → List NotifyTuple → Result ErrorCode ℕ → Type 0
Checked ms ts (ok bitmap) = AllFound ms ts × All IdFits ts × (bitmap < 2 ^ 64)
Checked ms ts (err e) = Unit

Checked-more :
    (ms : List NfyMapping) (t : NotifyTuple) (ts : List NotifyTuple) (r : Result ErrorCode ℕ)
    → find_cookie ms t.0 ≢ none
    → IdFits t
    → Checked ms ts r
    → Checked ms (t ∷ ts) r
Checked-more ms t ts (ok bitmap) f i c = ((f, c.0), (i, c.1), c.2)
Checked-more ms t ts (err e) f i c = tt

pub assign_check-Checked :
    (ms : List NfyMapping) (ts : List NotifyTuple) (bitmap : ℕ)
    → bitmap < 2 ^ 64
    → Returns (Checked ms ts) (assign_check ms ts bitmap)
unfolding assign_check nfy_bitmask
assign_check-Checked ms [] bitmap h = returns _ (tt, tt, h)
assign_check-Checked ms ((cookie, id, ntype) ∷ ts) bitmap h =
    elim (Option-cases (find_cookie ms cookie)) [
      | inl e ↦ rw (e, assign_check) (returns _ tt)
      | inr (i, e) ↦
          let (m, at_i, used, same) = find_cookie_view ms cookie e in
          let cleared = clear_id bitmap m.id in
          let low = clear_id-lt bitmap m.id h in
          elim (Bool-cases (ltb id 64)) [
            | inr big ↦ rw (e, assign_check) (rw (at_i, big) (returns _ tt))
            | inl fits ↦
                let id_lt : id < 64 = ground arith in
                elim (Bool-cases (bit_and cleared (2 ^ id) == 0)) [
                  | inr taken ↦ rw (e, assign_check) (rw (at_i, fits) (rw taken (returns _ tt)))
                  | inl free ↦
                      rw (e, assign_check)
                        (rw (at_i, fits)
                          (rw free (
                            Returns-mono
                              (assign_check-Checked ms ts (bit_or cleared (2 ^ id))
                                (bit_or-lt 64 cleared (2 ^ id) low (shift-lt id id_lt)))
                              (λ r c.
                                Checked-more ms (cookie, id, ntype) ts r (λ none_found. cc) id_lt
                                  c))))
                ]
          ]
    ]

-- The mappings of an entry, whatever the bitmap.
abbrev pub Mappings : List NfyMapping → Type 0
Mappings ms = (length ms ≡ 64) × All IsMapping ms

-- Rewriting a mapping in use, with the searches for the other cookies left as they are.
rewrite_found :
    (ms : List NfyMapping) (ts : List NotifyTuple) (i : ℕ) {m : NfyMapping} (id : ℕ)
    (ntype : NotifyType)
    → get_elem? ms i ≡ some m
    → id < 64
    → Mappings ms
    → AllFound ms ts
    → Mappings (set ms i (record m { id = id; ntype = ntype }))
      × AllFound (set ms i (record m { id = id; ntype = ntype })) ts
rewrite_found ms ts i {m} id ntype at_i id_lt v f =
    let m' : NfyMapping = record m { id = id; ntype = ntype } in
    let old = All-get_elem? IsMapping ms i v.1 at_i in
    (
      (
        length-set ms i m' ∙ v.0,
        All-set IsMapping ms i m' (record { id_lt = id_lt; no_owner = old.no_owner }) v.1,
      ),
      All-mono (λ (t : NotifyTuple). find_cookie ms t.0 ≢ none)
          (λ (t : NotifyTuple). find_cookie (set ms i m') t.0 ≢ none) ts
          (λ t g. rw (find_cookie-set ms t.0 i m' at_i refl refl) g) f,
    )

pub assign_apply_total :
    (ms : List NfyMapping) (ts : List NotifyTuple)
    → Mappings ms
    → AllFound ms ts
    → All IdFits ts
    → Returns Mappings (assign_apply ms ts)
unfolding assign_apply
assign_apply_total ms [] v f k = returns ms v
assign_apply_total ms ((cookie, id, ntype) ∷ ts) v f k =
    elim (Option-cases (find_cookie ms cookie)) [
      | inl e ↦ absurd (f.0 e)
      | inr (i, e) ↦
          let (m, at_i, used, same) = find_cookie_view ms cookie e in
          let (v', f') = rewrite_found ms ts i id ntype at_i k.0 v f.1 in
          rw e (
            rw at_i
              (assign_apply_total (set ms i (record m { id = id; ntype = ntype })) ts v' f' k.1))
    ]

pub all_found-AllFound :
    (ms : List NfyMapping) (ts : List NotifyTuple) → all_found ms ts ≡ ok tt → AllFound ms ts
unfolding all_found
all_found-AllFound ms [] h = tt
all_found-AllFound ms ((cookie, id, ntype) ∷ ts) h = elim (Option-cases (find_cookie ms cookie)) [
  | inl e ↦ ground (arith, e)
  | inr (i, e) ↦ (λ z. cc, all_found-AllFound ms ts (rw (e, all_found) at h))
]

pub unassign_apply_total :
    (ms : List NfyMapping) (ts : List NotifyTuple) (bitmap : ℕ)
    → Mappings ms
    → AllFound ms ts
    → bitmap < 2 ^ 64
    → Returns (λ (r : List NfyMapping × ℕ). IsTable r.0 r.1) (unassign_apply ms ts bitmap)
unfolding unassign_apply
unassign_apply_total ms [] bitmap v f w =
    returns _ (record { slots = v.0; mappings = v.1; word = w })
unassign_apply_total ms ((cookie, id, ntype) ∷ ts) bitmap v f w =
    elim (Option-cases (find_cookie ms cookie)) [
      | inl e ↦ absurd (f.0 e)
      | inr (i, e) ↦
          let (m, at_i, used, same) = find_cookie_view ms cookie e in
          let (v', f') = rewrite_found ms ts i 0 global at_i (omega arith) v f.1 in
          rw e (
            rw at_i (
              unassign_apply_total (set ms i (record m { id = 0; ntype = global })) ts
                (clear_id bitmap m.id) v' f' (clear_id-lt bitmap m.id w)))
    ]
