-- ===== src/Notify/Commit.antt =====
-- The operations on the mappings of one entry, and the allocation of an entry: they do not panic,
-- and keep what every write-back and every allocation keeps.
use odp_secure_services.Base.{
  ℕ, ◌<◌, ◌≡◌, ◌≢◌, refl, ap, ◌∙◌, inl, inr, List, [], ◌∷◌, true, false, Option, none, some, Result,
  ok, err, leb, length, get_elem?, set, arith, Option-cases, Result-cases, length-set,
  get_elem?-eq_lt, get_elem?_in_range, position-get_elem?,
}
use odp_secure_services.Base.Options.{Returns, returns}
use odp_secure_services.Ffa.Error.{ErrorCode}
use odp_secure_services.Ffa.Message.{Uuid}
use odp_secure_services.Notify.Types.{
  NotifyTuple, NotifyReq, requested, NfyMapping, NfyEntry, Notify, empty_mapping, empty_mappings,
}
use odp_secure_services.Notify.Table.{
  nfy_find_entry, nfy_find_empty_slot, find_or_create_entry, find_cookie, register_loop,
  unregister_one, unregister_loop, commit, store_mappings, nfy_register_mapping,
  nfy_unregister_mapping,
}
use odp_secure_services.Notify.Rounds.{unregister_one_ok}

-- The entry that a service found is in use.
pub find_entry_view :
    (n : Notify) (uuid : Uuid) {i : ℕ}
    → nfy_find_entry n uuid ≡ some i
    → (e : NfyEntry) × (get_elem? n.entries i ≡ some e)
      × (e.in_use ≡ true)
      × (e.service_uuid ≡ uuid)
unfolding nfy_find_entry
find_entry_view n uuid {i} h =
    let (e, at_i, passes) = position-get_elem? _ n.entries i h in
    (e, at_i, ground arith, ground arith)

pub find_cookie_view :
    (ms : List NfyMapping) (cookie : ℕ) {i : ℕ}
    → find_cookie ms cookie ≡ some i
    → (m : NfyMapping) × (get_elem? ms i ≡ some m) × (m.in_use ≡ true) × (m.cookie ≡ cookie)
unfolding find_cookie
find_cookie_view ms cookie {i} h =
    let (m, at_i, passes) = position-get_elem? _ ms i h in (m, at_i, ground arith, ground arith)

unregister_one_ne_none :
    (old : List NfyMapping) (src_id : ℕ) (t : NotifyTuple) (ms : List NfyMapping) (bitmap : ℕ)
    → length ms ≡ length old
    → unregister_one old src_id t ms bitmap ≢ none
unfolding unregister_one
unregister_one_ne_none old src_id (cookie, id, ntype) ms bitmap len h =
    elim (Option-cases (find_cookie old cookie)) [
      | inl e ↦ ground (arith, e)
      | inr (i, e) ↦
          let (m, at_old, used, same) = find_cookie_view old cookie e in
          let (t, at_i) = get_elem?_in_range ms i (omega (arith, get_elem?-eq_lt old i at_old)) in
          ground (arith, e, at_i)
    ]

unregister_one_total :
    (old : List NfyMapping) (src_id : ℕ) (t : NotifyTuple) (ms : List NfyMapping) (bitmap : ℕ)
    → length ms ≡ length old
    → (r : Result ErrorCode (List NfyMapping × ℕ)) × (unregister_one old src_id t ms bitmap
        ≡ some r)
unregister_one_total old src_id t ms bitmap len =
    elim (Option-cases (unregister_one old src_id t ms bitmap)) [
      | inl e ↦ absurd (unregister_one_ne_none old src_id t ms bitmap len e)
      | inr (r, e) ↦ (r, e)
    ]

pub unregister_loop_total :
    (old : List NfyMapping) (src_id : ℕ) (ts : List NotifyTuple) (ms : List NfyMapping) (bitmap : ℕ)
    → length ms ≡ length old
    → (r : Result ErrorCode (List NfyMapping × ℕ)) × (unregister_loop old src_id ts ms bitmap
        ≡ some r)
unfolding unregister_loop
unregister_loop_total old src_id [] ms bitmap len = (_, refl)
unregister_loop_total old src_id ((c, id, ty) ∷ ts) ms bitmap len =
    let (r, e) = unregister_one_total old src_id (c, id, ty) ms bitmap len in
    elim (Result-cases r) [
      | inr (code, bad) ↦ (err code, rw (e, unregister_loop) (rw bad refl))
      | inl ((ms₁, b₁), good) ↦
          let (i, m, found, at_i, same_id, same_src, same, cleared) =
            unregister_one_ok old src_id c id ty ms bitmap (e ∙ ap some good) in
          let (r₁, e₁) =
            unregister_loop_total old src_id ts ms₁ b₁
              (ap length same ∙ (length-set ms i empty_mapping ∙ len)) in
          (r₁, rw (e, unregister_loop) (rw good e₁))
    ]

-- What a predicate on the state must satisfy to be kept: it holds after an allocation of a free
-- slot, and after the write-back of a loop.
module _ (P : Notify → Type 0) where
  commit_keeps :
      (n : Notify) (i : ℕ) (e : NfyEntry) (r : Result ErrorCode (List NfyMapping × ℕ))
      → P n
      → ((ms : List NfyMapping) (bitmap : ℕ)
          → r ≡ ok (ms, bitmap)
          → P (store_mappings n i e ms bitmap))
      → P (commit n i e r).0
  unfolding commit
  commit_keeps n i e (err code) p keep = p
  commit_keeps n i e (ok (ms, bitmap)) p keep = keep ms bitmap refl

  pub register_mapping_keeps :
      (n : Notify) (i : ℕ) (req : NotifyReq) {e : NfyEntry}
      → i < 16
      → get_elem? n.entries i ≡ some e
      → P n
      → ((ms : List NfyMapping) (bitmap : ℕ)
          → register_loop e.mappings req.src_id (requested req) e.mappings n.global_bitmap
            ≡ ok (ms, bitmap)
          → P (store_mappings n i e ms bitmap))
      → Returns (λ r. P r.0) (nfy_register_mapping n i req)
  unfolding nfy_register_mapping
  register_mapping_keeps n i req {e} lt at_i p keep =
      let low : leb 16 i ≡ false = ground arith in
      rw (low, at_i) (returns _ (commit_keeps n i e _ p keep))

  pub unregister_mapping_keeps :
      (n : Notify) (i : ℕ) (req : NotifyReq) {e : NfyEntry}
      → i < 16
      → get_elem? n.entries i ≡ some e
      → P n
      → ((ms : List NfyMapping) (bitmap : ℕ)
          → unregister_loop e.mappings req.src_id (requested req) e.mappings n.global_bitmap
            ≡ some (ok (ms, bitmap))
          → P (store_mappings n i e ms bitmap))
      → Returns (λ r. P r.0) (nfy_unregister_mapping n i req)
  unfolding nfy_unregister_mapping
  unregister_mapping_keeps n i req {e} lt at_i p keep =
      let low : leb 16 i ≡ false = ground arith in
      let (r, done) =
        unregister_loop_total e.mappings req.src_id (requested req) e.mappings n.global_bitmap
          refl in
      rw (low, at_i, done)
        (returns _ (commit_keeps n i e r p λ ms bitmap good. keep ms bitmap (done ∙ ap some good)))

empty_view :
    (n : Notify) {i : ℕ}
    → nfy_find_empty_slot n ≡ some i
    → (e : NfyEntry) × (get_elem? n.entries i ≡ some e) × (e.in_use ≡ false)
unfolding nfy_find_empty_slot
empty_view n {i} h =
    let (e, at_i, passes) = position-get_elem? _ n.entries i h in (e, at_i, ground arith)

-- The entry for a service that the table does not have yet.
abbrev pub allocated : Notify → ℕ → Uuid → Notify
allocated n slot uuid = record n {
  entries =
      set n.entries slot (record { service_uuid = uuid; in_use = true; mappings = empty_mappings });
}

-- `find_or_create_entry` finds an entry in use, allocates a free slot, or has none left.
pub data Located (n : Notify) (uuid : Uuid) : Notify × Option ℕ → Type 0 where
  found :
      (i : ℕ) (e : NfyEntry)
      → get_elem? n.entries i ≡ some e
      → e.in_use ≡ true
      → Located n uuid (n, some i)
  created :
      (i : ℕ) (e : NfyEntry)
      → get_elem? n.entries i ≡ some e
      → e.in_use ≡ false
      → Located n uuid (allocated n i uuid, some i)
  full : Located n uuid (n, none)

pub find_or_create_entry-Located :
    (n : Notify) (uuid : Uuid) → Located n uuid (find_or_create_entry n uuid)
unfolding find_or_create_entry
find_or_create_entry-Located n uuid = elim (Option-cases (nfy_find_entry n uuid)) [
  | inr (i, h) ↦
      let (e, at_i, used, same) = find_entry_view n uuid h in
      rw (h, find_or_create_entry) (found i e at_i used)
  | inl h ↦ elim (Option-cases (nfy_find_empty_slot n)) [
    | inl none_left ↦ rw (h, find_or_create_entry) (rw none_left full)
    | inr (i, at_slot) ↦
        let (e, at_i, free) = empty_view n at_slot in
        rw (h, find_or_create_entry) (rw at_slot (created i e at_i free))
  ]
]
