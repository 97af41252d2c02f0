-- ===== src/Notify/Atomic.antt =====
-- A refused request changes nothing but, for Setup and Add, the free slot that it took.
use odp_secure_services.Base.{
  ℕ, ◌≡◌, ◌≢◌, refl, sym, ap, ◌∙◌, ◌⊎◌, inl, inr, List, false, ◌&&◌, Option, none, some, Result, ok,
  err, leb, get_elem?, Option-cases, Bool-cases, some_eq,
}
use odp_secure_services.Base.Options.{◌>>=◌}
use odp_secure_services.Ffa.Error.{ErrorCode}
use odp_secure_services.Notify.Types.{
  NotifyReq, NfyMapping, NfyEntry, Notify, NfySetupRsp, respond, MessageId, add, remove, setup,
  destroy, assign, unassign,
}
use odp_secure_services.Notify.Table.{
  nfy_find_entry, commit, nfy_register_mapping, nfy_unregister_mapping, unregister_loop,
}
use odp_secure_services.Notify.Service.{
  register_at, register_with, unregister_with, nfy_setup, nfy_add, nfy_destroy, nfy_remove,
  nfy_assign, nfy_unassign, assign_check, assign_apply, assign_checked, all_found, unassign_apply,
  unassign_checked, dispatch,
}
use odp_secure_services.Notify.Commit.{
  allocated, Located, found, created, full, find_or_create_entry-Located,
}

-- The state is as before, or one free slot now names the service of the request.
abbrev pub Untouched : Notify → NotifyReq → Notify → Type 0
Untouched n req n' =
    (n' ≡ n)
    ⊎ ((i : ℕ) × (e : NfyEntry) × (get_elem? n.entries i ≡ some e)
        × (e.in_use ≡ false)
        × (n' ≡ allocated n i req.receiver_uuid))

commit_refused :
    (n : Notify) (i : ℕ) (e : NfyEntry) (r : Result ErrorCode (List NfyMapping × ℕ))
    → (commit n i e r).1 ≢ ErrorCode.ok
    → (commit n i e r).0 ≡ n
unfolding commit
commit_refused n i e (err code) h = refl
commit_refused n i e (ok (ms, bitmap)) h = absurd (h refl)

-- A bind that returns: what its first part returned.
bind_view {ℓ κ} :
    {A : Type ℓ} {B : Type κ} (o : Option A) (f : A → Option B) {b : B}
    → (o >>= f) ≡ some b
    → (a : A) × (o ≡ some a) × (f a ≡ some b)
bind_view (some a) f h = (a, refl, h)
bind_view none f h = cc

register_mapping_refused :
    (n : Notify) (i : ℕ) (req : NotifyReq) {r : Notify × ErrorCode}
    → nfy_register_mapping n i req ≡ some r
    → r.1 ≢ ErrorCode.ok
    → r.0 ≡ n
unfolding nfy_register_mapping
register_mapping_refused n i req {r} h refused = elim (Bool-cases (leb 16 i)) [
  | inl big ↦ sym (ap (λ (q : Notify × ErrorCode). q.0) (some_eq (rw big at h)))
  | inr low ↦
      let (e, at_i, done) = bind_view (get_elem? n.entries i) _ (rw low at h) in
      let same = some_eq done in
      ap (λ (q : Notify × ErrorCode). q.0) (sym same)
      ∙ commit_refused n i e _
          (λ good. refused (ap (λ (q : Notify × ErrorCode). q.1) (sym same) ∙ good))
]

unregister_mapping_refused :
    (n : Notify) (i : ℕ) (req : NotifyReq) {r : Notify × ErrorCode}
    → nfy_unregister_mapping n i req ≡ some r
    → r.1 ≢ ErrorCode.ok
    → r.0 ≡ n
unfolding nfy_unregister_mapping
unregister_mapping_refused n i req {r} h refused = elim (Bool-cases (leb 16 i)) [
  | inl big ↦ sym (ap (λ (q : Notify × ErrorCode). q.0) (some_eq (rw big at h)))
  | inr low ↦
      let (e, at_i, rest) = bind_view (get_elem? n.entries i) _ (rw low at h) in
      let (t, looped, done) =
        bind_view (unregister_loop e.mappings req.src_id _ e.mappings _) _ rest in
      let same = some_eq done in
      ap (λ (q : Notify × ErrorCode). q.0) (sym same)
      ∙ commit_refused n i e t
          (λ good. refused (ap (λ (q : Notify × ErrorCode). q.1) (sym same) ∙ good))
]

-- The part of a handler after its table operation passes state and status on.
answered :
    (id : MessageId) (req : NotifyReq) (n : Notify) (o : Option (Notify × ErrorCode))
    {r : Notify × NfySetupRsp}
    → ((q : Notify × ErrorCode) → o ≡ some q → q.1 ≢ ErrorCode.ok → q.0 ≡ n)
    → (o >>= λ q. some (q.0, respond id req q.1)) ≡ some r
    → r.1.status ≢ ErrorCode.ok
    → r.0 ≡ n
unfolding respond
answered id req n (some q) keep h refused =
    let same = some_eq h in
    ap (λ (p : Notify × NfySetupRsp). p.0) (sym same)
    ∙ keep q refl
        (λ good. refused (ap (λ (p : Notify × NfySetupRsp). p.1.status) (sym same) ∙ good))
answered id req n none keep h refused = cc

register_at_refused :
    (id : MessageId) (n : Notify) (req : NotifyReq) {l : Notify × Option ℕ}
    {r : Notify × NfySetupRsp}
    → Located n req.receiver_uuid l
    → register_at id req l ≡ some r
    → r.1.status ≢ ErrorCode.ok
    → Untouched n req r.0
unfolding register_at
register_at_refused id n req (found i e at_i used) h refused = inl (
    answered id req n (nfy_register_mapping n i req) (λ q. register_mapping_refused n i req {r = q})
      h refused)
register_at_refused id n req (created i e at_i free) h refused =
    let n' = allocated n i req.receiver_uuid in
    inr (
      i,
      e,
      at_i,
      free,
      answered id req n' (nfy_register_mapping n' i req)
          (λ q. register_mapping_refused n' i req {r = q}) h refused,
    )
register_at_refused id n req full h refused =
    inl (ap (λ (p : Notify × NfySetupRsp). p.0) (sym (some_eq h)))

register_with_refused :
    (id : MessageId) (n : Notify) (req : NotifyReq) {r : Notify × NfySetupRsp}
    → register_with id n req ≡ some r
    → r.1.status ≢ ErrorCode.ok
    → Untouched n req r.0
unfolding register_with
register_with_refused id n req h refused = elim (Bool-cases (leb 1 req.count && leb req.count 7)) [
  | inr bad ↦ inl (ap (λ (p : Notify × NfySetupRsp). p.0) (sym (some_eq (rw bad at h))))
  | inl fits ↦
      register_at_refused id n req (find_or_create_entry-Located n req.receiver_uuid) (rw fits at h)
        refused
]

unregister_with_refused :
    (id : MessageId) (n : Notify) (req : NotifyReq) {r : Notify × NfySetupRsp}
    → unregister_with id n req ≡ some r
    → r.1.status ≢ ErrorCode.ok
    → r.0 ≡ n
unfolding unregister_with
unregister_with_refused id n req h refused =
    elim (Option-cases (nfy_find_entry n req.receiver_uuid)) [
      | inl e ↦
          ap (λ (p : Notify × NfySetupRsp). p.0) (sym (some_eq (rw (e, unregister_with) at h)))
      | inr (i, e) ↦
          answered id req n (nfy_unregister_mapping n i req)
            (λ q. unregister_mapping_refused n i req {r = q}) (rw (e, unregister_with) at h) refused
    ]

assign_checked_refused :
    (n : Notify) (req : NotifyReq) (i : ℕ) (e : NfyEntry) (c : Result ErrorCode ℕ)
    {r : Notify × NfySetupRsp}
    → assign_checked n req i e c ≡ some r
    → r.1.status ≢ ErrorCode.ok
    → r.0 ≡ n
unfolding assign_checked respond
assign_checked_refused n req i e (err code) h refused =
    ap (λ (p : Notify × NfySetupRsp). p.0) (sym (some_eq h))
assign_checked_refused n req i e (ok bitmap) h refused =
    let (ms, applied, done) = bind_view (assign_apply e.mappings _) _ h in
    absurd (refused (ap (λ (p : Notify × NfySetupRsp). p.1.status) (sym (some_eq done))))

unassign_checked_refused :
    (n : Notify) (req : NotifyReq) (i : ℕ) (e : NfyEntry) (c : Result ErrorCode (Unit {0}))
    {r : Notify × NfySetupRsp}
    → unassign_checked n req i e c ≡ some r
    → r.1.status ≢ ErrorCode.ok
    → r.0 ≡ n
unfolding unassign_checked respond
unassign_checked_refused n req i e (err code) h refused =
    ap (λ (p : Notify × NfySetupRsp). p.0) (sym (some_eq h))
unassign_checked_refused n req i e (ok u) h refused =
    let (ms, applied, done) = bind_view (unassign_apply e.mappings _ n.global_bitmap) _ h in
    absurd (refused (ap (λ (p : Notify × NfySetupRsp). p.1.status) (sym (some_eq done))))

nfy_assign_refused :
    (n : Notify) (req : NotifyReq) {r : Notify × NfySetupRsp}
    → nfy_assign n req ≡ some r
    → r.1.status ≢ ErrorCode.ok
    → r.0 ≡ n
unfolding nfy_assign
nfy_assign_refused n req h refused = elim (Option-cases (nfy_find_entry n req.receiver_uuid)) [
  | inl e ↦ ap (λ (p : Notify × NfySetupRsp). p.0) (sym (some_eq (rw (e, nfy_assign) at h)))
  | inr (i, e) ↦
      let (entry, at_i, rest) = bind_view (get_elem? n.entries i) _ (rw (e, nfy_assign) at h) in
      let (c, checked, done) = bind_view (assign_check entry.mappings _ n.global_bitmap) _ rest in
      assign_checked_refused n req i entry c done refused
]

nfy_unassign_refused :
    (n : Notify) (req : NotifyReq) {r : Notify × NfySetupRsp}
    → nfy_unassign n req ≡ some r
    → r.1.status ≢ ErrorCode.ok
    → r.0 ≡ n
unfolding nfy_unassign
nfy_unassign_refused n req h refused = elim (Option-cases (nfy_find_entry n req.receiver_uuid)) [
  | inl e ↦ ap (λ (p : Notify × NfySetupRsp). p.0) (sym (some_eq (rw (e, nfy_unassign) at h)))
  | inr (i, e) ↦
      let (entry, at_i, rest) = bind_view (get_elem? n.entries i) _ (rw (e, nfy_unassign) at h) in
      unassign_checked_refused n req i entry (all_found entry.mappings _) rest refused
]

-- A request that is answered with another status than OK leaves the state as it was, but that Setup
-- and Add may have given one free slot to the service of the request.
pub dispatch_refused :
    (id : MessageId) (n : Notify) (req : NotifyReq) {r : Notify × NfySetupRsp}
    → dispatch id n req ≡ some r
    → r.1.status ≢ ErrorCode.ok
    → Untouched n req r.0
unfolding dispatch nfy_setup nfy_add nfy_destroy nfy_remove
dispatch_refused setup n req h refused = register_with_refused setup n req h refused
dispatch_refused add n req h refused = register_with_refused add n req h refused
dispatch_refused destroy n req h refused = inl (unregister_with_refused destroy n req h refused)
dispatch_refused remove n req h refused = inl (unregister_with_refused remove n req h refused)
dispatch_refused assign n req h refused = inl (nfy_assign_refused n req h refused)
dispatch_refused unassign n req h refused = inl (nfy_unassign_refused n req h refused)
