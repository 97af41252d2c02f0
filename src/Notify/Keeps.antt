-- ===== src/Notify/Keeps.antt =====
-- Setup, Add, Destroy and Remove do not panic, and keep the tables well formed and in agreement with
-- the bitmap.
use odp_secure_services.Base.{
  ℕ, ◌-◌, ◌≡◌, ◌≢◌, refl, ◌∙◌, inl, inr, List, true, false, ◌&&◌, Option, some, ok, leb, length,
  get_elem?, arith, Option-cases, Bool-cases, length-set, All-set, All-get_elem?, All-replicate,
  get_elem?-eq_lt, get_elem?-set_self,
}
use odp_secure_services.Base.Options.{Returns, returns, Returns->>=}
use odp_secure_services.Base.Bits.{test_bit-zero}
use odp_secure_services.Ffa.Message.{Uuid}
use odp_secure_services.Notify.Types.{
  NotifyReq, requested, NfyMapping, NfyEntry, Notify, NfySetupRsp, empty_mapping, empty_mappings,
  MessageId, new, empty_entry,
}
use odp_secure_services.Notify.Table.{
  nfy_find_entry, register_loop, unregister_loop, store_mappings,
}
use odp_secure_services.Notify.Service.{register_at, register_with, unregister_with}
use odp_secure_services.Notify.Rounds.{register_loop_rule, unregister_loop_rule}
use odp_secure_services.Notify.Valid.{IsMapping, IsTable, IsEntry, IsNotify, empty-IsMapping}
use odp_secure_services.Notify.Count.{
  count_id, total, total-set, entry_uses-le-total, count_id-empty, total-replicate,
}
use odp_secure_services.Notify.Exact.{IsExact, Agrees, register_one-Agrees, unregister_one-Agrees}
use odp_secure_services.Notify.Commit.{
  find_entry_view, register_mapping_keeps, unregister_mapping_keeps, allocated, Located, found,
  created, full, find_or_create_entry-Located,
}

module _ (P : Notify → Type 0) (slots : (n : Notify) → P n → length n.entries ≡ 16) where
  -- A predicate that allocation and the write-back of a registration keep.
  pub register_with_keeps :
      ((n : Notify) (i : ℕ) (e : NfyEntry) (uuid : Uuid)
        → get_elem? n.entries i ≡ some e
        → e.in_use ≡ false
        → P n
        → P (allocated n i uuid))
      → ((n : Notify) (i : ℕ) (e : NfyEntry) (req : NotifyReq) (ms : List NfyMapping) (bitmap : ℕ)
          → get_elem? n.entries i ≡ some e
          → e.in_use ≡ true
          → P n
          → register_loop e.mappings req.src_id (requested req) e.mappings n.global_bitmap
            ≡ ok (ms, bitmap)
          → P (store_mappings n i e ms bitmap))
      → (id : MessageId) (n : Notify) (req : NotifyReq) → P n
      → Returns (λ r. P r.0) (register_with id n req)
  unfolding register_with register_at
  register_with_keeps alloc store id n req p =
      elim (Bool-cases (leb 1 req.count && leb req.count 7)) [
        | inr bad ↦ rw bad (returns _ p)
        | inl fits ↦ rw fits (located (find_or_create_entry-Located n req.receiver_uuid))
      ]
    where
      at_entry :
          (n' : Notify) (i : ℕ) (e : NfyEntry)
          → get_elem? n'.entries i ≡ some e
          → e.in_use ≡ true
          → P n'
          → Returns (λ (r : Notify × NfySetupRsp). P r.0) (register_at id req (n', some i))
      at_entry n' i e at_i used p' =
          Returns->>= _
            (register_mapping_keeps P n' i req
              (omega (arith, get_elem?-eq_lt n'.entries i at_i, slots n' p')) at_i p'
              (λ ms bitmap done. store n' i e req ms bitmap at_i used p' done))
            (λ r pr. returns _ pr)

      located :
          {l : Notify × Option ℕ}
          → Located n req.receiver_uuid l
          → Returns (λ (r : Notify × NfySetupRsp). P r.0) (register_at id req l)
      located (found i e at_i used) = at_entry n i e at_i used p
      located (created i e at_i free) =
          at_entry (allocated n i req.receiver_uuid) i _
            (get_elem?-set_self n.entries i _ (get_elem?-eq_lt n.entries i at_i)) refl
            (alloc n i e req.receiver_uuid at_i free p)
      located full = returns _ p

  -- A predicate that the write-back of a removal keeps.
  pub unregister_with_keeps :
      (id : MessageId) (n : Notify) (req : NotifyReq)
      → ((i : ℕ) (e : NfyEntry) (ms : List NfyMapping) (bitmap : ℕ)
          → get_elem? n.entries i ≡ some e
          → e.in_use ≡ true
          → unregister_loop e.mappings req.src_id (requested req) e.mappings n.global_bitmap
            ≡ some (ok (ms, bitmap))
          → P (store_mappings n i e ms bitmap))
      → P n
      → Returns (λ r. P r.0) (unregister_with id n req)
  unfolding unregister_with
  unregister_with_keeps id n req store p =
      elim (Option-cases (nfy_find_entry n req.receiver_uuid)) [
        | inl e ↦ rw (e, unregister_with) (returns _ p)
        | inr (i, h) ↦
            let (e, at_i, used, same) = find_entry_view n req.receiver_uuid h in
            rw (h, unregister_with)
              (Returns->>= _
                (unregister_mapping_keeps P n i req
                  (omega (arith, get_elem?-eq_lt n.entries i at_i, slots n p)) at_i p
                  (λ ms bitmap done. store i e ms bitmap at_i used done))
                (λ r pr. returns _ pr))
      ]

-- Writing a table back into its entry.
pub store-IsNotify :
    (n : Notify) (i : ℕ) (e : NfyEntry) (ms : List NfyMapping) (bitmap : ℕ)
    → IsNotify n
    → IsTable ms bitmap
    → IsNotify (store_mappings n i e ms bitmap)
store-IsNotify n i e ms bitmap v t = record {
  slots = length-set n.entries i _ ∙ v.slots;
  entries = All-set IsEntry n.entries i _ (t.slots, t.mappings) v.entries;
  word = t.word;
}

pub IsTable-of :
    (n : Notify) (i : ℕ) {e : NfyEntry}
    → IsNotify n
    → get_elem? n.entries i ≡ some e
    → IsTable e.mappings n.global_bitmap
IsTable-of n i v at_i =
    let good = All-get_elem? IsEntry n.entries i v.entries at_i in
    record { slots = good.0; mappings = good.1; word = v.word }

pub allocated-IsNotify :
    (n : Notify) (i : ℕ) (uuid : Uuid) → IsNotify n → IsNotify (allocated n i uuid)
allocated-IsNotify n i uuid v = record {
  slots = length-set n.entries i _ ∙ v.slots;
  entries =
      All-set IsEntry n.entries i _ (refl, All-replicate IsMapping 64 empty_mapping empty-IsMapping)
        v.entries;
  word = v.word;
}

-- The holders of `k` outside the entry `e`.
abbrev others : Notify → NfyEntry → ℕ → ℕ
others n e k = total k n.entries - count_id k e.mappings

store-IsExact :
    (n : Notify) (i : ℕ) (e : NfyEntry) (ms : List NfyMapping) (bitmap : ℕ)
    → IsExact n
    → get_elem? n.entries i ≡ some e
    → e.in_use ≡ true
    → Agrees (others n e) ms bitmap
    → IsExact (store_mappings n i e ms bitmap)
store-IsExact n i e ms bitmap v at_i used t = record {
  valid = store-IsNotify n i e ms bitmap v.valid t.table;
  bits = λ k w. ground (
    arith,
    used,
    t.bits k w,
    total-set k n.entries i (record e { mappings = ms }) at_i,
    entry_uses-le-total k n.entries i at_i,
  );
}

Agrees-of :
    (n : Notify) (i : ℕ) (e : NfyEntry)
    → IsExact n
    → get_elem? n.entries i ≡ some e
    → e.in_use ≡ true
    → Agrees (others n e) e.mappings n.global_bitmap
Agrees-of n i e v at_i used = record {
  table = IsTable-of n i v.valid at_i;
  bits = λ k w. ground (arith, used, v.bits k w, entry_uses-le-total k n.entries i at_i);
}

allocated-IsExact :
    (n : Notify) (i : ℕ) (e : NfyEntry) (uuid : Uuid)
    → get_elem? n.entries i ≡ some e
    → e.in_use ≡ false
    → IsExact n
    → IsExact (allocated n i uuid)
allocated-IsExact n i e uuid at_i free v = record {
  valid = allocated-IsNotify n i uuid v.valid;
  bits = λ k w. ground (
    arith,
    free,
    v.bits k w,
    total-set k n.entries i
        (record { service_uuid = uuid; in_use = true; mappings = empty_mappings }) at_i,
    count_id-empty k,
  );
}

-- Setup and Add do not panic in a state with an exact bitmap, and afterwards bit `k` of the bitmap is again set exactly if one
-- mapping in use holds id `k`, and no two mappings hold one id.
pub register_with-IsExact :
    (id : MessageId) (n : Notify) (req : NotifyReq)
    → IsExact n
    → Returns (λ r. IsExact r.0) (register_with id n req)
register_with-IsExact id n req v =
    register_with_keeps IsExact (λ n' v'. v'.valid.slots) allocated-IsExact
      (λ n' i e req' ms bitmap at_i used v' done. store-IsExact n' i e ms bitmap v' at_i used (
        register_loop_rule (Agrees (others n' e)) e.mappings req'.src_id
          (register_one-Agrees (others n' e) e.mappings req'.src_id) (requested req') e.mappings
          n'.global_bitmap done (Agrees-of n' i e v' at_i used)))
      id n req v

-- Destroy and Remove of a source other than 0 do not panic in a state with an exact bitmap, and
-- afterwards bit `k` of the bitmap is
-- again set exactly if one mapping in use holds id `k`, and no two mappings hold one id.
pub unregister_with-IsExact :
    (id : MessageId) (n : Notify) (req : NotifyReq)
    → req.src_id ≢ 0
    → IsExact n
    → Returns (λ r. IsExact r.0) (unregister_with id n req)
unregister_with-IsExact id n req owned v =
    unregister_with_keeps IsExact (λ n' v'. v'.valid.slots) id n req
      (λ i e ms bitmap at_i used done. store-IsExact n i e ms bitmap v at_i used (
        unregister_loop_rule (Agrees (others n e)) e.mappings req.src_id
          (unregister_one-Agrees (others n e) e.mappings req.src_id owned) (requested req)
          e.mappings n.global_bitmap done (Agrees-of n i e v at_i used)))
      v

-- The service starts with empty tables and an empty bitmap.
pub new-IsExact : IsExact new
unfolding new
new-IsExact = record {
  valid = record {
    slots = refl;
    entries =
        All-replicate IsEntry 16 empty_entry
          (refl, All-replicate IsMapping 64 empty_mapping empty-IsMapping);
    word = omega arith;
  };
  bits = λ k w. omega (arith, total-replicate k 16, test_bit-zero k);
}
