-- ===== src/Notify/Table.antt =====
-- notify.rs: finding and allocating entries, and the two loops that fill and clear mappings.
-- `none` is a panic. The loops change only the mappings of the entry at hand, so they carry that
-- entry's copy of them beside the copy of the bitmap.
use odp_secure_services.Base.{
  ℕ, ◌%◌, ◌^◌, bit_and, bit_or, List, [], ◌∷◌, true, not, ◌&&◌, Option, none, some, Result, ok, err,
  leb, ◌==◌, if◌then◌else◌, get_elem?, set, position,
}
use odp_secure_services.Base.Options.{◌>>=◌}
use odp_secure_services.Base.Bits.{complement}
use odp_secure_services.Ffa.Error.{ErrorCode, invalid_parameters, no_memory}
use odp_secure_services.Ffa.Message.{Uuid}
use odp_secure_services.Notify.Types.{
  NotifyTuple, NotifyReq, type_eq, requested, NfyMapping, NfyEntry, Notify, empty_mapping,
  empty_mappings, nfy_bitmask, notify_max_services,
}

unfoldable pub nfy_find_entry : Notify → Uuid → Option ℕ
nfy_find_entry n uuid = position (λ e. (e.service_uuid == uuid) && e.in_use) n.entries

unfoldable pub nfy_find_empty_slot : Notify → Option ℕ
nfy_find_empty_slot n = position (λ e. not e.in_use) n.entries

-- An entry that the service does not have yet takes the first free slot.
unfoldable pub find_or_create_entry : Notify → Uuid → Notify × Option ℕ
find_or_create_entry n uuid = elim (nfy_find_entry n uuid) [
  | some index ↦ (n, some index)
  | none ↦ elim (nfy_find_empty_slot n) [
    | none ↦ (n, none)
    | some slot ↦ (
      record n {
        entries =
            set n.entries slot
              (record { service_uuid = uuid; in_use = true; mappings = empty_mappings });
      },
      some slot,
    )
  ]
]

-- The search of `nfy_find_matching_cookie` in one entry's mappings.
unfoldable pub find_cookie : List NfyMapping → ℕ → Option ℕ
find_cookie ms cookie = position (λ m. m.in_use && (m.cookie == cookie)) ms

unfoldable pub nfy_find_matching_cookie : Notify → ℕ → ℕ → Option ℕ
unfolding find_cookie
nfy_find_matching_cookie n entry_index cookie =
    if leb notify_max_services entry_index
    then none
    else (get_elem? n.entries entry_index >>= λ entry. find_cookie entry.mappings cookie)

-- `iter_mut().find(|m| !m.in_use)`, and the fields set in the mapping found.
unfoldable pub claim : NfyMapping → List NfyMapping → Option (List NfyMapping)
claim new [] = none
claim new (m ∷ ms) =
    let rest : Option (List NfyMapping) = (claim new ms >>= λ ms'. some (m ∷ ms')) in
    if m.in_use then rest else some (new ∷ ms)

-- One round of the loop of `nfy_register_mapping`; `old` are the mappings of `self`.
unfoldable pub register_one :
    List NfyMapping → ℕ → NotifyTuple → List NfyMapping → ℕ → Result ErrorCode (List NfyMapping × ℕ)
unfolding nfy_bitmask
register_one old src_id (cookie, id, ntype) ms bitmap = elim (find_cookie old cookie) [
  | some _ ↦ err invalid_parameters
  | none ↦ elim (nfy_bitmask id) [
    | none ↦ err invalid_parameters
    | some bit ↦
        if bit_and bitmap bit == 0
        then (elim (claim
            (record { cookie = cookie; id = id; ntype = ntype; src_id = src_id; in_use = true })
            ms) [ none ↦ err no_memory | some ms' ↦ ok (ms', bit_or bitmap bit) ])
        else err invalid_parameters
  ]
]

unfoldable pub register_loop :
    List NfyMapping
    → ℕ
    → List NotifyTuple
    → List NfyMapping
    → ℕ
    → Result ErrorCode (List NfyMapping × ℕ)
register_loop old src_id [] ms bitmap = ok (ms, bitmap)
register_loop old src_id (t ∷ ts) ms bitmap = elim (register_one old src_id t ms bitmap) [
  | err e ↦ err e
  | ok (ms', bitmap') ↦ register_loop old src_id ts ms' bitmap'
]

-- The copies of one entry's mappings and of the bitmap, written back.
abbrev pub store_mappings : Notify → ℕ → NfyEntry → List NfyMapping → ℕ → Notify
store_mappings n index entry ms bitmap = record n {
  entries = set n.entries index (record entry { mappings = ms });
  global_bitmap = bitmap;
}

-- The copies are written back when the loop has ended well; an error leaves the state.
unfoldable pub commit :
    Notify → ℕ → NfyEntry → Result ErrorCode (List NfyMapping × ℕ) → Notify × ErrorCode
commit n index entry (err e) = (n, e)
commit n index entry (ok (ms, bitmap)) = (store_mappings n index entry ms bitmap, ErrorCode.ok)

unfoldable pub nfy_register_mapping : Notify → ℕ → NotifyReq → Option (Notify × ErrorCode)
nfy_register_mapping n entry_index req =
    if leb notify_max_services entry_index
    then some (n, invalid_parameters)
    else (get_elem? n.entries entry_index >>= λ entry. some (
        commit n entry_index entry
          (register_loop entry.mappings req.src_id (requested req) entry.mappings n.global_bitmap)))

-- One round of the loop of `nfy_unregister_mapping`. The shift amount of `1 << t_id` is taken
-- modulo the width.
unfoldable pub unregister_one :
    List NfyMapping
    → ℕ
    → NotifyTuple
    → List NfyMapping
    → ℕ
    → Option (Result ErrorCode (List NfyMapping × ℕ))
unregister_one old src_id (cookie, id, ntype) ms bitmap = elim (find_cookie old cookie) [
  | none ↦ some (err invalid_parameters)
  | some index ↦ get_elem? ms index >>= λ t. some (
      if (t.id == id) && (type_eq t.ntype ntype && (t.src_id == src_id))
      then ok (set ms index empty_mapping, bit_and bitmap (complement 64 (2 ^ (t.id % 64))))
      else err invalid_parameters)
]

unfoldable pub unregister_loop :
    List NfyMapping
    → ℕ
    → List NotifyTuple
    → List NfyMapping
    → ℕ
    → Option (Result ErrorCode (List NfyMapping × ℕ))
unregister_loop old src_id [] ms bitmap = some (ok (ms, bitmap))
unregister_loop old src_id (t ∷ ts) ms bitmap = unregister_one old src_id t ms bitmap >>= λ r.
    elim r [ err e ↦ some (err e) | ok (ms', bitmap') ↦ unregister_loop old src_id ts ms' bitmap' ]

unfoldable pub nfy_unregister_mapping : Notify → ℕ → NotifyReq → Option (Notify × ErrorCode)
nfy_unregister_mapping n entry_index req =
    if leb notify_max_services entry_index then some (n, invalid_parameters) else (do
      entry ← get_elem? n.entries entry_index
      r ← unregister_loop entry.mappings req.src_id (requested req) entry.mappings n.global_bitmap
      some (commit n entry_index entry r))
