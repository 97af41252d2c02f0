-- ===== src/Notify/Service.antt =====
-- notify.rs: the six handlers of the service and its dispatch. `none` is a panic.
use odp_secure_services.Base.{
  ℕ, bit_and, bit_or, List, [], ◌∷◌, Option, none, some, Result, ok, err, leb, ◌==◌, ◌&&◌,
  if◌then◌else◌, get_elem?, set,
}
use odp_secure_services.Base.Options.{◌>>=◌}
use odp_secure_services.Base.Bits.{complement}
use odp_secure_services.Ffa.Error.{
  ErrorCode, Error, other, invalid_notify_message_id, invalid_parameters, no_memory,
}
use odp_secure_services.Ffa.Message.{
  UuidCrate, MsgSendDirectReq2, MsgSendDirectResp2, from_req_with_payload,
}
use odp_secure_services.Notify.Types.{
  NotifyTuple, NotifyReq, global, requested, NfyMapping, NfyEntry, Notify, NfySetupRsp, respond,
  payload_from_rsp, MessageId, add, remove, setup, destroy, assign, unassign, message_id,
  notify_req_from, nfy_bitmask, notify_max_tuples_per_req,
}
use odp_secure_services.Notify.Table.{
  nfy_find_entry, find_or_create_entry, find_cookie, nfy_register_mapping, nfy_unregister_mapping,
  store_mappings,
}

-- The registration in the entry that was found or created, if any.
unfoldable pub register_at :
    MessageId → NotifyReq → Notify × Option ℕ → Option (Notify × NfySetupRsp)
register_at id req (n, none) = some (n, respond id req no_memory)
register_at id req (n, some entry_index) =
    nfy_register_mapping n entry_index req >>= λ r. some (r.0, respond id req r.1)

-- `nfy_setup` and `nfy_add` differ in the message id of the response only.
unfoldable pub register_with : MessageId → Notify → NotifyReq → Option (Notify × NfySetupRsp)
register_with id n req =
    if leb 1 req.count && leb req.count notify_max_tuples_per_req
    then register_at id req (find_or_create_entry n req.receiver_uuid)
    else some (n, respond id req invalid_parameters)

unfoldable pub nfy_setup : Notify → NotifyReq → Option (Notify × NfySetupRsp)
unfolding register_with
nfy_setup = register_with setup

unfoldable pub nfy_add : Notify → NotifyReq → Option (Notify × NfySetupRsp)
unfolding register_with
nfy_add = register_with add

-- `nfy_destroy` and `nfy_remove` differ in the message id of the response only.
unfoldable pub unregister_with : MessageId → Notify → NotifyReq → Option (Notify × NfySetupRsp)
unregister_with id n req = elim (nfy_find_entry n req.receiver_uuid) [
  | none ↦ some (n, respond id req invalid_parameters)
  | some entry_index ↦
      nfy_unregister_mapping n entry_index req >>= λ r. some (r.0, respond id req r.1)
]

unfoldable pub nfy_destroy : Notify → NotifyReq → Option (Notify × NfySetupRsp)
unfolding unregister_with
nfy_destroy = unregister_with destroy

unfoldable pub nfy_remove : Notify → NotifyReq → Option (Notify × NfySetupRsp)
unfolding unregister_with
nfy_remove = unregister_with remove

-- `if let Some(bit) = nfy_bitmask(id) { bitmap &= !bit }`.
unfoldable pub clear_id : ℕ → ℕ → ℕ
unfolding nfy_bitmask
clear_id bitmap id = elim (nfy_bitmask id) [
  | none ↦ bitmap
  | some bit ↦ bit_and bitmap (complement 64 bit)
]

-- The validation pass of `nfy_assign` over the mappings of `self`: the simulated bitmap.
unfoldable pub assign_check : List NfyMapping → List NotifyTuple → ℕ → Option (Result ErrorCode ℕ)
assign_check ms [] sim_bitmap = some (ok sim_bitmap)
assign_check ms ((cookie, id, ntype) ∷ ts) sim_bitmap = elim (find_cookie ms cookie) [
  | none ↦ some (err invalid_parameters)
  | some mapping_index ↦ get_elem? ms mapping_index >>= λ mapping.
      let cleared = clear_id sim_bitmap mapping.id in
      elim (nfy_bitmask id) [
        | none ↦ some (err invalid_parameters)
        | some new_bit ↦
            let rest = assign_check ms ts (bit_or cleared new_bit) in
            if bit_and cleared new_bit == 0 then rest else some (err invalid_parameters)
      ]
]

-- Its second pass, with the `unwrap` of each search.
unfoldable pub assign_apply : List NfyMapping → List NotifyTuple → Option (List NfyMapping)
assign_apply ms [] = some ms
assign_apply ms ((cookie, id, ntype) ∷ ts) = do
  mapping_index ← find_cookie ms cookie
  mapping ← get_elem? ms mapping_index
  assign_apply (set ms mapping_index (record mapping { id = id; ntype = ntype })) ts

-- The end of `nfy_assign`, by what its validation found.
unfoldable pub assign_checked :
    Notify → NotifyReq → ℕ → NfyEntry → Result ErrorCode ℕ → Option (Notify × NfySetupRsp)
assign_checked n req entry_index entry (err e) = some (n, respond assign req e)
assign_checked n req entry_index entry (ok sim_bitmap) =
    assign_apply entry.mappings (requested req) >>= λ ms.
    some (store_mappings n entry_index entry ms sim_bitmap, respond assign req ErrorCode.ok)

unfoldable pub nfy_assign : Notify → NotifyReq → Option (Notify × NfySetupRsp)
nfy_assign n req = elim (nfy_find_entry n req.receiver_uuid) [
  | none ↦ some (n, respond assign req invalid_parameters)
  | some entry_index ↦ get_elem? n.entries entry_index >>= λ entry.
      assign_check entry.mappings (requested req) n.global_bitmap >>= λ checked.
      assign_checked n req entry_index entry checked
]

-- The validation pass of `nfy_unassign`.
unfoldable pub all_found : List NfyMapping → List NotifyTuple → Result ErrorCode (Unit {0})
all_found ms [] = ok tt
all_found ms ((cookie, id, ntype) ∷ ts) = elim (find_cookie ms cookie) [
  | none ↦ err invalid_parameters
  | some _ ↦ all_found ms ts
]

unfoldable pub unassign_apply :
    List NfyMapping → List NotifyTuple → ℕ → Option (List NfyMapping × ℕ)
unassign_apply ms [] new_bitmap = some (ms, new_bitmap)
unassign_apply ms ((cookie, id, ntype) ∷ ts) new_bitmap = do
  mapping_index ← find_cookie ms cookie
  mapping ← get_elem? ms mapping_index
  unassign_apply (set ms mapping_index (record mapping { id = 0; ntype = global })) ts
      (clear_id new_bitmap mapping.id)

-- The end of `nfy_unassign`, by what its validation found.
unfoldable pub unassign_checked :
    Notify → NotifyReq → ℕ → NfyEntry → Result ErrorCode (Unit {0}) → Option (Notify × NfySetupRsp)
unassign_checked n req entry_index entry (err e) = some (n, respond unassign req e)
unassign_checked n req entry_index entry (ok _) =
    unassign_apply entry.mappings (requested req) n.global_bitmap >>= λ r.
    some (store_mappings n entry_index entry r.0 r.1, respond unassign req ErrorCode.ok)

unfoldable pub nfy_unassign : Notify → NotifyReq → Option (Notify × NfySetupRsp)
nfy_unassign n req = elim (nfy_find_entry n req.receiver_uuid) [
  | none ↦ some (n, respond unassign req invalid_parameters)
  | some entry_index ↦ get_elem? n.entries entry_index >>= λ entry.
      unassign_checked n req entry_index entry (all_found entry.mappings (requested req))
]

-- The handler of each message id.
unfoldable pub dispatch : MessageId → Notify → NotifyReq → Option (Notify × NfySetupRsp)
dispatch setup n req = nfy_setup n req
dispatch destroy n req = nfy_destroy n req
dispatch add n req = nfy_add n req
dispatch remove n req = nfy_remove n req
dispatch assign n req = nfy_assign n req
dispatch unassign n req = nfy_unassign n req

-- `Service::ffa_msg_send_direct_req2`.
unfoldable pub handle :
    UuidCrate → Notify → MsgSendDirectReq2 → Option (Notify × Result Error MsgSendDirectResp2)
handle c n msg = notify_req_from c msg >>= λ req. elim (message_id req.msg_info) [
  | none ↦ some (n, err (other invalid_notify_message_id))
  | some id ↦ dispatch id n req >>= λ r.
      payload_from_rsp c r.1 >>= λ payload. some (r.0, ok (from_req_with_payload msg payload))
]
