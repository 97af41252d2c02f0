-- ===== src/Notify/Panics.antt =====
-- No well-formed message makes the notification service panic, and each leaves its tables well
-- formed.
use odp_secure_services.Handler.Reply.{RepliesWith}
use odp_secure_services.Base.{
  length, ℕ, zero, suc, ◌+◌, ◌≤◌, ◌<◌, ◌≡◌, refl, inl, inr, Result, ok, err, arith, Option-cases,
  Bool-cases, ltb,
}
use odp_secure_services.Base.Options.{Returns, returns, Returns->>=}
use odp_secure_services.Base.Bytes.{register_bytes-IsByte, register_bytes, length-register_bytes}
use odp_secure_services.Ffa.Error.{ErrorCode}
use odp_secure_services.Ffa.Payload.{payload_len, DirectMessagePayload, IsPayload, register_at}
use odp_secure_services.Ffa.Payload.Codec.{
  from_iter-IsPayload, from_iter-fits, register_at-in_range,
}
use odp_secure_services.Ffa.Message.{from_req_with_payload, UuidCrate, MsgSendDirectReq2}
use odp_secure_services.Notify.Types.{
  NotifyReq, requested, NfyEntry, Notify, NfySetupRsp, tuple_at, read_tuples, notify_req_from,
  payload_registers, payload_from_rsp, message_id, MessageId, add, remove, setup, destroy, assign,
  unassign,
}
use odp_secure_services.Notify.Table.{nfy_find_entry}
use odp_secure_services.Notify.Service.{
  assign_checked, unassign_checked, all_found, nfy_assign, nfy_unassign, dispatch, nfy_setup,
  nfy_add, nfy_destroy, nfy_remove, register_with, unregister_with, handle,
}
use odp_secure_services.Notify.Valid.{
  IsTable, IsNotify, register_loop-IsTable, unregister_loop-IsTable,
}
use odp_secure_services.Notify.Commit.{find_entry_view}
use odp_secure_services.Notify.Keeps.{
  store-IsNotify, IsTable-of, allocated-IsNotify, register_with_keeps, unregister_with_keeps,
}
use odp_secure_services.Notify.Total.{
  Checked, assign_check-Checked, assign_apply_total, all_found-AllFound, unassign_apply_total,
}

-- The state in a handler's result is well formed.
abbrev pub StateIsNotify : Notify × NfySetupRsp → Type 0
StateIsNotify r = IsNotify r.0

assign_checked-IsNotify :
    (n : Notify) (req : NotifyReq) (i : ℕ) (e : NfyEntry) (r : Result ErrorCode ℕ)
    → IsNotify n
    → IsTable e.mappings n.global_bitmap
    → Checked e.mappings (requested req) r
    → Returns StateIsNotify (assign_checked n req i e r)
unfolding assign_checked
assign_checked-IsNotify n req i e (err code) v t c = returns _ v
assign_checked-IsNotify n req i e (ok bitmap) v t c =
    Returns->>= _ (assign_apply_total e.mappings (requested req) (t.slots, t.mappings) c.0 c.1)
      (λ ms m.
        returns _
          (store-IsNotify n i e ms bitmap v (record { slots = m.0; mappings = m.1; word = c.2 })))

nfy_assign-IsNotify :
    (n : Notify) (req : NotifyReq) → IsNotify n → Returns StateIsNotify (nfy_assign n req)
unfolding nfy_assign
nfy_assign-IsNotify n req v = elim (Option-cases (nfy_find_entry n req.receiver_uuid)) [
  | inl e ↦ rw (e, nfy_assign) (returns _ v)
  | inr (i, h) ↦
      let (e, at_i, used, same) = find_entry_view n req.receiver_uuid h in
      rw (h, nfy_assign)
        (rw at_i (
          Returns->>= _ (assign_check-Checked e.mappings (requested req) n.global_bitmap v.word)
            (λ r c. assign_checked-IsNotify n req i e r v (IsTable-of n i v at_i) c)))
]

unassign_checked-IsNotify :
    (n : Notify) (req : NotifyReq) (i : ℕ) (e : NfyEntry) (r : Result ErrorCode (Unit {0}))
    → all_found e.mappings (requested req) ≡ r
    → IsNotify n
    → IsTable e.mappings n.global_bitmap
    → Returns StateIsNotify (unassign_checked n req i e r)
unfolding unassign_checked
unassign_checked-IsNotify n req i e (err code) h v t = returns _ v
unassign_checked-IsNotify n req i e (ok u) h v t =
    Returns->>= _
      (unassign_apply_total e.mappings (requested req) n.global_bitmap (t.slots, t.mappings)
        (all_found-AllFound e.mappings (requested req) h) t.word)
      (λ r k. returns _ (store-IsNotify n i e r.0 r.1 v k))

nfy_unassign-IsNotify :
    (n : Notify) (req : NotifyReq) → IsNotify n → Returns StateIsNotify (nfy_unassign n req)
unfolding nfy_unassign
nfy_unassign-IsNotify n req v = elim (Option-cases (nfy_find_entry n req.receiver_uuid)) [
  | inl e ↦ rw (e, nfy_unassign) (returns _ v)
  | inr (i, h) ↦
      let (e, at_i, used, same) = find_entry_view n req.receiver_uuid h in
      rw (h, nfy_unassign)
        (rw at_i (
          unassign_checked-IsNotify n req i e (all_found e.mappings (requested req)) refl v
            (IsTable-of n i v at_i)))
]

register_with-IsNotify :
    (id : MessageId) (n : Notify) (req : NotifyReq)
    → IsNotify n
    → Returns StateIsNotify (register_with id n req)
register_with-IsNotify =
    register_with_keeps IsNotify (λ n v. v.slots)
      (λ n i e uuid at_i free v. allocated-IsNotify n i uuid v)
      (λ n i e req ms bitmap at_i used v done. store-IsNotify n i e ms bitmap v (
        register_loop-IsTable e.mappings req.src_id (requested req) e.mappings n.global_bitmap done
          (IsTable-of n i v at_i)))

unregister_with-IsNotify :
    (id : MessageId) (n : Notify) (req : NotifyReq)
    → IsNotify n
    → Returns StateIsNotify (unregister_with id n req)
unregister_with-IsNotify id n req v =
    unregister_with_keeps IsNotify (λ n' v'. v'.slots) id n req
      (λ i e ms bitmap at_i used done. store-IsNotify n i e ms bitmap v (
        unregister_loop-IsTable e.mappings req.src_id (requested req) e.mappings n.global_bitmap
          done (IsTable-of n i v at_i)))
      v

-- No handler panics on any request, and each leaves the tables well formed: 16 entries of 64
-- mappings, ids that fit the bitmap, and a bitmap of one word.
pub dispatch-IsNotify :
    (id : MessageId) (n : Notify) (req : NotifyReq)
    → IsNotify n
    → Returns StateIsNotify (dispatch id n req)
unfolding dispatch nfy_setup nfy_add nfy_destroy nfy_remove
dispatch-IsNotify setup n req v = register_with-IsNotify setup n req v
dispatch-IsNotify destroy n req v = unregister_with-IsNotify destroy n req v
dispatch-IsNotify add n req v = register_with-IsNotify add n req v
dispatch-IsNotify remove n req v = unregister_with-IsNotify remove n req v
dispatch-IsNotify assign n req v = nfy_assign-IsNotify n req v
dispatch-IsNotify unassign n req v = nfy_unassign-IsNotify n req v

abbrev Any {ℓ} : {A : Type ℓ} → A → Type 0
Any a = Unit

register_total :
    (p : DirectMessagePayload) (i : ℕ) → IsPayload p → i < 14 → Returns Any (register_at p i)
register_total p i v h = rw (register_at-in_range p i (omega (arith, v.len))) (returns _ tt)

tuple_at_total :
    (p : DirectMessagePayload) (count i : ℕ)
    → IsPayload p
    → i < 7
    → Returns Any (tuple_at p count i)
unfolding tuple_at
tuple_at_total p count i v h = elim (Bool-cases (ltb i count)) [
  | inl more ↦
      rw more (Returns->>= _ (register_total p (7 + i) v (omega arith)) (λ value u. returns _ tt))
  | inr past ↦ rw past (returns _ tt)
]

read_tuples_total :
    (p : DirectMessagePayload) (count i slots : ℕ)
    → IsPayload p
    → i + slots ≤ 7
    → Returns Any (read_tuples p count i slots)
unfolding read_tuples
read_tuples_total p count i zero v h = returns _ tt
read_tuples_total p count i (suc slots) v h =
    Returns->>= _ (tuple_at_total p count i v (omega arith)) λ t _.
      Returns->>= _ (read_tuples_total p count (i + 1) slots v (omega arith)) λ ts _. returns _ tt

notify_req_from_total :
    (c : UuidCrate) (msg : MsgSendDirectReq2)
    → IsPayload msg.payload
    → Returns Any (notify_req_from c msg)
unfolding notify_req_from
notify_req_from_total c msg v = Returns->>= _ (register_total msg.payload 1 v (omega arith)) λ r1 _.
    Returns->>= _ (register_total msg.payload 2 v (omega arith)) λ r2 _.
      Returns->>= _ (register_total msg.payload 3 v (omega arith)) λ r3 _.
        Returns->>= _ (register_total msg.payload 4 v (omega arith)) λ r4 _.
          Returns->>= _ (register_total msg.payload 5 v (omega arith)) λ r5 _.
            Returns->>= _ (register_total msg.payload 6 v (omega arith)) λ r6 _.
              Returns->>= _ (read_tuples_total msg.payload _ 0 7 v (omega arith))
                λ ts _. returns _ tt

payload_from_rsp_total :
    (c : UuidCrate) (rsp : NfySetupRsp) → Returns IsPayload (payload_from_rsp c rsp)
unfolding payload_from_rsp payload_registers
payload_from_rsp_total c rsp =
    let bytes = register_bytes (payload_registers c rsp) in
    let count : length bytes ≤ payload_len =
      omega (arith, length-register_bytes (payload_registers c rsp)) in
    rw (from_iter-fits bytes count) (
      returns _ (from_iter-IsPayload bytes (register_bytes-IsByte (payload_registers c rsp)) count))

-- In a state with well-formed tables, no message with a payload of 112 bytes makes the service
-- panic: it returns an error or a response that goes back to the sender, and its tables stay well
-- formed.
pub handle-IsNotify :
    (c : UuidCrate) (n : Notify) (msg : MsgSendDirectReq2)
    → IsPayload msg.payload
    → IsNotify n
    → Returns (λ r. IsNotify r.0 × RepliesWith msg r.1) (handle c n msg)
unfolding handle from_req_with_payload
handle-IsNotify c n msg p v = Returns->>= _ (notify_req_from_total c msg p) λ req _.
    elim (Option-cases (message_id req.msg_info)) [
      | inl e ↦ rw e (returns _ (v, tt))
      | inr (id, e) ↦ rw e (
          Returns->>= _ (dispatch-IsNotify id n req v) λ r k.
            Returns->>= _ (payload_from_rsp_total c r.1) λ payload good. returns _ (
              k,
              record { source = refl; destination = refl; same_uuid = refl; payload_ok = good },
            ))
    ]
