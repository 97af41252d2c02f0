-- ===== src/Notify/Tests.antt =====
-- The notification service on concrete requests.
use odp_secure_services.Handler.Reply.{RepliesWith}
use odp_secure_services.Base.{ℕ, ◌≡◌, refl, List, [], ◌∷◌, Option, some, Result, arith, position}
use odp_secure_services.Base.Options.{Returns, Returns-value, ◌>>=◌}
use odp_secure_services.Ffa.Error.{ErrorCode, Error}
use odp_secure_services.Ffa.Message.{MsgSendDirectReq2, MsgSendDirectResp2}
use odp_secure_services.Ffa.Tests.{uuid_crate, zeros, zeros-IsPayload}
use odp_secure_services.Notify.Types.{
  NotifyReq, NotifyTuple, Notify, NfySetupRsp, new, global, per_vcpu, MessageId, setup, add, remove,
  assign, nfy_bitmask, respond,
}
use odp_secure_services.Notify.Service.{
  register_with, unregister_with, dispatch, handle, nfy_setup, nfy_add, nfy_remove, nfy_assign,
  assign_checked, assign_check, assign_apply, clear_id, register_at,
}
use odp_secure_services.Notify.Table.{
  nfy_find_entry, find_or_create_entry, nfy_find_empty_slot, nfy_register_mapping,
  nfy_unregister_mapping, register_loop, unregister_loop, register_one, unregister_one, commit,
  claim, find_cookie, nfy_find_matching_cookie,
}
use odp_secure_services.Notify.Valid.{IsNotify}
use odp_secure_services.Notify.Exact.{IsExact}
use odp_secure_services.Notify.Keeps.{new-IsExact, register_with-IsExact, unregister_with-IsExact}
use odp_secure_services.Notify.Panics.{handle-IsNotify}
use odp_secure_services.Notify.Atomic.{Untouched, dispatch_refused}

abbrev request : ℕ → List NotifyTuple → NotifyReq
request count tuples = record {
  src_id = 7;
  sender_uuid = 1;
  receiver_uuid = 2;
  msg_info = 0;
  count = count;
  notifications = tuples;
}

abbrev two : NotifyReq
two = request 2 ((10, 5, global) ∷ (11, 6, per_vcpu) ∷ [])

-- The answer's status and the bitmap after two requests.
abbrev after : MessageId → NotifyReq → MessageId → NotifyReq → Option (ErrorCode × ℕ)
after id first id' second = dispatch id new first >>= λ r.
    dispatch id' r.0 second >>= λ r'. some (r'.1.status, r'.0.global_bitmap)

runs :
    (after setup two remove (request 1 ((10, 5, global) ∷ [])) ≡ some (ErrorCode.ok, 64))
    × (after setup two add (request 1 ((12, 5, global) ∷ []))
        ≡ some (ErrorCode.invalid_parameters, 96))
    × (after setup two remove (request 1 ((10, 6, global) ∷ []))
        ≡ some (ErrorCode.invalid_parameters, 96))
    × (after setup two assign (request 1 ((10, 9, global) ∷ [])) ≡ some (ErrorCode.ok, 576))
unfolding dispatch nfy_setup nfy_add nfy_remove nfy_assign register_with unregister_with
    assign_checked assign_check assign_apply clear_id nfy_find_entry find_or_create_entry
    nfy_find_empty_slot nfy_register_mapping nfy_unregister_mapping register_loop unregister_loop
    register_one unregister_one commit nfy_bitmask respond new position claim find_cookie
    nfy_find_matching_cookie register_at
runs = (refl, refl, refl, refl)

abbrev message : MsgSendDirectReq2
message = record { source_id = 7; destination_id = 0x8001; uuid = 2; payload = zeros }

handle-IsNotify_example :
    Returns
      (λ (r : Notify × Result Error MsgSendDirectResp2). IsNotify r.0 × RepliesWith message r.1)
      (handle uuid_crate new message)
handle-IsNotify_example = handle-IsNotify uuid_crate new message zeros-IsPayload new-IsExact.valid

register_with-IsExact_example : Returns (λ r. IsExact r.0) (register_with setup new two)
register_with-IsExact_example = register_with-IsExact setup new two new-IsExact

abbrev set_up : (r : Notify × NfySetupRsp) × (register_with setup new two ≡ some r) × IsExact r.0
set_up = Returns-value (register_with-IsExact setup new two new-IsExact)

-- Both mappings of the request before are removed again.
unregister_with-IsExact_example : Returns (λ r. IsExact r.0) (unregister_with remove set_up.0.0 two)
unregister_with-IsExact_example =
    unregister_with-IsExact remove set_up.0.0 two (omega arith) set_up.2

-- Removing from a service that was never set up.
dispatch_refused_example : Untouched new two new
unfolding dispatch nfy_remove unregister_with nfy_find_entry position new respond
dispatch_refused_example = dispatch_refused remove new two refl (λ e. cc)
