-- ===== src/Tpm/Service.antt =====
-- tpm.rs: the function handlers of the TPM service, `init` and `deinit`, and the dispatch of a
-- message. The feature `test-bypass-locality-check` is off.
use odp_secure_services.Base.{
  ℕ, ◌+◌, ◌*◌, ◌%◌, ◌^◌, bit_and, [], ◌∷◌, Bool, true, false, Option, some, Result, ok, leb, ◌==◌,
  if◌then◌else◌, get_or, set, replicate,
}
use odp_secure_services.Base.Options.{◌>>=◌}
use odp_secure_services.Base.Bytes.{register_bytes}
use odp_secure_services.Ffa.Error.{Error}
use odp_secure_services.Ffa.Payload.{DirectMessagePayload, from_iter, register_at}
use odp_secure_services.Ffa.Message.{MsgSendDirectReq2, MsgSendDirectResp2, from_req_with_payload}
use odp_secure_services.Tpm.Registers.{
  PtpCrbRegisters, function_code, get_interface_version, get_feature_info, start,
  register_for_notification, unregister_for_notification, finish_notified, manage_locality,
  TpmStatus, status_code, ok_results_returned, no_func, not_sup, inv_arg, already, denied, idle,
  TpmLocalityState, closed, opened, num_localities, no_active_locality,
}
use odp_secure_services.Tpm.InterfaceIdentifier.{
  set_interface_type, set_interface_version, set_cap_locality, set_cap_crb,
}
use odp_secure_services.Tpm.Command.{
  TpmSstOps, TpmService, init_internal_crb, clean_internal_crb, handle_command,
  handle_locality_request,
}

pub record TpmRequest : Type 0 where
  pub opcode : ℕ
  pub function : ℕ
  pub locality : ℕ

pub record TpmResponse : Type 0 where
  pub tpm_status : ℕ
  pub tpm_payload : ℕ

-- `TpmRequest::from`.
unfoldable pub tpm_request_from : MsgSendDirectReq2 → Option TpmRequest
tpm_request_from msg = do
  opcode ← register_at msg.payload 0
  function ← register_at msg.payload 1
  locality ← register_at msg.payload 2
  some (record { opcode = opcode; function = function; locality = locality })

-- `DirectMessagePayload::from(resp)`.
unfoldable pub payload_from_response : TpmResponse → Option DirectMessagePayload
payload_from_response resp = from_iter (register_bytes (resp.tpm_status ∷ resp.tpm_payload ∷ []))

abbrev pub tpm_major_ver : ℕ
tpm_major_ver = 1

abbrev pub tpm_minor_ver : ℕ
tpm_minor_ver = 0

abbrev pub start_func_qualifier_command : ℕ
start_func_qualifier_command = 0

abbrev pub start_func_qualifier_locality : ℕ
start_func_qualifier_locality = 1

abbrev pub manage_locality_open : ℕ
manage_locality_open = 0

abbrev pub manage_locality_close : ℕ
manage_locality_close = 1

abbrev pub is_closed : TpmLocalityState → Bool
is_closed closed = true
is_closed opened = false

-- A status, and the payload register of the response where a handler sets it.
unfoldable pub get_interface_version_handler : TpmStatus × ℕ
get_interface_version_handler = (ok_results_returned, tpm_major_ver * 2 ^ 16 + tpm_minor_ver)

unfoldable pub get_feature_info_handler : TpmRequest → TpmStatus × ℕ
get_feature_info_handler request =
    if request.function == function_code register_for_notification
    then (ok_results_returned, 1)
    else (not_sup, 0)

module _ {S : Type 0} where
  unfoldable pub register_handler : TpmService S → TpmService S × TpmStatus
  register_handler s =
      if s.notification_registered
      then (s, already)
      else (record s { notification_registered = true }, TpmStatus.ok)

  unfoldable pub unregister_handler : TpmService S → TpmService S × TpmStatus
  unregister_handler s =
      if s.notification_registered
      then (record s { notification_registered = false }, TpmStatus.ok)
      else (s, denied)

  unfoldable pub finish_handler : TpmService S → TpmService S × TpmStatus
  finish_handler s = if s.notification_registered then (s, TpmStatus.ok) else (s, denied)

  unfoldable pub manage_locality_handler : TpmRequest → TpmService S → TpmService S × TpmStatus
  manage_locality_handler request s =
      let locality_operation = request.function % 2 ^ 16 in
      let locality = request.locality % 2 ^ 8 in
      if leb num_localities locality
      then (s, inv_arg)
      else if locality_operation == manage_locality_open
      then (record s { locality_states = set s.locality_states locality opened }, TpmStatus.ok)
      else if locality_operation == manage_locality_close
      then (record s { locality_states = set s.locality_states locality closed }, TpmStatus.ok)
      else (s, inv_arg)

  unfoldable pub reset_runtime_state : TpmService S → TpmService S
  reset_runtime_state s = record s {
    current_state = idle;
    active_locality = no_active_locality;
    notification_registered = false;
  }

  unfoldable pub deinit : TpmService S → TpmService S
  deinit s = record (reset_runtime_state s) { locality_states = replicate num_localities closed }

  -- `TpmService::new`. The contents of the internal memory are whatever they were.
  unfoldable pub new : S → ℕ → (ℕ → PtpCrbRegisters) → TpmService S
  new sst address memory = record {
    current_state = idle;
    active_locality = no_active_locality;
    interface_id_default = 0;
    locality_states = replicate num_localities closed;
    tpm_internal_crb_address = address;
    notification_registered = false;
    sst = sst;
    crbs = memory;
  }

-- The interface identifier that `init` builds.
unfoldable pub default_interface_id : ℕ
default_interface_id =
    set_cap_crb (set_cap_locality (set_interface_version (set_interface_type 0 1) 1) 1) 1

module _ {S : Type 0} (ops : TpmSstOps S) where
  unfoldable pub init : TpmService S → TpmService S
  init s =
      let s0 = record s { interface_id_default = default_interface_id } in
      let s1 = init_internal_crb 4 (
        init_internal_crb 3 (init_internal_crb 2 (init_internal_crb 1 (init_internal_crb 0 s0)))) in
      let s2 = record s1 { locality_states = opened ∷ opened ∷ closed ∷ closed ∷ closed ∷ [] } in
      reset_runtime_state (record s2 { sst = ops.init s2.sst })

  -- The checks and the choice of `start_handler`, before it cleans the active block.
  unfoldable pub start_choice : TpmRequest → TpmService S → TpmService S × TpmStatus
  start_choice request s =
      let function = request.function % 2 ^ 16 in
      let locality = request.locality % 2 ^ 8 in
      if leb num_localities locality
      then (s, inv_arg)
      else if is_closed (get_or s.locality_states locality closed)
      then (s, denied)
      else if function == start_func_qualifier_command
      then (if locality == s.active_locality then handle_command ops s else (s, inv_arg))
      else if function == start_func_qualifier_locality
      then handle_locality_request ops locality s
      else (s, inv_arg)

  unfoldable pub start_handler : TpmRequest → TpmService S → TpmService S × TpmStatus
  start_handler request s =
      let (s', status) = start_choice request s in (clean_internal_crb s', status)

  -- The status of a handler, with no payload.
  abbrev plain : TpmService S × TpmStatus → TpmService S × TpmResponse
  plain (s, status) = (s, record { tpm_status = status_code status; tpm_payload = 0 })

  abbrev with_payload : TpmService S → TpmStatus × ℕ → TpmService S × TpmResponse
  with_payload s (status, payload) =
      (s, record { tpm_status = status_code status; tpm_payload = payload })

  -- The `match req_payload.opcode`. Managing a locality is for a logical partition of TF-A only.
  unfoldable pub serve : ℕ → TpmRequest → TpmService S → TpmService S × TpmResponse
  serve source_id request s =
      if request.opcode == function_code get_interface_version
      then with_payload s get_interface_version_handler
      else if request.opcode == function_code get_feature_info
      then with_payload s (get_feature_info_handler request)
      else if request.opcode == function_code start
      then plain (start_handler request s)
      else if request.opcode == function_code register_for_notification
      then plain (register_handler s)
      else if request.opcode == function_code unregister_for_notification
      then plain (unregister_handler s)
      else if request.opcode == function_code finish_notified
      then plain (finish_handler s)
      else if request.opcode == function_code manage_locality
      then (if bit_and source_id 0xFF00 == 0xFF00
          then plain (manage_locality_handler request s)
          else plain (s, denied))
      else plain (s, no_func)

  -- `Service::ffa_msg_send_direct_req2`; `none` is a panic.
  unfoldable pub handle :
      TpmService S → MsgSendDirectReq2 → Option (TpmService S × Result Error MsgSendDirectResp2)
  handle s msg = do
    request ← tpm_request_from msg
    let served = serve msg.source_id request s
    payload ← payload_from_response served.1
    some (served.0, ok (from_req_with_payload msg payload))
