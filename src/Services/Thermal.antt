-- ===== src/Services/Thermal.antt =====
-- services/thermal.rs: `Thermal` over a relay, whose state is what the `RefCell` holds.
pub mod Command
pub mod Total
pub mod Wire
use odp_secure_services.Ffa.Error.{unknown_thermal_command, other}
use odp_secure_services.Ffa.Payload.{u8_at}
use odp_secure_services.Services.Common.{
  parsed_or_sentinel, getter_response, local_error_sentinel, respond, scalar_response, Handled,
  parse_u32, parse_empty_response, with_error, parse_ffa_request,
}
use odp_secure_services.Base.Bytes.{from_le_bytes, le_bytes}
use odp_secure_services.Relay.Interface.{invoke_request, Relay}
use odp_secure_services.Relay.Header.{remote, take_exact_array, take_array, EcRelayError}
use odp_secure_services.Ffa.Message.{MsgSendDirectReq2, Uuid}
use odp_secure_services.Base.{
  ◌==◌, none, if◌then◌else◌, [], drop, some, ◌∷◌, take, ◌++◌, err, Option, ok, List, Result, ℕ,
}
use odp_secure_services.Services.Thermal.Command.{
  get_thrs, set_thrs, get_tmp, ThermalCommand, try_from, command_id,
}
use odp_secure_services.Base.Options.{◌>>=◌}
use odp_secure_services.Base.Results

abbrev pub thermal_service_id : ℕ
thermal_service_id = 0x09

abbrev pub thermal_uuid : Uuid
thermal_uuid = 0x31f56da7593c4d72a4b38fc7171ac073

abbrev pub invalid_parameter_status : ℕ
invalid_parameter_status = 1

abbrev pub variable_value_len : ℕ
variable_value_len = 4

-- `ThermalError`.
pub data ThermalError : Type 0 where
  relay_error : EcRelayError → ThermalError
  unexpected_response : ThermalError

unfoldable pub setter_status : Result ThermalError (Unit {0}) → ℕ
setter_status (ok _) = 0
setter_status (err (relay_error (remote code))) = code
setter_status (err (relay_error e)) = local_error_sentinel
setter_status (err unexpected_response) = local_error_sentinel

-- The bytes of `threshold_payload`.
abbrev pub threshold_bytes : ℕ → ℕ → ℕ → List ℕ
threshold_bytes timeout low high = le_bytes 4 timeout ++ (le_bytes 4 low ++ le_bytes 4 high)

-- The closure of `get_threshold`.
unfoldable pub parse_threshold : List ℕ → Result EcRelayError (ℕ × ℕ × ℕ)
unfolding take_array take_exact_array
parse_threshold body = Results.◌>>=◌ (take_array 4 body) λ (timeout, body').
    Results.◌>>=◌ (take_array 4 body') λ (low, body'').
      Results.◌>>=◌ (take_exact_array 4 body'')
        λ high. ok (from_le_bytes timeout, from_le_bytes low, from_le_bytes high)

-- `request.len` of a variable request: the second and third byte.
abbrev pub request_len : List ℕ → ℕ
request_len request = from_le_bytes (take 2 (drop 1 request))

module _ {R : Type 0} (relay : Relay R) where
  abbrev exchange :
      {A : Type 0}
      → ThermalCommand
      → List ℕ
      → (List ℕ → Result EcRelayError A)
      → R
      → Option (R × Result ThermalError A)
  exchange command request parse r =
      with_error relay_error
        (invoke_request relay thermal_service_id (command_id command) request parse r)

  unfoldable pub get_temperature : ℕ → R → Option (R × Result ThermalError ℕ)
  get_temperature instance_id = exchange get_tmp (instance_id ∷ []) parse_u32

  unfoldable pub set_threshold : List ℕ → R → Option (R × Result ThermalError (Unit {0}))
  set_threshold request = exchange set_thrs request parse_empty_response

  unfoldable pub get_threshold : ℕ → R → Option (R × Result ThermalError (ℕ × ℕ × ℕ))
  get_threshold instance_id = exchange get_thrs (instance_id ∷ []) parse_threshold

  unfoldable pub set_scp : List ℕ → R → Option (R × Result ThermalError (Unit {0}))
  set_scp request = exchange ThermalCommand.set_scp request parse_empty_response

  unfoldable pub get_var : List ℕ → R → Option (R × Result ThermalError ℕ)
  get_var request = exchange ThermalCommand.get_var request parse_u32

  unfoldable pub set_var : List ℕ → R → Option (R × Result ThermalError (Unit {0}))
  set_var request = exchange ThermalCommand.set_var request parse_empty_response

  -- The status of a setter.
  abbrev setter_response :
      MsgSendDirectReq2 → Option (R × Result ThermalError (Unit {0})) → Handled R
  unfolding setter_status
  setter_response msg call = call >>= λ (r, result). scalar_response msg r (setter_status result)

  -- What follows `get_threshold`.
  abbrev threshold_response : MsgSendDirectReq2 → R → Result ThermalError (ℕ × ℕ × ℕ) → Handled R
  threshold_response msg r (ok (timeout, low, high)) =
      respond msg r (threshold_bytes timeout low high)
  threshold_response msg r (err e) =
      respond msg r (threshold_bytes local_error_sentinel local_error_sentinel local_error_sentinel)

  -- The arms of `ffa_msg_send_direct_req2`. SetThrs and SetScp take 13 bytes, GetVar 19 and SetVar 23.
  unfoldable pub serve : R → MsgSendDirectReq2 → ThermalCommand → Handled R
  unfolding get_temperature set_threshold get_threshold set_scp get_var set_var parse_ffa_request
      setter_status
  serve r msg ThermalCommand.get_tmp =
      u8_at msg.payload 1 >>= λ instance_id. getter_response msg (get_temperature instance_id r)
  serve r msg ThermalCommand.set_thrs =
      parsed_or_sentinel msg r (parse_ffa_request 13 msg.payload)
        λ request. setter_response msg (set_threshold request r)
  serve r msg ThermalCommand.get_thrs = u8_at msg.payload 1 >>= λ instance_id.
      get_threshold instance_id r >>= λ (r', result). threshold_response msg r' result
  serve r msg ThermalCommand.set_scp =
      parsed_or_sentinel msg r (parse_ffa_request 13 msg.payload)
        λ request. setter_response msg (set_scp request r)
  serve r msg ThermalCommand.get_var =
      parsed_or_sentinel msg r (parse_ffa_request 19 msg.payload) λ request.
        if request_len request == variable_value_len
        then getter_response msg (get_var request r)
        else scalar_response msg r local_error_sentinel
  serve r msg ThermalCommand.set_var =
      parsed_or_sentinel msg r (parse_ffa_request 23 msg.payload) λ request.
        if request_len request == variable_value_len
        then setter_response msg (set_var request r)
        else scalar_response msg r invalid_parameter_status

  unfoldable pub serve_command : R → MsgSendDirectReq2 → Option ThermalCommand → Handled R
  unfolding serve
  serve_command r msg none = some (r, err (other unknown_thermal_command))
  serve_command r msg (some command) = serve r msg command

  -- `ffa_msg_send_direct_req2`.
  unfoldable pub handle : R → MsgSendDirectReq2 → Handled R
  unfolding serve_command
  handle r msg = u8_at msg.payload 0 >>= λ cmd. serve_command r msg (try_from cmd)
