-- ===== src/Services/TimeAlarm.antt =====
-- services/time_alarm.rs: `TimeAlarm` over a relay, whose state is what the `RefCell` holds.
pub mod Command
pub mod Total
pub mod Wire
use odp_secure_services.Ffa.Error.{unknown_time_alarm_command, other}
use odp_secure_services.Base.Results.{unwrap_or}
use odp_secure_services.Ffa.Payload.{u8_at}
use odp_secure_services.Services.Common.{
  scalar_response, parsed_or_sentinel, respond, local_error_sentinel, getter_response,
  parse_empty_response, parse_u32, Handled, with_error, parse_ffa_request,
}
use odp_secure_services.Relay.Interface.{invoke_request_with_response_id, invoke_request, Relay}
use odp_secure_services.Relay.Header.{take_exact_array, remote, EcRelayError}
use odp_secure_services.Ffa.Message.{MsgSendDirectReq2, Uuid}
use odp_secure_services.Base.{none, some, replicate, [], err, List, Option, ok, Result, ℕ}
use odp_secure_services.Services.TimeAlarm.Command.{
  command_id, wake_policy, timer_seconds, ok_no_data, timer_status, capabilities, TimeAlarmCommand,
  try_from,
}
use odp_secure_services.Base.Options.{◌>>=◌}

abbrev pub time_alarm_service_id : ℕ
time_alarm_service_id = 0x0B

abbrev pub time_alarm_uuid : Uuid
time_alarm_uuid = 0x23ea63edb59346eab0278924df88e92f

abbrev pub acpi_timestamp_len : ℕ
acpi_timestamp_len = 16

-- `TimeAlarmError`.
pub data TimeAlarmError : Type 0 where
  relay_error : EcRelayError → TimeAlarmError

unfoldable pub setter_status : Result TimeAlarmError (Unit {0}) → ℕ
setter_status (ok _) = 0
setter_status (err (relay_error (remote code))) = code
setter_status (err (relay_error e)) = local_error_sentinel

module _ {R : Type 0} (relay : Relay R) where
  unfoldable pub get_real_time : R → Option (R × Result TimeAlarmError (List ℕ))
  get_real_time r =
      with_error relay_error
        (invoke_request relay time_alarm_service_id 2 [] (take_exact_array acpi_timestamp_len) r)

  -- A request whose response has an id of its own.
  abbrev exchange :
      {A : Type 0}
      → TimeAlarmCommand
      → ℕ
      → List ℕ
      → (List ℕ → Result EcRelayError A)
      → R
      → Option (R × Result TimeAlarmError A)
  exchange command response_id request parse r = with_error relay_error (
      invoke_request_with_response_id relay time_alarm_service_id (command_id command) response_id
        request parse r)

  unfoldable pub get_capabilities : R → Option (R × Result TimeAlarmError ℕ)
  get_capabilities = exchange TimeAlarmCommand.get_capabilities capabilities [] parse_u32

  unfoldable pub get_wake_status : List ℕ → R → Option (R × Result TimeAlarmError ℕ)
  get_wake_status request = exchange TimeAlarmCommand.get_wake_status timer_status request parse_u32

  unfoldable pub set_timer_value : List ℕ → R → Option (R × Result TimeAlarmError (Unit {0}))
  set_timer_value request =
      exchange TimeAlarmCommand.set_timer_value ok_no_data request parse_empty_response

  unfoldable pub get_timer_value : List ℕ → R → Option (R × Result TimeAlarmError ℕ)
  get_timer_value request =
      exchange TimeAlarmCommand.get_timer_value timer_seconds request parse_u32

  unfoldable pub get_expired_timer_policy : List ℕ → R → Option (R × Result TimeAlarmError ℕ)
  get_expired_timer_policy request =
      exchange TimeAlarmCommand.get_expired_timer_policy wake_policy request parse_u32

  -- The arms of `ffa_msg_send_direct_req2`. The requests are of 4 bytes, that of SetTimerValue of 8.
  unfoldable pub serve : R → MsgSendDirectReq2 → TimeAlarmCommand → Handled R
  unfolding get_real_time get_capabilities get_wake_status set_timer_value get_timer_value
      get_expired_timer_policy parse_ffa_request setter_status
  serve r msg TimeAlarmCommand.get_capabilities = getter_response msg (get_capabilities r)
  serve r msg TimeAlarmCommand.get_real_time = get_real_time r >>= λ (r', result).
      respond msg r' (unwrap_or result (replicate acpi_timestamp_len 0))
  serve r msg TimeAlarmCommand.get_wake_status =
      parsed_or_sentinel msg r (parse_ffa_request 4 msg.payload)
        λ request. getter_response msg (get_wake_status request r)
  serve r msg TimeAlarmCommand.set_timer_value =
      parsed_or_sentinel msg r (parse_ffa_request 8 msg.payload) λ request.
        set_timer_value request r >>= λ (r', result). scalar_response msg r' (setter_status result)
  serve r msg TimeAlarmCommand.get_timer_value =
      parsed_or_sentinel msg r (parse_ffa_request 4 msg.payload)
        λ request. getter_response msg (get_timer_value request r)
  serve r msg TimeAlarmCommand.get_expired_timer_policy =
      parsed_or_sentinel msg r (parse_ffa_request 4 msg.payload)
        λ request. getter_response msg (get_expired_timer_policy request r)

  unfoldable pub serve_command : R → MsgSendDirectReq2 → Option TimeAlarmCommand → Handled R
  unfolding serve
  serve_command r msg none = some (r, err (other unknown_time_alarm_command))
  serve_command r msg (some command) = serve r msg command

  -- `ffa_msg_send_direct_req2`.
  unfoldable pub handle : R → MsgSendDirectReq2 → Handled R
  unfolding serve_command
  handle r msg = u8_at msg.payload 0 >>= λ byte. elim (try_from byte) [
    | none ↦ some (r, err (other unknown_time_alarm_command))
    | some command ↦ serve r msg command
  ]
