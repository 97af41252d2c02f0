-- ===== src/Services/TimeAlarm/Total.antt =====
-- services/time_alarm.rs: every message is answered.
use odp_secure_services.Ffa.Payload.{IsPayload}
use odp_secure_services.Base.Bytes.{IsByte}
use odp_secure_services.Base.Results.{unwrap_or, Yields}
use odp_secure_services.Base.{
  err, arith, ok, replicate, ◌≡◌, length, All, none, ℕ, some, List, Option, Result,
}
use odp_secure_services.Ffa.Message.{MsgSendDirectReq2}
use odp_secure_services.Relay.Interface.{invoke_request, RelayLaws, Relay}
use odp_secure_services.Services.TimeAlarm.{
  acpi_timestamp_len, setter_status, respond, get_expired_timer_policy, get_timer_value,
  set_timer_value, get_wake_status, TimeAlarmError, get_real_time, get_capabilities, handle, serve,
  serve_command, relay_error,
}
use odp_secure_services.Services.TimeAlarm.Command.{TimeAlarmCommand, try_from}
use odp_secure_services.Services.Total.{
  Answers, respond-Answers, getter_response-Answers, setter_response-Answers,
  parsed_or_sentinel-Answers, u8_at-Answers, call_total, take_exact_array-Yields,
}
use odp_secure_services.Base.Options.{returns, Returns->>=}

module _ {R : Type 0} (relay : Relay R) (laws : RelayLaws relay) where
  timestamp-Answers :
      (msg : MsgSendDirectReq2) (r : R) (result : Result TimeAlarmError (List ℕ))
      → laws.Valid r
      → Yields (λ (l : List ℕ). All IsByte l × (length l ≡ 16)) result
      → Answers relay laws msg (respond msg r (unwrap_or result (replicate acpi_timestamp_len 0)))
  timestamp-Answers msg r (ok bytes) v (k, n) =
      respond-Answers relay laws msg r bytes v k (omega arith)
  timestamp-Answers msg r (err e) v k =
      respond-Answers relay laws msg r (replicate acpi_timestamp_len 0) v (omega arith)
        (omega arith)

  serve-Answers :
      (r : R) (msg : MsgSendDirectReq2) (command : TimeAlarmCommand)
      → laws.Valid r
      → Answers relay laws msg (serve relay r msg command)
  unfolding serve get_capabilities get_real_time get_wake_status set_timer_value get_timer_value
      get_expired_timer_policy invoke_request
  serve-Answers r msg TimeAlarmCommand.get_capabilities v =
      getter_response-Answers relay laws relay_error msg _ _ _ _ _ r v
  serve-Answers r msg TimeAlarmCommand.get_real_time v =
      Returns->>= _
        (call_total relay laws (λ (l : List ℕ). All IsByte l × (length l ≡ 16)) relay_error _ _ _ _
          _ r v (take_exact_array-Yields 16))
        (λ x (valid, k). timestamp-Answers msg x.0 x.1 valid k)
  serve-Answers r msg TimeAlarmCommand.get_wake_status v =
      parsed_or_sentinel-Answers relay laws msg r _ _ v
        λ request. getter_response-Answers relay laws relay_error msg _ _ _ _ _ r v
  serve-Answers r msg TimeAlarmCommand.set_timer_value v =
      parsed_or_sentinel-Answers relay laws msg r _ _ v
        λ request. setter_response-Answers relay laws relay_error setter_status msg _ _ _ _ r v
  serve-Answers r msg TimeAlarmCommand.get_timer_value v =
      parsed_or_sentinel-Answers relay laws msg r _ _ v
        λ request. getter_response-Answers relay laws relay_error msg _ _ _ _ _ r v
  serve-Answers r msg TimeAlarmCommand.get_expired_timer_policy v =
      parsed_or_sentinel-Answers relay laws msg r _ _ v
        λ request. getter_response-Answers relay laws relay_error msg _ _ _ _ _ r v

  serve_command-Answers :
      (r : R) (msg : MsgSendDirectReq2) (command : Option TimeAlarmCommand)
      → laws.Valid r
      → Answers relay laws msg (serve_command relay r msg command)
  unfolding serve_command
  serve_command-Answers r msg none v = returns _ (v, tt)
  serve_command-Answers r msg (some command) v = serve-Answers r msg command v

  pub handle-Answers :
      (r : R) (msg : MsgSendDirectReq2)
      → IsPayload msg.payload
      → laws.Valid r
      → Answers relay laws msg (handle relay r msg)
  unfolding handle
  handle-Answers r msg p v =
      u8_at-Answers relay laws msg 0 _ p (omega arith)
        (λ byte. serve_command-Answers r msg (try_from byte) v)
