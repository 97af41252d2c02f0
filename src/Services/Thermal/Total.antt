-- ===== src/Services/Thermal/Total.antt =====
-- services/thermal.rs: every message is answered.
use odp_secure_services.Services.Common.{local_error_sentinel, Handled}
use odp_secure_services.Ffa.Payload.{payload_len, IsPayload}
use odp_secure_services.Ffa.Message.{MsgSendDirectReq2}
use odp_secure_services.Base.Bytes.{IsByte}
use odp_secure_services.Relay.Interface.{invoke_request, RelayLaws, Relay}
use odp_secure_services.Base.{
  ◌==◌, err, none, true, ok, some, if◌then◌else◌, ◌≤◌, arith, length, Option, Bool, Result, All, ℕ,
}
use odp_secure_services.Services.Thermal.{
  command_id, thermal_service_id, invalid_parameter_status, variable_value_len, request_len,
  parse_threshold, setter_status, set_var, get_var, set_scp, threshold_response, get_threshold,
  ThermalError, set_threshold, threshold_bytes, get_temperature, handle, serve, serve_command,
  relay_error,
}
use odp_secure_services.Services.Thermal.Command.{ThermalCommand, try_from}
use odp_secure_services.Services.Total.{
  Yields-any, Answers, respond-Answers, scalar_response-Answers, getter_response-Answers,
  setter_response-Answers, parsed_or_sentinel-Answers, u8_at-Answers, call_total,
}
use odp_secure_services.Services.Common.{parse_ffa_request, parse_u32}
use odp_secure_services.Base.{true, false}
use odp_secure_services.Base.Options.{returns, Returns->>=}

threshold_bytes-IsByte :
    (a b c : ℕ)
    → All IsByte (threshold_bytes a b c) × (length (threshold_bytes a b c) ≤ payload_len)
threshold_bytes-IsByte a b c = (omega arith, omega arith)

module _ {R : Type 0} (relay : Relay R) (laws : RelayLaws relay) where
  threshold_response-Answers :
      (msg : MsgSendDirectReq2) (r : R) (result : Result ThermalError (ℕ × ℕ × ℕ))
      → laws.Valid r
      → Answers relay laws msg (threshold_response relay msg r result)
  threshold_response-Answers msg r (ok (a, b, c)) v =
      let (bytes, short) = threshold_bytes-IsByte a b c in
      respond-Answers relay laws msg r (threshold_bytes a b c) v bytes short
  threshold_response-Answers msg r (err e) v =
      let x = local_error_sentinel in
      let (bytes, short) = threshold_bytes-IsByte x x x in
      respond-Answers relay laws msg r (threshold_bytes x x x) v bytes short

  guarded-Answers :
      (msg : MsgSendDirectReq2) (test : Bool) (yes_branch no_branch : Handled R)
      → Answers relay laws msg yes_branch
      → Answers relay laws msg no_branch
      → Answers relay laws msg (if test then yes_branch else no_branch)
  guarded-Answers msg true a b p q = p
  guarded-Answers msg false a b p q = q

  serve-Answers :
      (r : R) (msg : MsgSendDirectReq2) (command : ThermalCommand)
      → IsPayload msg.payload
      → laws.Valid r
      → Answers relay laws msg (serve relay r msg command)
  unfolding serve get_temperature set_threshold get_threshold set_scp get_var set_var invoke_request
  serve-Answers r msg ThermalCommand.get_tmp p v =
      u8_at-Answers relay laws msg 1 _ p (omega arith)
        λ instance_id. getter_response-Answers relay laws relay_error msg _ _ _ _ _ r v
  serve-Answers r msg ThermalCommand.set_thrs p v =
      parsed_or_sentinel-Answers relay laws msg r _ _ v
        λ request. setter_response-Answers relay laws relay_error setter_status msg _ _ _ _ r v
  serve-Answers r msg ThermalCommand.get_thrs p v =
      u8_at-Answers relay laws msg 1 _ p (omega arith) λ instance_id.
        Returns->>= _
          (call_total relay laws (λ _. Unit {0}) relay_error _ _ _ _ _ r v
            (λ body _. Yields-any (parse_threshold body)))
          (λ x (valid, _). threshold_response-Answers msg x.0 x.1 valid)
  serve-Answers r msg ThermalCommand.set_scp p v =
      parsed_or_sentinel-Answers relay laws msg r _ _ v
        λ request. setter_response-Answers relay laws relay_error setter_status msg _ _ _ _ r v
  serve-Answers r msg ThermalCommand.get_var p v =
      parsed_or_sentinel-Answers relay laws msg r (parse_ffa_request 19 msg.payload) _ v λ request.
        guarded-Answers msg (request_len request == variable_value_len) _ _
          (getter_response-Answers relay laws relay_error msg thermal_service_id
            (command_id ThermalCommand.get_var) (command_id ThermalCommand.get_var) request
            parse_u32 r v)
          (scalar_response-Answers relay laws msg r local_error_sentinel v)
  serve-Answers r msg ThermalCommand.set_var p v =
      parsed_or_sentinel-Answers relay laws msg r (parse_ffa_request 23 msg.payload) _ v λ request.
        guarded-Answers msg (request_len request == variable_value_len) _ _
          (setter_response-Answers relay laws relay_error setter_status msg thermal_service_id
            (command_id ThermalCommand.set_var) (command_id ThermalCommand.set_var) request r v)
          (scalar_response-Answers relay laws msg r invalid_parameter_status v)

  serve_command-Answers :
      (r : R) (msg : MsgSendDirectReq2) (command : Option ThermalCommand)
      → IsPayload msg.payload
      → laws.Valid r
      → Answers relay laws msg (serve_command relay r msg command)
  unfolding serve_command
  serve_command-Answers r msg none p v = returns _ (v, tt)
  serve_command-Answers r msg (some command) p v = serve-Answers r msg command p v

  pub handle-Answers :
      (r : R) (msg : MsgSendDirectReq2)
      → IsPayload msg.payload
      → laws.Valid r
      → Answers relay laws msg (handle relay r msg)
  unfolding handle
  handle-Answers r msg p v =
      u8_at-Answers relay laws msg 0 _ p (omega arith)
        (λ byte. serve_command-Answers r msg (try_from byte) p v)
