-- ===== src/Services/TimeAlarm/Wire.antt =====
-- services/time_alarm.rs: the exchange that each command is, from the request's payload to the answer.
use odp_secure_services.Relay.Header.{build_odp_header}
use odp_secure_services.Ffa.Payload.{u8_at, IsPayload}
use odp_secure_services.Ffa.Message.{MsgSendDirectReq2}
use odp_secure_services.Relay.Interface.{
  check_response, invoke_request_with_response_id, OdpResponse, Relay,
}
use odp_secure_services.Services.Common.{parse_empty_response, scalar_response}
use odp_secure_services.Base.{ap, ◌∙◌, arith, true, refl, some, ◌≡◌, ℕ}
use odp_secure_services.Services.TimeAlarm.{
  get_expired_timer_policy, get_timer_value, get_wake_status, set_timer_value, get_capabilities,
  handle, serve, serve_command, relay_error,
}
use odp_secure_services.Services.TimeAlarm.Command.{TimeAlarmCommand, command_id, try_from}
use odp_secure_services.Services.Relayed.{
  parse_ffa_request-arguments, arguments, Responds, reading, status, getter_response-reading,
  checked_status,
}

-- The commands that read a word: the bytes of their request and the id of their response.
pub data Getter : TimeAlarmCommand → ℕ → ℕ → Type 0 where
  reads_capabilities : Getter TimeAlarmCommand.get_capabilities 0 1
  reads_wake_status : Getter TimeAlarmCommand.get_wake_status 4 3
  reads_timer_value : Getter TimeAlarmCommand.get_timer_value 4 5
  reads_wake_policy : Getter TimeAlarmCommand.get_expired_timer_policy 4 4

try_from-command_id : (c : TimeAlarmCommand) → try_from (command_id c) ≡ some c
unfolding try_from command_id
try_from-command_id TimeAlarmCommand.get_capabilities = refl
try_from-command_id TimeAlarmCommand.get_real_time = refl
try_from-command_id TimeAlarmCommand.get_wake_status = refl
try_from-command_id TimeAlarmCommand.set_timer_value = refl
try_from-command_id TimeAlarmCommand.get_timer_value = refl
try_from-command_id TimeAlarmCommand.get_expired_timer_policy = refl

module _ {R : Type 0} (relay : Relay R) where
  handle-serve :
      (r : R) (msg : MsgSendDirectReq2) (c : TimeAlarmCommand)
      → u8_at msg.payload 0 ≡ some (command_id c)
      → handle relay r msg ≡ serve relay r msg c
  unfolding handle serve_command
  handle-serve r msg c e = rw e (ap (λ o. serve_command relay r msg o) (try_from-command_id c))

  serve-Getter :
      (r r' : R) (msg : MsgSendDirectReq2) (c : TimeAlarmCommand) (n id : ℕ)
      (response : OdpResponse)
      → Getter c n id
      → IsPayload msg.payload
      → Responds relay r (build_odp_header true 0x0B (command_id c)) (arguments n msg) response r'
      → serve relay r msg c ≡ scalar_response msg r' (reading 0x0B id response)
  unfolding serve get_capabilities get_wake_status get_timer_value get_expired_timer_policy
  serve-Getter r r' msg c n id response reads_capabilities p answer =
      getter_response-reading relay relay_error msg 0x0B _ _ _ r r' response answer
  serve-Getter r r' msg c n id response reads_wake_status p answer =
      rw (parse_ffa_request-arguments 4 msg p (omega arith))
        (getter_response-reading relay relay_error msg 0x0B _ _ _ r r' response answer)
  serve-Getter r r' msg c n id response reads_timer_value p answer =
      rw (parse_ffa_request-arguments 4 msg p (omega arith))
        (getter_response-reading relay relay_error msg 0x0B _ _ _ r r' response answer)
  serve-Getter r r' msg c n id response reads_wake_policy p answer =
      rw (parse_ffa_request-arguments 4 msg p (omega arith))
        (getter_response-reading relay relay_error msg 0x0B _ _ _ r r' response answer)

  -- Each command that reads a word is one exchange with the embedded controller: a request to service
  -- 0x0B with the command's id and the arguments of the message, in a payload of 112 bytes. The answer
  -- is the word of the response, if it is a success of the service with the id of the command's
  -- response and four bytes, and 0xFFFFFFFF otherwise.
  pub handle-Getter :
      (r r' : R) (msg : MsgSendDirectReq2) (c : TimeAlarmCommand) (n id : ℕ)
      (response : OdpResponse)
      → Getter c n id
      → u8_at msg.payload 0 ≡ some (command_id c)
      → IsPayload msg.payload
      → Responds relay r (build_odp_header true 0x0B (command_id c)) (arguments n msg) response r'
      → handle relay r msg ≡ scalar_response msg r' (reading 0x0B id response)
  handle-Getter r r' msg c n id response g first p answer =
      handle-serve r msg c first ∙ serve-Getter r r' msg c n id response g p answer

  -- SetTimerValue is one exchange with the embedded controller: a request to service 0x0B with its id
  -- and the eight bytes of its arguments, in a payload of 112 bytes. The answer is 0, if the response is
  -- an empty success of the service with id 6, the error's number, if it is an error of the service, and
  -- 0xFFFFFFFF otherwise.
  pub handle-set_timer_value :
      (r r' : R) (msg : MsgSendDirectReq2) (response : OdpResponse)
      → u8_at msg.payload 0 ≡ some 6
      → IsPayload msg.payload
      → Responds relay r (build_odp_header true 0x0B 6) (arguments 8 msg) response r'
      → handle relay r msg ≡ scalar_response msg r' (status 0x0B 6 response)
  unfolding serve set_timer_value invoke_request_with_response_id command_id
  handle-set_timer_value r r' msg response first p answer =
      handle-serve r msg TimeAlarmCommand.set_timer_value first
      ∙ rw
          (
            parse_ffa_request-arguments 8 msg p (omega arith),
            answer _ (check_response 0x0B 6 parse_empty_response),
          )
          (ap (λ (v : ℕ). scalar_response msg r' v) (checked_status 0x0B 6 response))
