-- ===== src/Services/Thermal/Wire.antt =====
-- services/thermal.rs: the exchange that each command is, from the request's payload to the answer.
use odp_secure_services.Services.Common.{parse_empty_response, scalar_response}
use odp_secure_services.Relay.Header.{build_odp_header}
use odp_secure_services.Ffa.Payload.{IsPayload, u8_at}
use odp_secure_services.Relay.Interface.{
  check_response, invoke_request_with_response_id, invoke_request, OdpResponse, Relay,
}
use odp_secure_services.Base.{arith, false, ◌∙◌, ◌==◌, true, ◌≢◌, ap, refl, some, ℕ, ◌≡◌}
use odp_secure_services.Ffa.Message.{MsgSendDirectReq2}
use odp_secure_services.Services.Thermal.{
  set_var, set_scp, request_len, set_threshold, handle, serve, serve_command,
}
use odp_secure_services.Services.Thermal.Command.{ThermalCommand, command_id, try_from}
use odp_secure_services.Services.Relayed.{
  Responds, status, arguments, thermal_checked_status, parse_ffa_request-arguments,
}

-- The commands with a status and the bytes of their requests; that of SetVar names a value of four
-- bytes.
pub data Setter (msg : MsgSendDirectReq2) : ThermalCommand → ℕ → Type 0 where
  sets_threshold : Setter msg ThermalCommand.set_thrs 13
  sets_policy : Setter msg ThermalCommand.set_scp 13
  sets_variable : request_len (arguments 23 msg) ≡ 4 → Setter msg ThermalCommand.set_var 23

-- The commands whose variable is not of four bytes, and the answer of each.
pub data Refused (msg : MsgSendDirectReq2) : ThermalCommand → ℕ → Type 0 where
  reads_no_word : request_len (arguments 19 msg) ≢ 4 → Refused msg ThermalCommand.get_var 0xFFFFFFFF
  sets_no_word : request_len (arguments 23 msg) ≢ 4 → Refused msg ThermalCommand.set_var 1

try_from-command_id : (c : ThermalCommand) → try_from (command_id c) ≡ some c
unfolding try_from command_id
try_from-command_id ThermalCommand.get_tmp = refl
try_from-command_id ThermalCommand.set_thrs = refl
try_from-command_id ThermalCommand.get_thrs = refl
try_from-command_id ThermalCommand.set_scp = refl
try_from-command_id ThermalCommand.get_var = refl
try_from-command_id ThermalCommand.set_var = refl

module _ {R : Type 0} (relay : Relay R) where
  handle-serve :
      (r : R) (msg : MsgSendDirectReq2) (c : ThermalCommand)
      → u8_at msg.payload 0 ≡ some (command_id c)
      → handle relay r msg ≡ serve relay r msg c
  unfolding handle serve_command
  handle-serve r msg c e = rw e (ap (λ o. serve_command relay r msg o) (try_from-command_id c))

  serve-Setter :
      (r r' : R) (msg : MsgSendDirectReq2) (c : ThermalCommand) (n : ℕ) (response : OdpResponse)
      → Setter msg c n
      → IsPayload msg.payload
      → Responds relay r (build_odp_header true 0x09 (command_id c)) (arguments n msg) response r'
      → serve relay r msg c ≡ scalar_response msg r' (status 0x09 (command_id c) response)
  unfolding serve set_threshold set_scp set_var invoke_request invoke_request_with_response_id
  serve-Setter r r' msg c n response sets_threshold p answer =
      rw
        (
          parse_ffa_request-arguments 13 msg p (omega arith),
          answer _ (check_response 0x09 (command_id ThermalCommand.set_thrs) parse_empty_response),
        )
        (ap (λ (v : ℕ). scalar_response msg r' v) (thermal_checked_status 0x09 _ response))
  serve-Setter r r' msg c n response sets_policy p answer =
      rw
        (
          parse_ffa_request-arguments 13 msg p (omega arith),
          answer _ (check_response 0x09 (command_id ThermalCommand.set_scp) parse_empty_response),
        )
        (ap (λ (v : ℕ). scalar_response msg r' v) (thermal_checked_status 0x09 _ response))
  serve-Setter r r' msg c n response (sets_variable word) p answer =
      rw
        (
          parse_ffa_request-arguments 23 msg p (omega arith),
          word,
          answer _ (check_response 0x09 (command_id ThermalCommand.set_var) parse_empty_response),
        )
        (ap (λ (v : ℕ). scalar_response msg r' v) (thermal_checked_status 0x09 _ response))

  -- SetThrs, SetScp, and SetVar of a value of four bytes are each one exchange with the embedded
  -- controller: a request to service 0x09 with the command's id and the arguments of the message, in a
  -- payload of 112 bytes. The answer is 0, if the response is an empty success of the service with that
  -- id, the error's number, if it is an error of the service, and 0xFFFFFFFF otherwise.
  pub handle-Setter :
      (r r' : R) (msg : MsgSendDirectReq2) (c : ThermalCommand) (n : ℕ) (response : OdpResponse)
      → Setter msg c n
      → u8_at msg.payload 0 ≡ some (command_id c)
      → IsPayload msg.payload
      → Responds relay r (build_odp_header true 0x09 (command_id c)) (arguments n msg) response r'
      → handle relay r msg ≡ scalar_response msg r' (status 0x09 (command_id c) response)
  handle-Setter r r' msg c n response s first p answer =
      handle-serve r msg c first ∙ serve-Setter r r' msg c n response s p answer

  serve-Refused :
      (r : R) (msg : MsgSendDirectReq2) (c : ThermalCommand) (value : ℕ)
      → Refused msg c value
      → IsPayload msg.payload
      → serve relay r msg c ≡ scalar_response msg r value
  unfolding serve
  serve-Refused r msg c value (reads_no_word differs) p =
      let no : (request_len (arguments 19 msg) == 4) ≡ false = ground (arith, differs) in
      rw (parse_ffa_request-arguments 19 msg p (omega arith), no) refl
  serve-Refused r msg c value (sets_no_word differs) p =
      let no : (request_len (arguments 23 msg) == 4) ≡ false = ground (arith, differs) in
      rw (parse_ffa_request-arguments 23 msg p (omega arith), no) refl

  -- GetVar and SetVar of a variable that is not of four bytes never reach the relay: the state is as it
  -- was, and the answer is 0xFFFFFFFF to GetVar and 1 to SetVar. The payload has 112 bytes.
  pub handle-Refused :
      (r : R) (msg : MsgSendDirectReq2) (c : ThermalCommand) (value : ℕ)
      → Refused msg c value
      → u8_at msg.payload 0 ≡ some (command_id c)
      → IsPayload msg.payload
      → handle relay r msg ≡ scalar_response msg r value
  handle-Refused r msg c value x first p =
      handle-serve r msg c first ∙ serve-Refused r msg c value x p
