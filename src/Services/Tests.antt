-- ===== src/Services/Tests.antt =====
-- The services over a relay that always gives one response, and over the UART.
use odp_secure_services.Services.Ucsi
use odp_secure_services.Services.FwMgmt
use odp_secure_services.Services.Local.{local-Handles}
use odp_secure_services.Services.Mailbox.{handle-layout}
use odp_secure_services.Ffa.CallTests.{obliging}
use odp_secure_services.Ffa.Message.{from_req_with_payload}
use odp_secure_services.Base.Options.{returns}
use odp_secure_services.Services.QemuBattery
use odp_secure_services.Ffa.Payload.{slice, u32_at, u8_at}
use odp_secure_services.Ffa.Error.{other, unknown_battery_command}
use odp_secure_services.Base.Bytes.{IsByte}
use odp_secure_services.Relay.Transport.{serial_transport}
use odp_secure_services.Services.Common.{scalar_response}
use odp_secure_services.Relay.Total.{decoded, ec_relay-RelayLaws}
use odp_secure_services.Ffa.Message.{MsgSendDirectReq2}
use odp_secure_services.Services.Handles.{relayed-Handles}
use odp_secure_services.Services.Relayed.{status, reading}
use odp_secure_services.Ffa.Payload.{IsPayload, u8_at}
use odp_secure_services.Base.{
  ◌%◌, ◌/◌, ok, ◌++◌, err, refl, arith, All-replicate, replicate, [], List, true, ◌∷◌, suc, ◌≡◌,
  ◌<◌, false, some, ℕ,
}
use odp_secure_services.Relay.Interface.{RelayLaws, Relay, OdpResponse}
use odp_secure_services.Services.TimeAlarm.Command.{TimeAlarmCommand, command_id}
use odp_secure_services.Services.Thermal.Command.{ThermalCommand, command_id as thermal_id}
use odp_secure_services.Services.Thermal.Wire.{handle-Setter, sets_policy}
use odp_secure_services.Services.TimeAlarm
use odp_secure_services.Services.Thermal
use odp_secure_services.Services.Battery
use odp_secure_services.Handler.Reply.{Handles}
use odp_secure_services.Relay.Tests.{line, speaker}
use odp_secure_services.Relay.Exchange.{EcRelay, ec_relay}
use odp_secure_services.Services.TimeAlarm.Wire.{
  handle-Getter, handle-set_timer_value, reads_timer_value,
}

-- The state counts the requests.
abbrev answering : OdpResponse → Relay ℕ
answering response = record { invoke = λ A r header body parse. some (suc r, parse response) }

abbrev seconds : OdpResponse
seconds = record {
  is_request = false;
  service_id = 0x0B;
  is_error = false;
  message_id = 5;
  body = 60 ∷ 0 ∷ 0 ∷ 0 ∷ [];
}

abbrev refused : OdpResponse
refused = record {
  is_request = false;
  service_id = 0x0B;
  is_error = true;
  message_id = 3;
  body = [];
}

abbrev message : ℕ → MsgSendDirectReq2
message command = record {
  source_id = 7;
  destination_id = 0x8001;
  uuid = TimeAlarm.time_alarm_uuid;
  payload = command ∷ replicate 111 0;
}

message-IsPayload : (command : ℕ) → command < 256 → IsPayload (message command).payload
message-IsPayload command h = record {
  len = refl;
  bytes = (h, All-replicate IsByte 111 0 (omega arith));
}

handle-Getter_example :
    TimeAlarm.handle (answering seconds) 0 (message 7)
    ≡ scalar_response (message 7) 1 (reading 0x0B 5 seconds)
unfolding command_id u8_at
handle-Getter_example =
    handle-Getter (answering seconds) 0 1 (message 7) TimeAlarmCommand.get_timer_value 4 5 seconds
      reads_timer_value refl (message-IsPayload 7 (omega arith)) (λ A parse. refl)

handle-set_timer_value_example :
    TimeAlarm.handle (answering refused) 0 (message 6)
    ≡ scalar_response (message 6) 1 (status 0x0B 6 refused)
unfolding u8_at
handle-set_timer_value_example =
    handle-set_timer_value (answering refused) 0 1 (message 6) refused refl
      (message-IsPayload 6 (omega arith)) (λ A parse. refl)

values :
    (reading 0x0B 5 seconds ≡ 60)
    × (status 0x0B 6 refused ≡ 3)
    × (status 0x0B 6 seconds ≡ 0xFFFFFFFF)
values = (refl, refl, refl)

abbrev uart_relay : Relay (EcRelay (List ℕ))
uart_relay = ec_relay (serial_transport line) speaker

abbrev uart_laws : RelayLaws uart_relay
uart_laws =
    ec_relay-RelayLaws line speaker (λ assembly packet. decoded _ (omega arith))
      (λ u packet. returns _ tt)

relayed-Handles_example :
    Handles uart_laws.Valid (TimeAlarm.handle uart_relay)
    × Handles uart_laws.Valid (Thermal.handle uart_relay)
    × Handles uart_laws.Valid (Battery.handle uart_relay)
relayed-Handles_example = relayed-Handles uart_relay uart_laws

abbrev set : OdpResponse
set = record { is_request = false; service_id = 0x09; is_error = false; message_id = 4; body = [] }

handle-Setter_example :
    Thermal.handle (answering set) 0 (message 4)
    ≡ scalar_response (message 4) 1 (status 0x09 (thermal_id ThermalCommand.set_scp) set)
unfolding thermal_id u8_at
handle-Setter_example =
    handle-Setter (answering set) 0 1 (message 4) ThermalCommand.set_scp 13 set sets_policy refl
      (message-IsPayload 4 (omega arith)) (λ A parse. refl)

bst_answer :
    (QemuBattery.bst_rsp_from (QemuBattery.bst_rsp_bytes QemuBattery.get_bst)
      ≡ some QemuBattery.get_bst)
    × (QemuBattery.handle tt (message 16) ≡ some (tt, err (other unknown_battery_command)))
unfolding QemuBattery.bst_rsp_from QemuBattery.bst_rsp_bytes QemuBattery.get_bst QemuBattery.handle
    QemuBattery.answer_command u32_at slice u8_at
bst_answer = (refl, refl)

local-Handles_example :
    Handles (λ _. Unit {0}) Ucsi.handle
    × Handles (λ _. Unit {0}) (FwMgmt.handle obliging)
    × Handles (λ _. Unit {0}) FwMgmt.stub_handle
    × Handles (λ _. Unit {0}) QemuBattery.handle
local-Handles_example = local-Handles obliging

-- GET_CONNECTOR_STATUS of the first connector, with something in MESSAGE IN and MESSAGE OUT.
abbrev doorbell : MsgSendDirectReq2
doorbell = record (message 0) {
  payload =
      (0 ∷ 9 ∷ 9 ∷ 5 ∷ 6 ∷ 9 ∷ 9 ∷ 9 ∷ 9 ∷ [])
      ++ ((0x12 ∷ 0 ∷ 1 ∷ 0 ∷ 0 ∷ 0 ∷ 0 ∷ 7 ∷ []) ++ (replicate 32 9 ++ replicate 63 0));
}

handle-layout_example :
    (Ucsi.handle tt doorbell
      ≡ some (
        tt,
        ok (
            from_req_with_payload doorbell (
              (0x20 ∷ 0x01 ∷ 5 ∷ 6 ∷ [])
              ++ ((0 ∷ 0x0B ∷ 0 ∷ 0x80 ∷ [])
                  ++ ((0x12 ∷ 0 ∷ 1 ∷ 0 ∷ 0 ∷ 0 ∷ 0 ∷ 7 ∷ [])
                      ++ ((0 ∷ 0 ∷ 0x29 ∷ 0x20 ∷ []) ++ replicate 92 0))))),
      ))
    × (0x80000B00 / 256 % 256 ≡ 11)
unfolding Ucsi.answer_of
handle-layout_example =
    handle-layout doorbell (9 ∷ 9 ∷ []) (5 ∷ 6 ∷ []) (9 ∷ 9 ∷ 9 ∷ 9 ∷ []) 0x12 0 1
      (0 ∷ 0 ∷ 0 ∷ 0 ∷ 7 ∷ []) (replicate 32 9) (replicate 63 0) refl refl refl refl refl refl
