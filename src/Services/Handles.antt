-- ===== src/Services/Handles.antt =====
-- The services over a relay as services of the message handler.
use odp_secure_services.Relay.Interface.{RelayLaws, Relay}
use odp_secure_services.Services.TimeAlarm
use odp_secure_services.Services.Thermal
use odp_secure_services.Services.Battery
use odp_secure_services.Services.TimeAlarm.Total.{handle-Answers as time_alarm-Answers}
use odp_secure_services.Services.Thermal.Total.{handle-Answers as thermal-Answers}
use odp_secure_services.Services.Battery.Total.{handle-Answers as battery-Answers}
use odp_secure_services.Handler.Reply.{Handles}

module _ {R : Type 0} (relay : Relay R) (laws : RelayLaws relay) where
  -- Over a relay that does not panic and hands on bytes, the time and alarm, the thermal and the battery
  -- service answer every message with a payload of 112 bytes, without a panic, by an error or by a reply
  -- that goes back to the sender, and the relay stays valid.
  pub relayed-Handles :
      Handles laws.Valid (TimeAlarm.handle relay)
      × Handles laws.Valid (Thermal.handle relay)
      × Handles laws.Valid (Battery.handle relay)
  relayed-Handles = (
    λ r msg p v. time_alarm-Answers relay laws r msg p v,
    λ r msg p v. thermal-Answers relay laws r msg p v,
    λ r msg p v. battery-Answers relay laws r msg p v,
  )
