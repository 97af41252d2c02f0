-- ===== src/Services/Battery.antt =====
-- services/battery.rs: `Battery` over a relay, whose state is what the `RefCell` holds.
pub mod Total
use odp_secure_services.Ffa.Payload.{u32_at, u8_at}
use odp_secure_services.Ffa.Error.{
  set_btp_failed, unknown_battery_command, get_bix_failed, get_bst_failed, other, Error,
}
use odp_secure_services.Services.Common.{parse_empty_response, respond, Handled, with_error}
use odp_secure_services.Base.Bytes.{from_le_bytes, le_bytes}
use odp_secure_services.Relay.Interface.{invoke_request, Relay}
use odp_secure_services.Relay.Header.{take_exact_array, take_array, EcRelayError}
use odp_secure_services.Ffa.Message.{MsgSendDirectReq2, Uuid}
use odp_secure_services.Base.{
  [], err, ◌∷◌, none, some, ◌==◌, ◌++◌, ok, if◌then◌else◌, Result, Option, List, ℕ,
}
use odp_secure_services.Base.Options.{◌>>=◌}
use odp_secure_services.Base.Results

abbrev pub battery_service_id : ℕ
battery_service_id = 0x08

abbrev pub battery_uuid : Uuid
battery_uuid = 0x25cb5207ac36427daaef3aa78877d27e

pub data BatteryCommand : Type 0 where
  bix bst btp : BatteryCommand

-- `TryFromPrimitive` of the commands GetBix, GetBst and SetBtp.
unfoldable pub try_from : ℕ → Option BatteryCommand
try_from n =
    if n == 1 then some bix else if n == 2 then some bst else if n == 6 then some btp else none

abbrev pub bix_response_len : ℕ
bix_response_len = 100

pub record BstReturnRaw : Type 0 where
  pub battery_state : ℕ
  pub battery_present_rate : ℕ
  pub battery_remaining_capacity : ℕ
  pub battery_present_voltage : ℕ

-- `BatteryError`.
pub data BatteryError : Type 0 where
  relay_error : EcRelayError → BatteryError
  unexpected_response : BatteryError

-- The closure of `get_bst`; what follows the four words is ignored.
unfoldable pub parse_bst : List ℕ → Result EcRelayError BstReturnRaw
unfolding take_array
parse_bst body = Results.◌>>=◌ (take_array 4 body) λ (state, body1).
    Results.◌>>=◌ (take_array 4 body1) λ (rate, body2).
      Results.◌>>=◌ (take_array 4 body2) λ (capacity, body3).
        Results.◌>>=◌ (take_array 4 body3) λ (voltage, _). ok (record {
          battery_state = from_le_bytes state;
          battery_present_rate = from_le_bytes rate;
          battery_remaining_capacity = from_le_bytes capacity;
          battery_present_voltage = from_le_bytes voltage;
        })

abbrev pub bst_bytes : BstReturnRaw → List ℕ
bst_bytes b =
    le_bytes 4 b.battery_state
    ++ (le_bytes 4 b.battery_present_rate
        ++ (le_bytes 4 b.battery_remaining_capacity ++ le_bytes 4 b.battery_present_voltage))

module _ {R : Type 0} (relay : Relay R) where
  unfoldable pub get_bst : ℕ → R → Option (R × Result BatteryError BstReturnRaw)
  get_bst battery_id r =
      with_error relay_error
        (invoke_request relay battery_service_id 2 (battery_id ∷ []) parse_bst r)

  unfoldable pub get_bix : ℕ → R → Option (R × Result BatteryError (List ℕ))
  get_bix battery_id r = with_error relay_error (
      invoke_request relay battery_service_id 1 (battery_id ∷ [])
        (take_exact_array bix_response_len) r)

  unfoldable pub set_btp : ℕ → ℕ → R → Option (R × Result BatteryError (Unit {0}))
  set_btp battery_id trip_point r = with_error relay_error (
      invoke_request relay battery_service_id 6 (battery_id ∷ le_bytes 4 trip_point)
        parse_empty_response r)

  -- The response to what a command read, or the command's error.
  abbrev bytes_or_error :
      {A : Type 0}
      → MsgSendDirectReq2
      → (A → List ℕ)
      → Error
      → R
      → Result BatteryError A
      → Handled R
  bytes_or_error msg bytes e r (ok a) = respond msg r (bytes a)
  bytes_or_error msg bytes e r (err _) = some (r, err e)

  -- The arms of `ffa_msg_send_direct_req2`.
  unfoldable pub serve : R → MsgSendDirectReq2 → ℕ → BatteryCommand → Handled R
  unfolding get_bst get_bix set_btp
  serve r msg battery_id bst = get_bst battery_id r >>= λ (r', result).
      bytes_or_error msg bst_bytes (other get_bst_failed) r' result
  serve r msg battery_id bix = get_bix battery_id r >>= λ (r', result).
      bytes_or_error msg (λ b. b) (other get_bix_failed) r' result
  serve r msg battery_id btp = u32_at msg.payload 4 >>= λ trip_point.
      set_btp battery_id trip_point r >>= λ (r', result).
      bytes_or_error msg (λ _. []) (other set_btp_failed) r' result

  unfoldable pub serve_command : R → MsgSendDirectReq2 → Option BatteryCommand → Handled R
  unfolding serve
  serve_command r msg none = some (r, err (other unknown_battery_command))
  serve_command r msg (some command) =
      u8_at msg.payload 1 >>= λ battery_id. serve r msg battery_id command

  -- `ffa_msg_send_direct_req2`.
  unfoldable pub handle : R → MsgSendDirectReq2 → Handled R
  unfolding serve_command
  handle r msg = u8_at msg.payload 0 >>= λ cmd. serve_command r msg (try_from cmd)
