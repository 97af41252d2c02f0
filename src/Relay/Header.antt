-- ===== src/Relay/Header.antt =====
-- ec_relay.rs: the header of a request or response, exact reads of a body, and the errors.
use Prim.Native.String.{String}
use mathlib.Core.List.{reverse}
use odp_secure_services.Base.{
  drop, take, length, if◌then◌else◌, ℕ, ◌*◌, ◌/◌, ◌^◌, List, [], ◌∷◌, Bool, Result, ok, err, ltb,
  ◌==◌, not, bit_and, bit_or,
}
use odp_secure_services.Base.Results.{◌>>=◌}
use odp_secure_services.Base.Bytes.{le_bytes, from_le_bytes}

pub data EcRelayError : Type 0 where
  transport_write transport_read transport_read_timeout : EcRelayError
  mctp_serialize mctp_decode odp_header_parse : String → EcRelayError
  mctp_recv_incomplete unexpected_message_type : EcRelayError
  unexpected_odp_service unexpected_odp_request : EcRelayError
  remote : ℕ → EcRelayError
  body_too_short body_too_long : EcRelayError

abbrev pub odp_message_type : ℕ
odp_message_type = 0x7D

-- `u32::to_be_bytes` and `u32::from_be_bytes`.
abbrev pub to_be_bytes : ℕ → List ℕ
to_be_bytes v = reverse (le_bytes 4 v)

abbrev pub from_be_bytes : List ℕ → ℕ
from_be_bytes bs = from_le_bytes (reverse bs)

unfoldable pub build_odp_header : Bool → ℕ → ℕ → List ℕ
build_odp_header is_request service_id message_id =
    let raw : ℕ = if is_request then bit_or 0 (2 ^ 25) else 0 in
    to_be_bytes (bit_or (bit_or raw (service_id * 2 ^ 16)) (bit_and message_id 0x7FFF))

-- The tuple that `parse_odp_header` returns.
pub record OdpHeader : Type 0 where
  pub is_request : Bool
  pub service_id : ℕ
  pub is_error : Bool
  pub message_id : ℕ

-- The fields of a header, from its 32 bits.
unfoldable pub header_fields : ℕ → OdpHeader
header_fields raw = record {
  is_request = not (bit_and raw (2 ^ 25) == 0);
  service_id = bit_and (raw / 2 ^ 16) 0xFF;
  is_error = not (bit_and raw (2 ^ 15) == 0);
  message_id = bit_and raw 0x7FFF;
}

unfoldable pub parse_odp_header : List ℕ → Result String OdpHeader
parse_odp_header bytes =
    if ltb (length bytes) 4
    then err "OdpHeader buffer < 4 bytes"
    else ok (header_fields (from_be_bytes (take 4 bytes)))

-- `take_array::<N>`: the first `n` bytes and the rest.
unfoldable pub take_array : ℕ → List ℕ → Result EcRelayError (List ℕ × List ℕ)
take_array n body =
    if ltb (length body) n then err body_too_short else ok (take n body, drop n body)

-- The end of `take_exact_array`.
abbrev pub exact : List ℕ × List ℕ → Result EcRelayError (List ℕ)
exact (head, []) = ok head
exact (head, _ ∷ _) = err body_too_long

unfoldable pub take_exact_array : ℕ → List ℕ → Result EcRelayError (List ℕ)
unfolding take_array
take_exact_array n body = take_array n body >>= exact
