-- ===== src/Ffa/Tests.antt =====
-- The message layer on concrete inputs.
use odp_secure_services.Base.{
  leb, if◌then◌else◌, ◌+◌, ◌-◌, ◌*◌, ◌/◌, ◌%◌, ◌^◌, ◌≡◌, refl, [], ◌∷◌, none, some, ok, err,
  replicate, drop, All-replicate, arith, ◌++◌,
}
use odp_secure_services.Base.Options.{◌>>=◌}
use odp_secure_services.Base.Bytes.{IsByte}
use odp_secure_services.Ffa.Error.{
  ErrorCode, invalid_error_code, invalid_function_id, msg_send_direct_req2, try_parse_error_code,
  try_parse_function_id,
}
use odp_secure_services.Ffa.Payload.{
  DirectMessagePayload, IsPayload, payload_len, from_iter, u8_at, u16_at, u32_at,
}
use odp_secure_services.Ffa.Payload.Codec.{from_iter-fills}
use odp_secure_services.Ffa.Message.{
  UuidCrate, UuidLaws, DirectMessage, SmcParams, to_smc_params, from_smc_params,
}
use odp_secure_services.Ffa.Message.RoundTrip.{IsMessage, from_smc_params-to_smc_params}

abbrev pub uuid_crate : UuidCrate
uuid_crate = record {
  as_u64_pair = λ u. (u / 2 ^ 64 % 2 ^ 64, u % 2 ^ 64);
  from_u64_pair = λ high low. high * 2 ^ 64 + low;
  from_u128_le = λ v. v;
}

uuid_crate-UuidLaws : UuidLaws uuid_crate
uuid_crate-UuidLaws = record {
  high_lt = λ u. omega arith;
  low_lt = λ u. omega arith;
  from-as = λ u h. omega arith;
}

abbrev pub zeros : DirectMessagePayload
zeros = replicate payload_len 0

pub zeros-IsPayload : IsPayload zeros
zeros-IsPayload = record { len = refl; bytes = All-replicate IsByte payload_len 0 (omega arith) }

abbrev message : DirectMessage
message = record { source_id = 3; destination_id = 0x8001; uuid = 5 * 2 ^ 64 + 7; payload = zeros }

message-IsMessage : IsMessage message
message-IsMessage = record {
  source = omega arith;
  destination = omega arith;
  uuid_lt = omega arith;
  payload_ok = zeros-IsPayload;
}

codes :
    (try_parse_error_code (2 ^ 64 - 2) ≡ ok ErrorCode.invalid_parameters)
    × (try_parse_error_code 2 ≡ err (invalid_error_code 2))
    × (try_parse_function_id 0xC400008D ≡ ok msg_send_direct_req2)
    × (try_parse_function_id 1 ≡ err (invalid_function_id 1))
unfolding try_parse_error_code try_parse_function_id
codes = (refl, refl, refl, refl)

reads :
    ((from_iter (1 ∷ 2 ∷ 3 ∷ 4 ∷ []) >>= λ p. u16_at p 1) ≡ some 0x302)
    × ((from_iter (1 ∷ 2 ∷ 3 ∷ 4 ∷ []) >>= λ p. u32_at p 0) ≡ some 0x4030201)
    × ((from_iter [] >>= λ p. u8_at p 112) ≡ none)
unfolding from_iter u16_at u32_at u8_at
reads = (refl, refl, refl)

from_smc_params-to_smc_params_example :
    (ps : SmcParams) × (to_smc_params uuid_crate message ≡ ok ps)
    × (from_smc_params uuid_crate ps ≡ some message)
from_smc_params-to_smc_params_example =
    from_smc_params-to_smc_params uuid_crate uuid_crate-UuidLaws message message-IsMessage

from_iter-fills_example :
    from_iter (1 ∷ 2 ∷ [])
    ≡ (if leb 2 payload_len then some ((1 ∷ 2 ∷ []) ++ drop 2 zeros) else none)
from_iter-fills_example = from_iter-fills (1 ∷ 2 ∷ [])
