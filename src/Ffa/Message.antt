-- ===== src/Ffa/Message.antt =====
-- Direct messages and their SMC registers: odp-ffa/src/smc.rs, util.rs and function/msg.
-- The uuid crate is a parameter.
pub mod RoundTrip
use odp_secure_services.Base.{
  ℕ, zero, suc, ◌+◌, ◌*◌, ◌/◌, ◌%◌, ◌^◌, ◌≤◌, ◌<◌, ◌≡◌, List, [], ◌∷◌, Option, none, some, Result,
  ok, err, length, get_or, drop, bit_and, bit_or,
}
use odp_secure_services.Base.Options.{◌>>=◌}
use odp_secure_services.Base.Bytes.{swap_bytes, register_bytes}
use odp_secure_services.Ffa.Error.{Error, too_many_smc_params}
use odp_secure_services.Ffa.Payload.{DirectMessagePayload, IsPayload, from_iter, registers_iter}

-- A `Uuid` is its 128-bit value.
abbrev pub Uuid : Type 0
Uuid = ℕ

pub record UuidCrate : Type 0 where
  pub as_u64_pair : Uuid → ℕ × ℕ
  pub from_u64_pair : ℕ → ℕ → Uuid
  pub from_u128_le : ℕ → Uuid

-- What the crate documents of a pair: both halves are 64-bit words, and `from_u64_pair` joins them.
pub record UuidLaws (c : UuidCrate) : Type 0 where
  pub high_lt : (u : Uuid) → (c.as_u64_pair u).0 < 2 ^ 64
  pub low_lt : (u : Uuid) → (c.as_u64_pair u).1 < 2 ^ 64
  pub from-as :
      (u : Uuid) → u < 2 ^ 128 → c.from_u64_pair (c.as_u64_pair u).0 (c.as_u64_pair u).1 ≡ u

pub record DirectMessage : Type 0 where
  pub source_id : ℕ
  pub destination_id : ℕ
  pub uuid : Uuid
  pub payload : DirectMessagePayload

-- `MsgSendDirectReq2` and `MsgSendDirectResp2` wrap a `DirectMessage`.
abbrev pub MsgSendDirectReq2 : Type 0
MsgSendDirectReq2 = DirectMessage

abbrev pub MsgSendDirectResp2 : Type 0
MsgSendDirectResp2 = DirectMessage

unfoldable pub from_req_with_payload : MsgSendDirectReq2 → DirectMessagePayload → MsgSendDirectResp2
from_req_with_payload req payload = record {
  source_id = req.destination_id;
  destination_id = req.source_id;
  uuid = req.uuid;
  payload = payload;
}

unfoldable pub combine_low_high_u16 : ℕ → ℕ → ℕ
combine_low_high_u16 low high = bit_or (high * 2 ^ 16) low

unfoldable pub combine_low_high_u32 : ℕ → ℕ → ℕ
combine_low_high_u32 low high = bit_or (high * 2 ^ 32) low

-- The registers x1 to x17, in order.
abbrev pub SmcParams : Type 0
SmcParams = List ℕ

-- `iter.next().unwrap_or(0)`, `n` times; beside it what the iterator has left.
take_params : ℕ → List ℕ → SmcParams × List ℕ
take_params zero xs = ([], xs)
take_params (suc n) [] = let (ps, rest) = take_params n [] in (0 ∷ ps, rest)
take_params (suc n) (x ∷ xs) = let (ps, rest) = take_params n xs in (x ∷ ps, rest)

unfoldable pub try_from_iter : List ℕ → Result Error SmcParams
unfolding take_params
try_from_iter xs =
    let (ps, rest) = take_params 17 xs in elim rest [ [] ↦ ok ps | _ ∷ _ ↦ err too_many_smc_params ]

module _ (c : UuidCrate) where
  unfoldable pub to_smc_params : DirectMessage → Result Error SmcParams
  to_smc_params msg =
      let (uuid_high, uuid_low) = c.as_u64_pair msg.uuid in
      try_from_iter (
        combine_low_high_u16 msg.destination_id msg.source_id
        ∷ swap_bytes uuid_high
        ∷ swap_bytes uuid_low
        ∷ registers_iter msg.payload)

  -- `none` is a panic of `DirectMessagePayload::from_iter`.
  unfoldable pub from_smc_params : SmcParams → Option DirectMessage
  from_smc_params value = do
    let destination_id = bit_and (get_or value 0 0) 0xFFFF
    let source_id = get_or value 0 0 / 2 ^ 16 % 2 ^ 16
    let uuid = c.from_u64_pair (swap_bytes (get_or value 1 0)) (swap_bytes (get_or value 2 0))
    payload ← from_iter (register_bytes (drop 3 value))
    some (record {
      source_id = source_id;
      destination_id = destination_id;
      uuid = uuid;
      payload = payload;
    })
