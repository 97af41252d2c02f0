-- ===== src/Ffa/Message/RoundTrip.antt =====
-- A direct message survives its trip through the SMC registers.
use odp_secure_services.Base.{
  replicate, ◌-◌, ◌++◌, ◌≤◌, ℕ, zero, suc, ◌+◌, ◌*◌, ◌/◌, ◌%◌, ◌^◌, ◌<◌, ◌≡◌, refl, ap, ◌∙◌, List,
  [], ◌∷◌, some, ok, length, bit_and, arith,
}
use odp_secure_services.Base.Bits.{bit_or-shift, bit_and-mask}
use odp_secure_services.Base.Bytes.{swap_bytes, swap_bytes-swap_bytes, register_bytes}
use odp_secure_services.Ffa.Payload.{
  DirectMessagePayload, IsPayload, from_iter, registers_iter, chunks,
}
use odp_secure_services.Ffa.Payload.Codec.{from_iter-fits, register_bytes-chunks, length-chunks}
use odp_secure_services.Ffa.Message.{
  UuidCrate, UuidLaws, DirectMessage, SmcParams, combine_low_high_u16, take_params, try_from_iter,
  to_smc_params, from_smc_params,
}
use mathlib.Core.List.{append-nil}

pub record IsMessage (m : DirectMessage) : Type 0 where
  pub source : m.source_id < 2 ^ 16
  pub destination : m.destination_id < 2 ^ 16
  pub uuid_lt : m.uuid < 2 ^ 128
  pub payload_ok : IsPayload m.payload

take_params_short :
    (n : ℕ) (xs : List ℕ)
    → length xs ≤ n
    → take_params n xs ≡ (xs ++ replicate (n - length xs) 0, [])
unfolding take_params
take_params_short zero [] h = refl
take_params_short zero (x ∷ xs) h = absurd (omega arith)
take_params_short (suc n) [] h =
    let more : suc n - 0 ≡ suc (n - 0) = omega arith in
    rw more (cc (take_params_short n [] (omega arith)))
take_params_short (suc n) (x ∷ xs) h =
    let less : suc n - length (x ∷ xs) ≡ n - length xs = omega arith in
    rw less (cc (take_params_short n xs (omega arith)))

-- Up to 17 registers are taken, and those that are missing are 0.
pub try_from_iter_short :
    (xs : List ℕ) → length xs ≤ 17 → try_from_iter xs ≡ ok (xs ++ replicate (17 - length xs) 0)
unfolding try_from_iter
try_from_iter_short xs h =
    rw (take_params_short 17 xs h, try_from_iter) (rw (take_params_short 17 xs h))

pub try_from_iter_all : (xs : List ℕ) → length xs ≡ 17 → try_from_iter xs ≡ ok xs
try_from_iter_all xs h = try_from_iter_short xs (omega arith) ∙ ap ok (rw h (append-nil xs))

pub combine_fields :
    (low high : ℕ)
    → low < 2 ^ 16
    → high < 2 ^ 16
    → (bit_and (combine_low_high_u16 low high) 0xFFFF ≡ low)
      × (combine_low_high_u16 low high / 2 ^ 16 % 2 ^ 16 ≡ high)
unfolding combine_low_high_u16
combine_fields low high h k =
    let sum = bit_or-shift 16 high low h in
    let mask = bit_and-mask 16 (high * 2 ^ 16 + low) in
    (rw sum (omega (arith, mask)), omega (arith, sum))

payload_back :
    (p : DirectMessagePayload)
    → IsPayload p
    → from_iter (register_bytes (registers_iter p)) ≡ some p
unfolding registers_iter
payload_back p v =
    let count : length p / 8 ≡ 14 = omega (arith, v.len) in
    let same : register_bytes (chunks (length p / 8) p) ≡ p =
      register_bytes-chunks (length p / 8) p (omega (arith, v.len)) v.bytes in
    rw same (from_iter-fits p (omega (arith, v.len)) ∙ ap some (rw v.len (append-nil p)))

module _ (c : UuidCrate) (laws : UuidLaws c) where
  -- Under what the uuid crate documents, a message with 16-bit ids, a 128-bit UUID and a payload of
  -- 112 bytes is sent in registers, and these are read back as the same message.
  pub from_smc_params-to_smc_params :
      (m : DirectMessage)
      → IsMessage m
      → (ps : SmcParams) × (to_smc_params c m ≡ ok ps) × (from_smc_params c ps ≡ some m)
  unfolding to_smc_params from_smc_params registers_iter
  from_smc_params-to_smc_params m v =
      let high = (c.as_u64_pair m.uuid).0 in
      let low = (c.as_u64_pair m.uuid).1 in
      let ps : SmcParams =
        combine_low_high_u16 m.destination_id m.source_id
        ∷ swap_bytes high
        ∷ swap_bytes low
        ∷ registers_iter m.payload in
      let len : length ps ≡ 17 =
        omega (arith, length-chunks (length m.payload / 8) m.payload, v.payload_ok.len) in
      (
        ps,
        try_from_iter_all ps len,
        ground (
          arith,
          payload_back m.payload v.payload_ok,
          combine_fields m.destination_id m.source_id v.destination v.source,
          swap_bytes-swap_bytes high (laws.high_lt m.uuid),
          swap_bytes-swap_bytes low (laws.low_lt m.uuid),
          laws.from-as m.uuid v.uuid_lt,
        ),
      )
