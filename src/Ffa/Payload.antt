-- ===== src/Ffa/Payload.antt =====
-- odp-ffa/src/function/msg/register_payload.rs: 14 registers of payload, as 112 bytes.
-- `none` is a panic: an index or a slice out of range.
pub mod Codec
use odp_secure_services.Base.{
  ℕ, zero, suc, ◌+◌, ◌-◌, ◌*◌, ◌/◌, ◌≡◌, List, [], ◌∷◌, Option, none, some, ◌&&◌, leb,
  if◌then◌else◌, length, get_elem?, set, take, drop, replicate, All,
}
use odp_secure_services.Base.Options.{◌>>=◌}
use odp_secure_services.Base.Bytes.{IsByte, from_le_bytes}

abbrev pub payload_len : ℕ
payload_len = 112

-- `DirectMessagePayload([u8; 14 * 8])`.
abbrev pub DirectMessagePayload : Type 0
DirectMessagePayload = List ℕ

pub record IsPayload (p : DirectMessagePayload) : Type 0 where
  pub len : length p ≡ payload_len
  pub bytes : All IsByte p

-- The loop of `from_iter`: byte `i` of the iterator is stored at index `i`.
unfoldable pub store_from : DirectMessagePayload → ℕ → List ℕ → Option DirectMessagePayload
store_from buf i [] = some buf
store_from buf i (b ∷ bs) = elim (get_elem? buf i) [
  | none ↦ none
  | some _ ↦ store_from (set buf i b) (suc i) bs
]

unfoldable pub from_iter : List ℕ → Option DirectMessagePayload
unfolding store_from
from_iter bs = store_from (replicate payload_len 0) 0 bs

unfoldable pub slice : DirectMessagePayload → ℕ → ℕ → Option (List ℕ)
slice p lo hi = if leb lo hi && leb hi (length p) then some (take (hi - lo) (drop lo p)) else none

unfoldable pub u8_at : DirectMessagePayload → ℕ → Option ℕ
u8_at p offset = get_elem? p offset

unfoldable pub u16_at : DirectMessagePayload → ℕ → Option ℕ
unfolding slice
u16_at p offset = do bytes ← slice p offset (offset + 2); some (from_le_bytes bytes)

unfoldable pub u32_at : DirectMessagePayload → ℕ → Option ℕ
unfolding slice
u32_at p offset = do bytes ← slice p offset (offset + 4); some (from_le_bytes bytes)

unfoldable pub u64_at : DirectMessagePayload → ℕ → Option ℕ
unfolding slice
u64_at p offset = do bytes ← slice p offset (offset + 8); some (from_le_bytes bytes)

unfoldable pub register_at : DirectMessagePayload → ℕ → Option ℕ
unfolding u64_at
register_at p index = u64_at p (index * 8)

-- `chunks_exact(8)`, each read as a register.
abbrev pub chunks : ℕ → List ℕ → List ℕ
chunks zero bs = []
chunks (suc n) bs = from_le_bytes (take 8 bs) ∷ chunks n (drop 8 bs)

unfoldable pub registers_iter : DirectMessagePayload → List ℕ
registers_iter p = chunks (length p / 8) p
