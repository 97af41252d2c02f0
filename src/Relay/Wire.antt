-- ===== src/Relay/Wire.antt =====
-- ec_relay.rs: the header on the wire, and what a response to a request is taken to be.
use odp_secure_services.Base.Bytes.{from_le_bytes-le_bytes}
use odp_secure_services.Relay.Header.{
  from_be_bytes, to_be_bytes, parse_odp_header, header_fields, build_odp_header,
}
use odp_secure_services.Base.{
  length, ◌≤◌, refl, ok, bit_or, ◌++◌, take, bit_and, List, sym, ◌<◌, ◌∙◌, zero, suc, ℕ, ◌≡◌, ◌+◌,
  ◌*◌, ◌/◌, ◌%◌, ◌^◌, arith, Bool, true, false, ap,
}
use odp_secure_services.Base.Bits.{bit_or-shift, bit_and-mask, bit_and-pow, test_bit}
use native.Mathlib.Nat.{div-div-eq-div-mul, pow-suc}

test_bit-quotient : (x k : ℕ) → test_bit x k ≡ x / 2 ^ k % 2
test_bit-quotient x zero = omega arith
test_bit-quotient x (suc k) =
    let twice : 2 ^ suc k ≡ 2 * 2 ^ k = omega (arith, pow-suc 2 k) in
    let halves : x / 2 ^ suc k ≡ x / 2 / 2 ^ k =
      ap (λ (t : ℕ). x / t) twice ∙ sym (div-div-eq-div-mul x 2 (2 ^ k)) in
    rw halves (test_bit-quotient (x / 2) k)

-- The 32 bits of a header without an error.
header_word : Bool → ℕ → ℕ → ℕ
header_word true s m = 2 ^ 25 + s * 2 ^ 16 + m
header_word false s m = s * 2 ^ 16 + m

header_word-lt : (r : Bool) (s m : ℕ) → s < 256 → m < 2 ^ 15 → header_word r s m < 256 ^ 4
unfolding header_word
header_word-lt true s m hs hm = omega arith
header_word-lt false s m hs hm = omega arith

build_odp_header-word :
    (r : Bool) (s m : ℕ)
    → s < 256
    → m < 2 ^ 15
    → build_odp_header r s m ≡ to_be_bytes (header_word r s m)
unfolding build_odp_header header_word
build_odp_header-word true s m hs hm =
    let low : bit_and m 0x7FFF ≡ m = omega (arith, bit_and-mask 15 m) in
    let high : bit_or (2 ^ 25) (s * 2 ^ 16) ≡ (512 + s) * 2 ^ 16 =
      omega (arith, bit_or-shift 25 1 (s * 2 ^ 16) (omega arith)) in
    let whole : bit_or ((512 + s) * 2 ^ 16) m ≡ 2 ^ 25 + s * 2 ^ 16 + m =
      omega (arith, bit_or-shift 16 (512 + s) m (omega arith)) in
    rw (low, high, whole) refl
build_odp_header-word false s m hs hm =
    let low : bit_and m 0x7FFF ≡ m = omega (arith, bit_and-mask 15 m) in
    let high : bit_or 0 (s * 2 ^ 16) ≡ s * 2 ^ 16 =
      omega (arith, bit_or-shift 25 0 (s * 2 ^ 16) (omega arith)) in
    let whole : bit_or (s * 2 ^ 16) m ≡ s * 2 ^ 16 + m =
      omega (arith, bit_or-shift 16 s m (omega arith)) in
    rw (low, high, whole) refl

-- A header is its bits, read back.
from_be_bytes-to_be_bytes : (v : ℕ) → v < 256 ^ 4 → from_be_bytes (take 4 (to_be_bytes v)) ≡ v
from_be_bytes-to_be_bytes v h = from_le_bytes-le_bytes 4 v h

header_fields-word :
    (r : Bool) (s m : ℕ)
    → s < 256
    → m < 2 ^ 15
    → header_fields (header_word r s m)
      ≡ record { is_request = r; service_id = s; is_error = false; message_id = m }
unfolding header_fields header_word
header_fields-word true s m hs hm =
    let raw = 2 ^ 25 + s * 2 ^ 16 + m in
    ground (
      arith,
      bit_and-pow raw 25,
      test_bit-quotient raw 25,
      bit_and-pow raw 15,
      test_bit-quotient raw 15,
      bit_and-mask 8 (raw / 2 ^ 16),
      bit_and-mask 15 raw,
    )
header_fields-word false s m hs hm =
    let raw = s * 2 ^ 16 + m in
    ground (
      arith,
      bit_and-pow raw 25,
      test_bit-quotient raw 25,
      bit_and-pow raw 15,
      test_bit-quotient raw 15,
      bit_and-mask 8 (raw / 2 ^ 16),
      bit_and-mask 15 raw,
    )

parse_odp_header_long :
    (bytes : List ℕ)
    → 4 ≤ length bytes
    → parse_odp_header bytes ≡ ok (header_fields (from_be_bytes (take 4 bytes)))
unfolding parse_odp_header
parse_odp_header_long bytes h = ground arith

-- The header of a request or of a success response is read back from its four bytes, whatever
-- follows them: the same direction, service and message, and no error. The service fits in a byte and
-- the message in 15 bits.
pub parse_odp_header-build_odp_header :
    (r : Bool) (s m : ℕ) (body : List ℕ)
    → s < 256
    → m < 2 ^ 15
    → parse_odp_header (build_odp_header r s m ++ body)
      ≡ ok (record { is_request = r; service_id = s; is_error = false; message_id = m })
parse_odp_header-build_odp_header r s m body hs hm = rw (build_odp_header-word r s m hs hm) (
    parse_odp_header_long (to_be_bytes (header_word r s m) ++ body) (omega arith)
    ∙ ap ok (
        ap header_fields
          (from_be_bytes-to_be_bytes (header_word r s m) (header_word-lt r s m hs hm))
        ∙ header_fields-word r s m hs hm))
