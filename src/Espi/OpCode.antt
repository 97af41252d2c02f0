-- ===== src/Espi/OpCode.antt =====
-- espi-device/src/espi_types/op_code.rs: the commands and their op codes, and the data of the short
-- ones. A value of u8, u16 or u32 is a number.
use odp_secure_services.Base.{
  ◌↔◌, ◌^◌, ap, ok, ◌∙◌, ◌-◌, err, sym, arith, refl, ◌==◌, ltb, ◌<◌, ◌≡◌, if◌then◌else◌, bit_or,
  Result, ℕ,
}

pub data ShortOpLength : Type 0 where
  u8 u16 u32 : ShortOpLength

unfoldable pub encode_length : ShortOpLength → ℕ
encode_length u8 = 0x01
encode_length u16 = 0x02
encode_length u32 = 0x03

-- `ShortOpData::BYTES`.
unfoldable pub short_op_bytes : ShortOpLength → ℕ
short_op_bytes u8 = 1
short_op_bytes u16 = 2
short_op_bytes u32 = 4

-- `ShortOpData::try_from_u32`; the text of the error is left out.
unfoldable pub try_from_u32 : ShortOpLength → ℕ → Result (Unit {0}) ℕ
try_from_u32 u8 value = if ltb 0xFF value then err tt else ok value
try_from_u32 u16 value = if ltb 0xFFFF value then err tt else ok value
try_from_u32 u32 value = ok value

pub data EspiCommandOpCode : Type 0 where
  put_pc get_pc put_np get_np put_vwire get_vwire : EspiCommandOpCode
  put_oob get_oob put_flash_c get_flash_np put_flash_np get_flash_c : EspiCommandOpCode
  get_status get_configuration set_configuration inband_reset : EspiCommandOpCode
  put_io_rd_short put_io_wr_short put_mem_rd32_short put_mem_wr32_short :
      ShortOpLength → EspiCommandOpCode

unfoldable pub encode : EspiCommandOpCode → ℕ
unfolding encode_length
encode put_pc = 0x00
encode get_pc = 0x01
encode put_np = 0x02
encode get_np = 0x03
encode put_vwire = 0x04
encode get_vwire = 0x05
encode put_oob = 0x06
encode get_oob = 0x07
encode put_flash_c = 0x08
encode get_flash_np = 0x09
encode put_flash_np = 0x0A
encode get_flash_c = 0x0B
encode get_status = 0x25
encode get_configuration = 0x21
encode set_configuration = 0x22
encode inband_reset = 0xFF
encode (put_io_rd_short len) = bit_or 0x40 (encode_length len)
encode (put_io_wr_short len) = bit_or 0x44 (encode_length len)
encode (put_mem_rd32_short len) = bit_or 0x48 (encode_length len)
encode (put_mem_wr32_short len) = bit_or 0x4C (encode_length len)

-- A command with a given code.
abbrev length_of : ℕ → ShortOpLength
length_of n = if n == 1 then u8 else if n == 2 then u16 else u32

abbrev command_of : ℕ → EspiCommandOpCode
command_of n =
    if n == 0x00
    then put_pc
    else if n == 0x01
    then get_pc
    else if n == 0x02
    then put_np
    else if n == 0x03
    then get_np
    else if n == 0x04
    then put_vwire
    else if n == 0x05
    then get_vwire
    else if n == 0x06
    then put_oob
    else if n == 0x07
    then get_oob
    else if n == 0x08
    then put_flash_c
    else if n == 0x09
    then get_flash_np
    else if n == 0x0A
    then put_flash_np
    else if n == 0x0B
    then get_flash_c
    else if n == 0x25
    then get_status
    else if n == 0x21
    then get_configuration
    else if n == 0x22
    then set_configuration
    else if n == 0xFF
    then inband_reset
    else if ltb n 0x44
    then put_io_rd_short (length_of (n - 0x40))
    else if ltb n 0x48
    then put_io_wr_short (length_of (n - 0x44))
    else if ltb n 0x4c
    then put_mem_rd32_short (length_of (n - 0x48))
    else put_mem_wr32_short (length_of (n - 0x4C))

command_of-encode : (c : EspiCommandOpCode) → command_of (encode c) ≡ c
unfolding encode encode_length
command_of-encode put_pc = refl
command_of-encode get_pc = refl
command_of-encode put_np = refl
command_of-encode get_np = refl
command_of-encode put_vwire = refl
command_of-encode get_vwire = refl
command_of-encode put_oob = refl
command_of-encode get_oob = refl
command_of-encode put_flash_c = refl
command_of-encode get_flash_np = refl
command_of-encode put_flash_np = refl
command_of-encode get_flash_c = refl
command_of-encode get_status = refl
command_of-encode get_configuration = refl
command_of-encode set_configuration = refl
command_of-encode inband_reset = refl
command_of-encode (put_io_rd_short u8) = refl
command_of-encode (put_io_rd_short u16) = refl
command_of-encode (put_io_rd_short u32) = refl
command_of-encode (put_io_wr_short u8) = refl
command_of-encode (put_io_wr_short u16) = refl
command_of-encode (put_io_wr_short u32) = refl
command_of-encode (put_mem_rd32_short u8) = refl
command_of-encode (put_mem_rd32_short u16) = refl
command_of-encode (put_mem_rd32_short u32) = refl
command_of-encode (put_mem_wr32_short u8) = refl
command_of-encode (put_mem_wr32_short u16) = refl
command_of-encode (put_mem_wr32_short u32) = refl

encode-lt : (c : EspiCommandOpCode) → encode c < 256
unfolding encode encode_length
encode-lt put_pc = omega arith
encode-lt get_pc = omega arith
encode-lt put_np = omega arith
encode-lt get_np = omega arith
encode-lt put_vwire = omega arith
encode-lt get_vwire = omega arith
encode-lt put_oob = omega arith
encode-lt get_oob = omega arith
encode-lt put_flash_c = omega arith
encode-lt get_flash_np = omega arith
encode-lt put_flash_np = omega arith
encode-lt get_flash_c = omega arith
encode-lt get_status = omega arith
encode-lt get_configuration = omega arith
encode-lt set_configuration = omega arith
encode-lt inband_reset = omega arith
encode-lt (put_io_rd_short u8) = omega arith
encode-lt (put_io_rd_short u16) = omega arith
encode-lt (put_io_rd_short u32) = omega arith
encode-lt (put_io_wr_short u8) = omega arith
encode-lt (put_io_wr_short u16) = omega arith
encode-lt (put_io_wr_short u32) = omega arith
encode-lt (put_mem_rd32_short u8) = omega arith
encode-lt (put_mem_rd32_short u16) = omega arith
encode-lt (put_mem_rd32_short u32) = omega arith
encode-lt (put_mem_wr32_short u8) = omega arith
encode-lt (put_mem_wr32_short u16) = omega arith
encode-lt (put_mem_wr32_short u32) = omega arith

-- No two commands share an op code, and each is a byte.
pub encode-injective : (c d : EspiCommandOpCode) → (encode c ≡ encode d → c ≡ d) × (encode c < 256)
encode-injective c d =
    (λ e. sym (command_of-encode c) ∙ (ap command_of e ∙ command_of-encode d), encode-lt c)

-- A value is taken exactly if it fits the bytes of the operation.
pub try_from_u32-fits :
    (l : ShortOpLength) (value : ℕ)
    → value < 2 ^ 32
    → (try_from_u32 l value ≡ ok value) ↔ (value < 256 ^ short_op_bytes l)
unfolding try_from_u32 short_op_bytes
try_from_u32-fits u8 value h = ground arith
try_from_u32-fits u16 value h = ground arith
try_from_u32-fits u32 value h = ground arith
