-- ===== src/Espi/CycleType.antt =====
-- espi-device/src/espi_types/cycle_type.rs: the cycle types of the channels and their codes.
use odp_secure_services.Base.Results.{map_ok}
use odp_secure_services.Base.{err, ok, ◌/◌, ◌==◌, bit_and, ◌*◌, if◌then◌else◌, bit_or, Result, ℕ}

-- The text of an error is left out.
pub data InvalidCycleType : Type 0 where
  invalid_cycle_type : InvalidCycleType

pub data CompletionType : Type 0 where
  middle first last only : CompletionType

unfoldable pub encode_completion : CompletionType → ℕ
encode_completion middle = 0
encode_completion first = 1
encode_completion last = 2
encode_completion only = 3

unfoldable pub completion_type_from : ℕ → Result InvalidCycleType CompletionType
completion_type_from value =
    if value == 0
    then ok middle
    else if value == 1
    then ok first
    else if value == 2
    then ok last
    else if value == 3
    then ok only
    else err invalid_cycle_type

pub data Routing : Type 0 where
  local : Routing

pub data PeripheralChannelCycleType : Type 0 where
  mem_read32 mem_read64 mem_write32 mem_write64 : PeripheralChannelCycleType
  message message_with_data : Routing → PeripheralChannelCycleType
  completion_without_data : PeripheralChannelCycleType
  completion_with_data unsuccessful_completion : CompletionType → PeripheralChannelCycleType

pub data OutOfBandChannelCycleType : Type 0 where
  out_of_band : OutOfBandChannelCycleType

pub data FlashChannelCycleType : Type 0 where
  flash_read flash_write flash_erase flash_completion_without_data : FlashChannelCycleType
  flash_completion_with_data flash_unsuccessful_completion : CompletionType → FlashChannelCycleType

unfoldable pub peripheral_code : PeripheralChannelCycleType → ℕ
unfolding encode_completion
peripheral_code mem_read32 = 0x00
peripheral_code mem_read64 = 0x02
peripheral_code mem_write32 = 0x01
peripheral_code mem_write64 = 0x03
peripheral_code (message local) = 0x10
peripheral_code (message_with_data local) = 0x11
peripheral_code completion_without_data = 0x06
peripheral_code (completion_with_data ct) = bit_or 0x09 (encode_completion ct * 2)
peripheral_code (unsuccessful_completion ct) = bit_or 0x08 (encode_completion ct * 2)

unfoldable pub out_of_band_code : OutOfBandChannelCycleType → ℕ
out_of_band_code out_of_band = 0x21

unfoldable pub flash_code : FlashChannelCycleType → ℕ
unfolding encode_completion
flash_code flash_read = 0x0B
flash_code flash_write = 0x0C
flash_code flash_erase = 0x0D
flash_code flash_completion_without_data = 0x06
flash_code (flash_completion_with_data ct) = bit_or 0x09 (encode_completion ct * 2)
flash_code (flash_unsuccessful_completion ct) = bit_or 0x08 (encode_completion ct * 2)

-- The last cases of both channels: completions by their bits.
unfoldable pub completion_of :
    {C : Type 0} → (CompletionType → C) → (CompletionType → C) → ℕ → Result InvalidCycleType C
unfolding completion_type_from
completion_of with_data unsuccessful value =
    let ct = completion_type_from (bit_and value 0x06 / 2) in
    if bit_and value 0x09 == 0x09
    then map_ok with_data ct
    else if bit_and value 0x08 == 0x08
    then map_ok unsuccessful ct
    else err invalid_cycle_type

unfoldable pub peripheral_from : ℕ → Result InvalidCycleType PeripheralChannelCycleType
unfolding completion_of
peripheral_from value =
    if value == 0x00
    then ok mem_read32
    else if value == 0x02
    then ok mem_read64
    else if value == 0x01
    then ok mem_write32
    else if value == 0x03
    then ok mem_write64
    else if value == 0x10
    then ok (message local)
    else if value == 0x11
    then ok (message_with_data local)
    else if value == 0x06
    then ok completion_without_data
    else completion_of completion_with_data unsuccessful_completion value

unfoldable pub out_of_band_from : ℕ → Result InvalidCycleType OutOfBandChannelCycleType
out_of_band_from value = if value == 0x21 then ok out_of_band else err invalid_cycle_type

unfoldable pub flash_from : ℕ → Result InvalidCycleType FlashChannelCycleType
unfolding completion_of
flash_from value =
    if value == 0x0B
    then ok flash_read
    else if value == 0x0C
    then ok flash_write
    else if value == 0x0D
    then ok flash_erase
    else if value == 0x06
    then ok flash_completion_without_data
    else completion_of flash_completion_with_data flash_unsuccessful_completion value
