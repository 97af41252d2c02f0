-- ===== src/Espi/Decoding.antt =====
-- espi-device/src/espi_types/cycle_type.rs: which cycle types are read back from their codes.
use odp_secure_services.Espi.CycleType.{
  last, middle, completion_without_data, message_with_data, message, mem_write64, mem_write32,
  mem_read64, mem_read32, flash_completion_without_data, first, unsuccessful_completion,
  flash_write, flash_write, completion_with_data, flash_unsuccessful_completion, encode_completion,
  flash_erase, completion_type_from, flash_read, OutOfBandChannelCycleType, completion_of,
  flash_code, flash_completion_with_data, out_of_band_code, peripheral_code,
  PeripheralChannelCycleType, flash_from, FlashChannelCycleType, out_of_band_from, peripheral_from,
}
use odp_secure_services.Espi.CycleType.{only, out_of_band, local}
use odp_secure_services.Base.{refl, ok, ◌≡◌}

peripheral_round_trip :
    (c : PeripheralChannelCycleType) → peripheral_from (peripheral_code c) ≡ ok c
unfolding peripheral_from peripheral_code completion_of completion_type_from encode_completion
peripheral_round_trip mem_read32 = refl
peripheral_round_trip mem_read64 = refl
peripheral_round_trip mem_write32 = refl
peripheral_round_trip mem_write64 = refl
peripheral_round_trip (message local) = refl
peripheral_round_trip (message_with_data local) = refl
peripheral_round_trip completion_without_data = refl
peripheral_round_trip (completion_with_data middle) = refl
peripheral_round_trip (completion_with_data first) = refl
peripheral_round_trip (completion_with_data last) = refl
peripheral_round_trip (completion_with_data only) = refl
peripheral_round_trip (unsuccessful_completion middle) = refl
peripheral_round_trip (unsuccessful_completion first) = refl
peripheral_round_trip (unsuccessful_completion last) = refl
peripheral_round_trip (unsuccessful_completion only) = refl

out_of_band_round_trip :
    (c : OutOfBandChannelCycleType) → out_of_band_from (out_of_band_code c) ≡ ok c
unfolding out_of_band_from out_of_band_code
out_of_band_round_trip out_of_band = refl

-- The request whose code a completion of the flash channel has too.
abbrev pub request_like : FlashChannelCycleType → FlashChannelCycleType
request_like (flash_completion_with_data first) = flash_read
request_like (flash_completion_with_data last) = flash_erase
request_like (flash_unsuccessful_completion last) = flash_write
request_like c = c

flash_from-flash_code :
    (c : FlashChannelCycleType) → flash_from (flash_code c) ≡ ok (request_like c)
unfolding flash_from flash_code completion_of completion_type_from encode_completion
flash_from-flash_code flash_read = refl
flash_from-flash_code flash_write = refl
flash_from-flash_code flash_erase = refl
flash_from-flash_code flash_completion_without_data = refl
flash_from-flash_code (flash_completion_with_data middle) = refl
flash_from-flash_code (flash_completion_with_data first) = refl
flash_from-flash_code (flash_completion_with_data last) = refl
flash_from-flash_code (flash_completion_with_data only) = refl
flash_from-flash_code (flash_unsuccessful_completion middle) = refl
flash_from-flash_code (flash_unsuccessful_completion first) = refl
flash_from-flash_code (flash_unsuccessful_completion last) = refl
flash_from-flash_code (flash_unsuccessful_completion only) = refl

-- A cycle type of the peripheral or of the out-of-band channel is read back from its code. One of the
-- flash channel is read back as itself, but for three completions that have the code of a request and
-- are read back as it: a successful one with the first data as a read, a successful one with the last
-- data as an erase, and an unsuccessful one of the last part as a write.
pub cycle_types-codes :
    (p : PeripheralChannelCycleType) (o : OutOfBandChannelCycleType) (f : FlashChannelCycleType)
    → (peripheral_from (peripheral_code p) ≡ ok p)
      × (out_of_band_from (out_of_band_code o) ≡ ok o)
      × (flash_from (flash_code f) ≡ ok (request_like f))
cycle_types-codes p o f =
    (peripheral_round_trip p, out_of_band_round_trip o, flash_from-flash_code f)
