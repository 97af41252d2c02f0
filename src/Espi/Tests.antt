-- ===== src/Espi/Tests.antt =====
-- The cycle types on concrete codes.
use odp_secure_services.Espi.Decoding.{cycle_types-codes}
use odp_secure_services.Espi.CycleType.{
  flash_completion_with_data, flash_erase, flash_from, out_of_band_from, last,
  PeripheralChannelCycleType, peripheral_from, encode_completion, flash_code, out_of_band_code,
  peripheral_code, out_of_band,
}
use odp_secure_services.Base.{ok, ◌≡◌}

cycle_types-codes_example :
    (peripheral_from 0x0D ≡ ok (PeripheralChannelCycleType.completion_with_data last))
    × (out_of_band_from 0x21 ≡ ok out_of_band)
    × (flash_from 0x0D ≡ ok flash_erase)
unfolding peripheral_code out_of_band_code flash_code encode_completion
cycle_types-codes_example =
    cycle_types-codes (PeripheralChannelCycleType.completion_with_data last) out_of_band
      (flash_completion_with_data last)
