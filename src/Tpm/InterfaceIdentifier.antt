-- ===== src/Tpm/InterfaceIdentifier.antt =====
-- tpm.rs: `PtpCrbInterfaceIdentifier(u32)` and its bit fields.
use odp_secure_services.Base.{ℕ, ◌*◌, ◌/◌, ◌^◌, bit_and, bit_or}
use odp_secure_services.Base.Bits.{complement}

unfoldable pub interface_type : ℕ → ℕ
interface_type id = bit_and id 0xF

unfoldable pub set_interface_type : ℕ → ℕ → ℕ
set_interface_type id val = bit_or (bit_and id (complement 32 0xF)) (bit_and val 0xF)

unfoldable pub interface_version : ℕ → ℕ
interface_version id = bit_and (id / 2 ^ 4) 0xF

unfoldable pub set_interface_version : ℕ → ℕ → ℕ
set_interface_version id val =
    bit_or (bit_and id (complement 32 (0xF * 2 ^ 4))) (bit_and val 0xF * 2 ^ 4)

unfoldable pub cap_locality : ℕ → ℕ
cap_locality id = bit_and (id / 2 ^ 8) 1

unfoldable pub set_cap_locality : ℕ → ℕ → ℕ
set_cap_locality id val = bit_or (bit_and id (complement 32 (2 ^ 8))) (bit_and val 1 * 2 ^ 8)

unfoldable pub cap_crb_idle_bypass : ℕ → ℕ
cap_crb_idle_bypass id = bit_and (id / 2 ^ 9) 1

unfoldable pub set_cap_crb_idle_bypass : ℕ → ℕ → ℕ
set_cap_crb_idle_bypass id val = bit_or (bit_and id (complement 32 (2 ^ 9))) (bit_and val 1 * 2 ^ 9)

unfoldable pub cap_crb : ℕ → ℕ
cap_crb id = bit_and (id / 2 ^ 14) 1

unfoldable pub set_cap_crb : ℕ → ℕ → ℕ
set_cap_crb id val = bit_or (bit_and id (complement 32 (2 ^ 14))) (bit_and val 1 * 2 ^ 14)
