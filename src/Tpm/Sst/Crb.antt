-- ===== src/Tpm/Sst/Crb.antt =====
-- tpm_sst.rs: the offsets of the fields of `PtpCrbRegisters` that the library uses.
use odp_secure_services.Base.{ℕ}

abbrev pub locality_control : ℕ
locality_control = 0x08

abbrev pub locality_status : ℕ
locality_status = 0x0C

abbrev pub interface_id : ℕ
interface_id = 0x30

abbrev pub crb_control_request : ℕ
crb_control_request = 0x40

abbrev pub crb_control_status : ℕ
crb_control_status = 0x44

abbrev pub crb_control_start : ℕ
crb_control_start = 0x4C

abbrev pub crb_data_buffer : ℕ
crb_data_buffer = 0x80
