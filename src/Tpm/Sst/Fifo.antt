-- ===== src/Tpm/Sst/Fifo.antt =====
-- tpm_sst.rs: the offsets of the fields of `PtpFifoRegisters` that the library uses.
use odp_secure_services.Base.{ℕ}

abbrev pub access : ℕ
access = 0x00

abbrev pub status : ℕ
status = 0x18

abbrev pub burst_count : ℕ
burst_count = 0x19

abbrev pub data_fifo : ℕ
data_fifo = 0x24
