-- ===== src/Tpm/Sst/Board.antt =====
-- tpm_sst.rs: the register blocks of the TPM, and the counter. Volatile reads and writes, the
-- counter of the processor and the secure monitor are parameters, over the world `W`.
use odp_secure_services.Tpm.Registers.{size_of_registers}
use odp_secure_services.Ffa.Smc.{Monitor}
use odp_secure_services.Base.{◌%◌, ◌-◌, ◌/◌, ◌^◌, ◌*◌, min, ◌+◌, false, Bool, ℕ}

pub record Board (W : Type 0) : Type 0 where
  pub read_u8 : W → ℕ → W × ℕ
  pub read_u32 : W → ℕ → W × ℕ
  pub write_u8 : W → ℕ → ℕ → W
  pub write_u32 : W → ℕ → ℕ → W
  -- CNTVCT_EL0 and CNTFRQ_EL0.
  pub counter : W → W × ℕ
  pub frequency : ℕ
  pub monitor : Monitor W

abbrev pub sts_valid : ℕ
sts_valid = 0x80

abbrev pub sts_data : ℕ
sts_data = 0x10

abbrev pub sts_expect : ℕ
sts_expect = 0x08

abbrev pub sts_ready : ℕ
sts_ready = 0x40

abbrev pub sts_go : ℕ
sts_go = 0x20

abbrev pub acc_rquuse : ℕ
acc_rquuse = 0x02

abbrev pub acc_active : ℕ
acc_active = 0x20

abbrev pub fifo_valid : ℕ
fifo_valid = 0x80

-- `PTP_TIMEOUT_A` to `PTP_TIMEOUT_D` and `PTP_TIMEOUT_MAX`, in microseconds.
abbrev pub timeout_a : ℕ
timeout_a = 750000

abbrev pub timeout_b : ℕ
timeout_b = 2000000

abbrev pub timeout_c : ℕ
timeout_c = 200000

abbrev pub timeout_d : ℕ
timeout_d = 30000

abbrev pub timeout_max : ℕ
timeout_max = 90000000

abbrev pub poll_delay_us : ℕ
poll_delay_us = 30

abbrev pub yield_timeout_hint_ns : ℕ
yield_timeout_hint_ns = 0

pub record TpmSst : Type 0 where
  pub is_crb_interface : Bool
  pub is_idle_bypass_supported : Bool
  pub tpm_crb_address : ℕ

-- `TpmSst::new`.
unfoldable pub new_sst : ℕ → TpmSst
new_sst tpm_crb_address = record {
  is_crb_interface = false;
  is_idle_bypass_supported = false;
  tpm_crb_address = tpm_crb_address;
}

-- A field of the block that `external_crb_ptr` and `external_fifo_ptr` point at.
unfoldable pub external : TpmSst → ℕ → ℕ → ℕ
external sst locality offset = sst.tpm_crb_address + locality * size_of_registers + offset

unfoldable pub counter_ticks_for_microseconds : ℕ → ℕ → ℕ
counter_ticks_for_microseconds frequency_hz microseconds =
    min ((frequency_hz * microseconds + 999999) / 1000000) (2 ^ 64 - 1)

-- `u64::wrapping_sub`.
abbrev pub wrapping_sub : ℕ → ℕ → ℕ
wrapping_sub a b = (a + (2 ^ 64 - b)) % 2 ^ 64
