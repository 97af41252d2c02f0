-- ===== src/Uart/Driver.antt =====
-- qemu-sp-uart/src/lib.rs: polled reads and writes. The trait `Mmio` is a parameter, over the world
-- `W` with the device in it.
use odp_secure_services.Base.Results.{map_ok, unwrap_or}
use odp_secure_services.Tpm.Registers.{has_bit}
use odp_secure_services.Base.Options.{◌>>=◌}
use odp_secure_services.Base.{
  false, ◌==◌, zero, bit_and, [], length, true, ◌∷◌, suc, true, err, ok, none, some, Result, List,
  Option, Bool, ℕ,
}

pub record Mmio (W : Type 0) : Type 0 where
  pub read32 : W → ℕ → W × ℕ
  pub read8 : W → ℕ → W × ℕ
  pub write8 : W → ℕ → ℕ → W

abbrev pub uartdr : ℕ
uartdr = 0x000

abbrev pub uartfr : ℕ
uartfr = 0x018

abbrev pub fr_rxfe : ℕ
fr_rxfe = 0x10

abbrev pub fr_txff : ℕ
fr_txff = 0x20

pub data UartError : Type 0 where
  timeout : UartError

unfoldable pub rx_poll_budget : ℕ
rx_poll_budget = 10_000_000

module _ {W : Type 0} (mmio : Mmio W) where
  -- The body of the busy wait, after its condition.
  unfoldable pub while_full : Bool → (W → Option W) → ℕ → W → Option W
  while_full true next byte w = next w
  while_full false next byte w = some (mmio.write8 w uartdr byte)

  -- The busy wait for room and the write of a byte; `none` is the end of the fuel.
  unfoldable pub write_byte : ℕ → ℕ → W → Option W
  unfolding while_full
  write_byte zero byte w = none
  write_byte (suc n) byte w =
      let (w', fr) = mmio.read32 w uartfr in
      while_full (has_bit fr fr_txff) (write_byte n byte) byte w'

  unfoldable pub write_bytes : ℕ → List ℕ → W → Option W
  unfolding write_byte
  write_bytes fuel [] w = some w
  write_bytes fuel (byte ∷ bytes) w = write_byte fuel byte w >>= write_bytes fuel bytes

  -- The body of the loop of `read_byte_bounded`, after its condition.
  unfoldable pub unless_empty : Bool → (W → W × Result UartError ℕ) → W → W × Result UartError ℕ
  unless_empty true next w = let (w', byte) = mmio.read8 w uartdr in (w', ok byte)
  unless_empty false next w = next w

  unfoldable pub read_byte_bounded : ℕ → W → W × Result UartError ℕ
  unfolding unless_empty
  read_byte_bounded zero w = (w, err timeout)
  read_byte_bounded (suc budget) w =
      let (w', fr) = mmio.read32 w uartfr in
      unless_empty (bit_and fr fr_rxfe == 0) (read_byte_bounded budget) w'

  unfoldable pub read_byte_blocking : W → W × Result UartError ℕ
  read_byte_blocking = read_byte_bounded rx_poll_budget

  -- `embedded_io::Read::read`, with the buffer afterwards.
  unfoldable pub read : List ℕ → W → W × List ℕ × Result UartError ℕ
  read [] w = (w, [], ok 0)
  read (old ∷ buf) w =
      let (w', result) = read_byte_blocking w in
      (w', unwrap_or result old ∷ buf, map_ok (λ _. 1) result)

  -- `embedded_io::Write::write`.
  unfoldable pub write : ℕ → List ℕ → W → Option (W × Result UartError ℕ)
  unfolding write_bytes
  write fuel buf w = write_bytes fuel buf w >>= λ w'. some (w', ok (length buf))
