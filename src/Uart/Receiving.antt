-- ===== src/Uart/Receiving.antt =====
-- qemu-sp-uart/src/lib.rs: a read takes the first byte that comes within its budget.
use odp_secure_services.Tpm.Registers.{has_bit}
use odp_secure_services.Uart.Driver.{
  unless_empty, uartdr, fr_rxfe, UartError, uartfr, read_byte_bounded, Mmio,
}
use odp_secure_services.Base.{
  refl, zero, not, ap, err, arith, ◌==◌, false, true, bit_and, ◌<◌, ◌≡◌, Bool, ok, suc, Result, ℕ,
}

module _ {W : Type 0} (mmio : Mmio W) where
  -- Polls that find the receive FIFO empty, one after the other.
  pub data Empty : ℕ → W → W → Type 0 where
    none_yet : (w : W) → Empty 0 w w
    polled :
        (k : ℕ) (w w' : W)
        → has_bit (mmio.read32 w uartfr).1 fr_rxfe ≡ true
        → Empty k (mmio.read32 w uartfr).0 w'
        → Empty (suc k) w w'

  -- A byte is read right after the first poll that finds one, and within the budget; a timeout is a
  -- whole budget of polls that find none.
  abbrev pub Polled : ℕ → W → W × Result UartError ℕ → Type 0
  Polled budget w (w', ok byte) =
      (k : ℕ) × (k < budget)
      × ((w1 : W) × Empty k w w1
          × (has_bit (mmio.read32 w1 uartfr).1 fr_rxfe ≡ false)
          × (mmio.read8 (mmio.read32 w1 uartfr).0 uartdr ≡ (w', byte)))
  Polled budget w (w', err e) = Empty budget w w'

  Polled-suc :
      (budget : ℕ) (w : W) (r : W × Result UartError ℕ)
      → has_bit (mmio.read32 w uartfr).1 fr_rxfe ≡ true
      → Polled budget (mmio.read32 w uartfr).0 r
      → Polled (suc budget) w r
  Polled-suc budget w (w', ok byte) full (k, lt, (w1, empties, ready, e)) =
      (suc k, omega arith, (w1, polled k w w1 full empties, ready, e))
  Polled-suc budget w (w', err e) full empties = polled budget w w' full empties

  -- `read_byte_bounded` polls until a byte is there, at most `budget` times: it answers with the byte
  -- that the data register holds after the first poll that finds the receive FIFO not empty, or with a
  -- timeout after exactly `budget` polls that all find it empty.
  pub read_byte_bounded-Polled :
      (budget : ℕ) (w : W) → Polled budget w (read_byte_bounded mmio budget w)
  unfolding read_byte_bounded unless_empty
  read_byte_bounded-Polled zero w = none_yet w
  read_byte_bounded-Polled (suc budget) w =
      go _ refl (read_byte_bounded-Polled budget (mmio.read32 w uartfr).0)
    where
      go :
          (ready : Bool)
          → (bit_and (mmio.read32 w uartfr).1 fr_rxfe == 0) ≡ ready
          → Polled budget
              (mmio.read32 w uartfr).0
              (read_byte_bounded mmio budget (mmio.read32 w uartfr).0)
          → Polled
              (suc budget)
              w
              (unless_empty mmio ready (read_byte_bounded mmio budget) (mmio.read32 w uartfr).0)
      go true e rest = (0, omega arith, (w, none_yet w, ap not e, refl))
      go false e rest = Polled-suc budget w _ (ap not e) rest
