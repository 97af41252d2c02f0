-- ===== src/Uart/Sending.antt =====
-- qemu-sp-uart/src/lib.rs: a write sends every byte once and in order.
use odp_secure_services.Tpm.Registers.{has_bit}
use odp_secure_services.Uart.Driver.{
  fr_txff, uartdr, uartfr, write, write_bytes, write_byte, while_full, Mmio,
}
use mathlib.Core.Path.{subst}
use mathlib.Core.List.{append-nil, append_assoc}
use odp_secure_services.Base.Options.{Returns-mono, Returns->>=, returns, Returns}
use odp_secure_services.Base.{
  false, refl, zero, ap, true, ◌∙◌, suc, arith, Bool, ◌≤◌, length, sym, [], ok, ◌∷◌, ◌++◌, ◌≡◌, ◌<◌,
  Option, List, ℕ,
}

-- What has been sent is recorded beside the world. Only a byte that is written while the transmit FIFO
-- has room is sent, and a poll whose flag is clear shows that it has. A FIFO that is full drains: each
-- poll that finds it full leaves fewer polls to go, and never more than `limit`.
pub record Drains {W : Type 0} (mmio : Mmio W) (limit : ℕ) : Type 1 where
  pub sent : W → List ℕ
  pub to_go : W → ℕ
  pub HasRoom : W → Type 0
  pub read_sent : (w : W) → sent (mmio.read32 w uartfr).0 ≡ sent w
  pub read_room :
      (w : W) → has_bit (mmio.read32 w uartfr).1 fr_txff ≡ false → HasRoom (mmio.read32 w uartfr).0
  pub write_sent :
      (w : W) (byte : ℕ) → HasRoom w → sent (mmio.write8 w uartdr byte) ≡ sent w ++ (byte ∷ [])
  pub to_go_limit : (w : W) → to_go w ≤ limit
  pub to_go_less :
      (w : W)
      → has_bit (mmio.read32 w uartfr).1 fr_txff ≡ true
      → to_go (mmio.read32 w uartfr).0 < to_go w

module _ {W : Type 0} (mmio : Mmio W) (limit : ℕ) (drains : Drains mmio limit) where
  open drains use {sent, to_go}

  while_full-sent :
      (w : W) (byte : ℕ) (next : W → Option W)
      → ((w' : W)
          → to_go w' < to_go w
          → sent w' ≡ sent w
          → Returns (λ x. sent x ≡ sent w ++ (byte ∷ [])) (next w'))
      → (full : Bool) → has_bit (mmio.read32 w uartfr).1 fr_txff ≡ full
      → Returns
          (λ x. sent x ≡ sent w ++ (byte ∷ []))
          (while_full mmio full next byte (mmio.read32 w uartfr).0)
  unfolding while_full
  while_full-sent w byte next later true e =
      later (mmio.read32 w uartfr).0 (drains.to_go_less w e) (drains.read_sent w)
  while_full-sent w byte next later false e = returns _ (
      drains.write_sent _ byte (drains.read_room w e)
      ∙ ap (λ l. l ++ (byte ∷ [])) (drains.read_sent w))

  write_byte-sent :
      (n byte : ℕ) (w : W)
      → to_go w < n
      → Returns (λ x. sent x ≡ sent w ++ (byte ∷ [])) (write_byte mmio n byte w)
  unfolding write_byte
  write_byte-sent zero byte w h = absurd (omega arith)
  write_byte-sent (suc n) byte w h =
      while_full-sent w byte (write_byte mmio n byte)
        (λ w' less same.
          subst
            (λ (l : List ℕ). Returns (λ x. sent x ≡ l ++ (byte ∷ [])) (write_byte mmio n byte w'))
            same (write_byte-sent n byte w' (omega (arith, less))))
        _ refl

  write_bytes-sent :
      (fuel : ℕ) (buf : List ℕ) (w : W)
      → limit < fuel
      → Returns (λ x. sent x ≡ sent w ++ buf) (write_bytes mmio fuel buf w)
  unfolding write_bytes
  write_bytes-sent fuel [] w h = returns _ (sym (append-nil (sent w)))
  write_bytes-sent fuel (byte ∷ buf) w h =
      Returns->>= _ (write_byte-sent fuel byte w (omega (arith, drains.to_go_limit w))) λ w' same.
        Returns-mono (write_bytes-sent fuel buf w' h)
          λ x rest. rest ∙ (ap (λ l. l ++ buf) same ∙ append_assoc (sent w) (byte ∷ []) buf)

  -- Over a UART that sends a byte written while its transmit FIFO has room, and whose FIFO drains,
  -- `write` returns and answers with the length of the buffer, and what has been sent has grown by
  -- exactly the bytes of the buffer, in their order. The fuel is more than the polls that a full FIFO
  -- takes to drain.
  pub write-sent :
      (fuel : ℕ) (buf : List ℕ) (w : W)
      → limit < fuel
      → Returns (λ r. (sent r.0 ≡ sent w ++ buf) × (r.1 ≡ ok (length buf))) (write mmio fuel buf w)
  unfolding write
  write-sent fuel buf w h =
      Returns->>= _ (write_bytes-sent fuel buf w h) λ w' same. returns _ (same, refl)
