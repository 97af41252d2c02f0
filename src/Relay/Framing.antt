-- ===== src/Relay/Framing.antt =====
-- ec_relay.rs: a packet ends at the first END flag, whatever the driver delivers.
use odp_secure_services.Relay.Header.{mctp_recv_incomplete}
use mathlib.Core.List.{append-nil, append_assoc}
use odp_secure_services.Base.{
  length-append, err, ◌+◌, refl, ◌∙◌, arith, sym, false, ap, ◌==◌, ◌++◌, ◌∷◌, length, ok, All, ◌≡◌,
  ◌≢◌, [], ℕ, List,
}
use odp_secure_services.Relay.Transport.{
  serial_transport, received, serial_end_flag, recv_loop, Uart,
}

-- The driver delivers the bytes, one at each read, from one state to another.
pub data Delivers {U : Type 0} (driver : Uart U) : U → List ℕ → U → Type 0 where
  idle : (u : U) → Delivers driver u [] u
  read :
      (u u' u'' : U) (b : ℕ) (bs : List ℕ)
      → driver.read_byte u ≡ (u', ok b)
      → Delivers driver u' bs u''
      → Delivers driver u (b ∷ bs) u''

abbrev pub IsInside : ℕ → Type 0
IsInside b = b ≢ serial_end_flag

module _ {U : Type 0} (driver : Uart U) where
  read_inside :
      (u u' : U) (b : ℕ) (filled : List ℕ) (slot : ℕ) (slots : List ℕ)
      → driver.read_byte u ≡ (u', ok b)
      → IsInside b
      → recv_loop driver u filled (slot ∷ slots) ≡ recv_loop driver u' (filled ++ (b ∷ [])) slots
  unfolding recv_loop received
  read_inside u u' b filled slot slots e inside =
      let no : (b == serial_end_flag) ≡ false = ground (arith, inside) in rw (e, no) refl

  recv_loop-inside :
      (u u' : U) (bs filled front slots : List ℕ)
      → Delivers driver u bs u'
      → All IsInside bs
      → length front ≡ length bs
      → recv_loop driver u filled (front ++ slots) ≡ recv_loop driver u' (filled ++ bs) slots
  recv_loop-inside u u' [] filled [] slots (idle u0) inside same =
      ap (λ l. recv_loop driver u l slots) (sym (append-nil filled))
  recv_loop-inside u u' (b ∷ bs) filled (x ∷ front) slots (read u1 v w c cs e rest) inside same =
      read_inside u v b filled x (front ++ slots) e inside.0
      ∙ (recv_loop-inside v u' bs (filled ++ (b ∷ [])) front slots rest inside.1 (omega arith)
          ∙ ap (λ l. recv_loop driver u' l slots) (append_assoc filled (b ∷ []) bs))
  recv_loop-inside u u' [] filled (x ∷ front) slots d inside same = absurd (omega arith)
  recv_loop-inside u u' (b ∷ bs) filled [] slots d inside same = absurd (omega arith)

  -- A packet of bytes without the END flag, and the flag after it, is read into the buffer as it is:
  -- what is received is the packet with its flag, its length, and the rest of the buffer as it was.
  -- The driver delivers these bytes in any way, and the buffer has room for them.
  pub recv_framed_packet-packet :
      (u u' u'' : U) (packet front : List ℕ) (slot : ℕ) (slots : List ℕ)
      → Delivers driver u packet u'
      → All IsInside packet
      → driver.read_byte u' ≡ (u'', ok serial_end_flag)
      → length front ≡ length packet
      → (serial_transport driver).recv_framed_packet u (front ++ (slot ∷ slots))
        ≡ (u'', ok ((packet ++ (serial_end_flag ∷ [])) ++ slots, length packet + 1))
  unfolding serial_transport recv_loop received
  recv_framed_packet-packet u u' u'' packet front slot slots d inside last same =
      recv_loop-inside u u' packet [] front (slot ∷ slots) d inside same
      ∙ rw last (
          ap (λ (n : ℕ). (u'', ok ((packet ++ (serial_end_flag ∷ [])) ++ slots, n)))
            (length-append packet (serial_end_flag ∷ [])))

  -- Where the packet has no END flag within the buffer, the buffer is filled and no packet is received,
  -- and nothing more is read.
  pub recv_framed_packet-full :
      (u u' : U) (packet buf : List ℕ)
      → Delivers driver u packet u'
      → All IsInside packet
      → length buf ≡ length packet
      → (serial_transport driver).recv_framed_packet u buf ≡ (u', err mctp_recv_incomplete)
  unfolding serial_transport recv_loop
  recv_framed_packet-full u u' packet buf d inside same =
      ap (λ l. recv_loop driver u [] l) (sym (append-nil buf))
      ∙ recv_loop-inside u u' packet [] buf [] d inside same
