-- ===== src/Uart/Tests.antt =====
-- The UART on a concrete line: a transmit FIFO that is full for a few polls, and bytes to receive.
use odp_secure_services.Uart.Receiving.{Polled, read_byte_bounded-Polled}
use odp_secure_services.Uart.Sending.{write-sent, Drains}
use odp_secure_services.Tpm.Registers.{has_bit}
use odp_secure_services.Uart.Driver.{
  timeout, while_full, write_byte, write_bytes, write, unless_empty, fr_txff, read_byte_bounded,
  Mmio,
}
use odp_secure_services.Base.Options.{Returns}
use odp_secure_services.Base.{
  if◌then◌else◌, Bool, false, some, err, ◌++◌, ◌==◌, ◌<◌, get_or, length, ok, refl, true, drop, [],
  arith, ◌-◌, ltb, ◌≡◌, ◌∷◌, min, List, ℕ,
}

record Line : Type 0 where
  full : ℕ
  sent : List ℕ
  coming : List ℕ

-- At most three polls find the FIFO full, and a byte that is written before is lost.
abbrev polls : Line → ℕ
polls l = min l.full 3

abbrev flag : Bool → Bool → ℕ
flag true true = 0x30
flag true false = 0x20
flag false true = 0x10
flag false false = 0

abbrev flags : Line → ℕ
flags l = flag (ltb 0 (polls l)) (length l.coming == 0)

abbrev line : Mmio Line
line = record {
  read32 = λ l offset. (record l { full = polls l - 1 }, flags l);
  read8 = λ l offset. (record l { coming = drop 1 l.coming }, get_or l.coming 0 0);
  write8 = λ l offset byte. if polls l == 0 then record l { sent = l.sent ++ (byte ∷ []) } else l;
}

flag_full : (full empty : Bool) → has_bit (flag full empty) fr_txff ≡ true → full ≡ true
flag_full true empty h = refl
flag_full false true h = absurd (ground (arith, h))
flag_full false false h = absurd (ground (arith, h))

flags_full : (l : Line) → has_bit (flags l) fr_txff ≡ true → 0 < polls l
flags_full l h = ground (arith, flag_full (ltb 0 (polls l)) (length l.coming == 0) h)

flag_room : (full empty : Bool) → has_bit (flag full empty) fr_txff ≡ false → full ≡ false
flag_room false empty h = refl
flag_room true true h = absurd (ground (arith, h))
flag_room true false h = absurd (ground (arith, h))

flags_room : (l : Line) → has_bit (flags l) fr_txff ≡ false → polls l ≡ 0
flags_room l h = ground (arith, flag_room (ltb 0 (polls l)) (length l.coming == 0) h)

room_after : (l : Line) → polls l ≡ 0 → min (polls l - 1) 3 ≡ 0
room_after l h = omega (arith, h)

line_drains : Drains line 3
line_drains = record {
  sent = λ l. l.sent;
  to_go = polls;
  read_sent = λ l. refl;
  HasRoom = λ l. polls l ≡ 0;
  read_room = λ l e. room_after l (flags_room l e);
  write_sent = λ l byte room. rw room refl;
  to_go_limit = λ l. omega arith;
  to_go_less = λ l h. omega (arith, flags_full l h);
}

abbrev waiting : Line
waiting = record { full = 2; sent = 1 ∷ []; coming = 5 ∷ 6 ∷ [] }

read_byte_bounded-Polled_example : Polled line 4 waiting (read_byte_bounded line 4 waiting)
read_byte_bounded-Polled_example = read_byte_bounded-Polled line 4 waiting

write-sent_example :
    Returns (λ r. (r.0.sent ≡ 1 ∷ 7 ∷ 8 ∷ []) × (r.1 ≡ ok 2)) (write line 10 (7 ∷ 8 ∷ []) waiting)
unfolding line_drains
write-sent_example = write-sent line 3 line_drains 10 (7 ∷ 8 ∷ []) waiting (omega arith)

driven :
    (read_byte_bounded line 4 waiting ≡ (record { full = 1; sent = 1 ∷ []; coming = 6 ∷ [] }, ok 5))
    × (read_byte_bounded line 4 (record waiting { coming = [] })
        ≡ (record { full = 0; sent = 1 ∷ []; coming = [] }, err timeout))
    × (write line 10 (7 ∷ 8 ∷ []) waiting
        ≡ some (record { full = 0; sent = 1 ∷ 7 ∷ 8 ∷ []; coming = 5 ∷ 6 ∷ [] }, ok 2))
unfolding read_byte_bounded unless_empty write write_bytes write_byte while_full
driven = (refl, refl, refl)
