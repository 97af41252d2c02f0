-- ===== src/Relay/Transport.antt =====
-- ec_relay.rs: packets over a UART. The driver behind `embedded_io` is a parameter. `none` is a panic.
use odp_secure_services.Base.Options.{◌>>=◌}
use odp_secure_services.Base.Results.{map_err}
use odp_secure_services.Base.{
  some, Option, length, ◌==◌, if◌then◌else◌, ◌++◌, ok, ◌∷◌, err, Result, [], ℕ, List,
}
use odp_secure_services.Relay.Header.{
  mctp_recv_incomplete, transport_write, transport_read, transport_read_timeout, EcRelayError,
}

-- `embedded_io::ReadExactError`: a timeout of the driver, or anything else.
pub data ReadError : Type 0 where
  timed_out other_failure : ReadError

-- `write_all`, which panics when the driver takes no byte, and `read_exact` of one byte.
pub record Uart (U : Type 0) : Type 0 where
  pub write_all : U → List ℕ → Option (U × Result (Unit {0}) (Unit {0}))
  pub read_byte : U → U × Result ReadError ℕ

-- The trait `OdpTransport`. A receive returns what the buffer holds afterwards and how many bytes
-- of it were read.
pub record OdpTransport (T : Type 0) : Type 0 where
  pub send_packet : T → List ℕ → Option (T × Result EcRelayError (Unit {0}))
  pub recv_framed_packet : T → List ℕ → T × Result EcRelayError (List ℕ × ℕ)

abbrev pub serial_end_flag : ℕ
serial_end_flag = 0x7E

abbrev pub read_error : ReadError → EcRelayError
read_error timed_out = transport_read_timeout
read_error other_failure = transport_read

module _ {U : Type 0} (driver : Uart U) where
  unfoldable pub send_packet : U → List ℕ → Option (U × Result EcRelayError (Unit {0}))
  send_packet uart packet = driver.write_all uart packet >>= λ (uart', result).
      some (uart', map_err (λ _. transport_write) result)

  -- What follows a read: an error, the end of the packet, or the rest of the loop.
  unfoldable pub received :
      U
      → List ℕ
      → List ℕ
      → (List ℕ → U × Result EcRelayError (List ℕ × ℕ))
      → Result ReadError ℕ
      → U × Result EcRelayError (List ℕ × ℕ)
  received uart filled slots next (err e) = (uart, err (read_error e))
  received uart filled slots next (ok byte) =
      let filled' = filled ++ (byte ∷ []) in
      let rest = next filled' in
      if byte == serial_end_flag then (uart, ok (filled' ++ slots, length filled')) else rest

  -- The loop of `recv_framed_packet`, over the part of the buffer that is not filled.
  unfoldable pub recv_loop : U → List ℕ → List ℕ → U × Result EcRelayError (List ℕ × ℕ)
  unfolding received
  recv_loop uart filled [] = (uart, err mctp_recv_incomplete)
  recv_loop uart filled (slot ∷ slots) =
      let (uart', result) = driver.read_byte uart in
      received uart' filled slots (λ filled'. recv_loop uart' filled' slots) result

  -- `MctpSerialTransport`.
  unfoldable pub serial_transport : OdpTransport U
  unfolding send_packet recv_loop
  serial_transport = record {
    send_packet = send_packet;
    recv_framed_packet = λ uart buf. recv_loop uart [] buf;
  }
