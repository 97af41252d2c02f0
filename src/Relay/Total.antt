-- ===== src/Relay/Total.antt =====
-- ec_relay.rs: an exchange over the UART does not panic, unless a write of the driver does.
use Prim.Native.String.{String}
use odp_secure_services.Base.Results.{map_err, Yields->>=, Yields}
use odp_secure_services.Base.Bytes.{IsByte}
use odp_secure_services.Relay.Interface.{RelayLaws, OdpResponse}
use odp_secure_services.Base.Options.{Returns->>=, Returns-mono, Returns-value, returns, Returns}
use odp_secure_services.Relay.Header.{
  odp_message_type, parse_odp_header, odp_header_parse, EcRelayError,
}
use odp_secure_services.Relay.Exchange.{
  message_serialize, header_serialize, send_serialized, send_packets, MctpMessage, response_of,
  message_body, ec_relay, then_with, send_request, EcRelay, failed, receive, invoke, MctpCrate,
}
use odp_secure_services.Ffa.Payload.{slice}
use odp_secure_services.Base.{
  some, none, All-drop, Result-cases, ltb, All, inr, ◌++◌, length-append, inl, replicate, ◌==◌,
  Option, Bool-cases, arith, true, ◌≡◌, ◌&&◌, leb, [], err, length, ◌≤◌, ◌∷◌, ok, ℕ, List, Result,
}
use odp_secure_services.Relay.Transport.{
  send_packet, serial_end_flag, ReadError, recv_loop, received, serial_transport, Uart,
}

-- What a transport promises of a received packet: it lies in the buffer.
abbrev pub InBuffer : {T : Type 0} → T × Result EcRelayError (List ℕ × ℕ) → Type 0
InBuffer (t, ok (buf, n)) = n ≤ length buf
InBuffer (t, err e) = Unit

module _ {U : Type 0} (driver : Uart U) where
  received-InBuffer :
      (u : U) (filled slots : List ℕ) (next : List ℕ → U × Result EcRelayError (List ℕ × ℕ))
      (result : Result ReadError ℕ)
      → ((l : List ℕ) → InBuffer (next l))
      → InBuffer (received driver u filled slots next result)
  unfolding received
  received-InBuffer u filled slots next (err e) rest = tt
  received-InBuffer u filled slots next (ok byte) rest =
      elim (Bool-cases (byte == serial_end_flag)) [
        | inl last ↦ rw last (
            omega (
              arith,
              length-append (filled ++ (byte ∷ [])) slots,
              length-append filled (byte ∷ []),
            ))
        | inr inside ↦ rw inside (rest (filled ++ (byte ∷ [])))
      ]

  recv_loop-InBuffer :
      (slots : List ℕ) (u : U) (filled : List ℕ) → InBuffer (recv_loop driver u filled slots)
  unfolding recv_loop
  recv_loop-InBuffer [] u filled = tt
  recv_loop-InBuffer (slot ∷ slots) u filled =
      let (u', result) = driver.read_byte u in
      received-InBuffer u' filled slots (λ l. recv_loop driver u' l slots) result
        (λ l. recv_loop-InBuffer slots u' l)

slice_prefix : (p : List ℕ) (n : ℕ) → n ≤ length p → Returns (λ _. Unit {0}) (slice p 0 n)
unfolding slice
slice_prefix p n h =
    let inside : (leb 0 n && leb n (length p)) ≡ true = ground arith in rw inside (returns _ tt)

-- The crate decodes packets to messages of bytes.
pub data DecodesBytes : Result String (Option MctpMessage) → Type 0 where
  decode_error : (e : String) → DecodesBytes (err e)
  partial : DecodesBytes (ok none)
  decoded : (m : MctpMessage) → All IsByte m.body → DecodesBytes (ok (some m))

message_body-IsByte :
    (r : Result String (Option MctpMessage)) → DecodesBytes r → Yields (All IsByte) (message_body r)
unfolding message_body
message_body-IsByte r (decode_error e) = tt
message_body-IsByte r partial = tt
message_body-IsByte r (decoded m bytes) = elim (Bool-cases (m.message_type == odp_message_type)) [
  | inl same ↦ rw same bytes
  | inr differs ↦ rw differs tt
]

response_of-IsByte :
    (body : List ℕ)
    → All IsByte body
    → Yields (λ (r : OdpResponse). All IsByte r.body) (response_of body)
unfolding response_of
response_of-IsByte body bytes = elim (Bool-cases (ltb (length body) 4)) [
  | inl short ↦ rw short tt
  | inr long ↦ rw long (
      Yields->>= (λ _. Unit {0}) (λ (r : OdpResponse). All IsByte r.body)
        (map_err odp_header_parse (parse_odp_header body)) _
        (elim (Result-cases (map_err odp_header_parse (parse_odp_header body))) [
          | inl (h, e) ↦ rw e tt
          | inr (x, e) ↦ rw e tt
        ])
        (λ h _. All-drop IsByte 4 body bytes))
]

then_with-Returns :
    {T A B : Type 0} (Q : B → Type 0) (Good : T × Result EcRelayError A → Type 0)
    (failed : T → EcRelayError → Option B) (next : T → A → Option B) (r : T × Result EcRelayError A)
    → ((t : T) (e : EcRelayError) → Returns Q (failed t e))
    → ((t : T) (a : A) → Good (t, ok a) → Returns Q (next t a))
    → Good r
    → Returns Q (then_with failed next r)
then_with-Returns Q Good failed next (t, ok a) p q good = q t a good
then_with-Returns Q Good failed next (t, err e) p q good = p t e

module _ {U : Type 0} (driver : Uart U) (mctp : MctpCrate)
    (writes : (u : U) (packet : List ℕ) → Returns (λ _. Unit {0}) (driver.write_all u packet)) where
  send_packet-total :
      (u : U) (packet : List ℕ)
      → Returns (λ _. Unit {0}) ((serial_transport driver).send_packet u packet)
  unfolding serial_transport send_packet
  send_packet-total u packet = Returns->>= _ (writes u packet) (λ r _. returns _ tt)

  send_packets-total :
      (u : U) (packets : List (Result String (List ℕ)))
      → Returns (λ _. Unit {0}) (send_packets (serial_transport driver) mctp u packets)
  unfolding send_packets
  send_packets-total u [] = returns _ tt
  send_packets-total u (err e ∷ packets) = returns _ tt
  send_packets-total u (ok packet ∷ packets) = Returns->>= _ (send_packet-total u packet) λ r _.
      then_with-Returns (λ _. Unit {0}) (λ _. Unit {0}) (λ t e. some (t, err e))
        (λ t _. send_packets (serial_transport driver) mctp t packets) r (λ t e. returns _ tt)
        (λ t _ _. send_packets-total t packets) tt

  send_request-total :
      (u : U) (header body : List ℕ)
      → Returns (λ _. Unit {0}) (send_request (serial_transport driver) mctp u header body)
  unfolding send_request send_serialized
  send_request-total u header body =
      go (mctp.serialize_packet odp_message_type (header_serialize header) (message_serialize body))
    where
      go :
          (r : Result String (List (Result String (List ℕ))))
          → Returns (λ _. Unit {0}) (send_serialized (serial_transport driver) mctp u r)
      go (err e) = returns _ tt
      go (ok packets) = send_packets-total u packets

module _ {U : Type 0} (driver : Uart U) (mctp : MctpCrate)
    (bytes : (assembly packet : List ℕ) → DecodesBytes (mctp.deserialize_packet assembly packet).1)
    {A : Type 0} (P : A → Type 0) where
  receive-total :
      (relay : EcRelay U) (parse : OdpResponse → Result EcRelayError A) (buf : List ℕ) (n : ℕ)
      → ((response : OdpResponse) → All IsByte response.body → Yields P (parse response))
      → n ≤ length buf
      → Returns (λ x. Yields P x.1) (receive (serial_transport driver) mctp relay parse (buf, n))
  unfolding receive
  receive-total relay parse buf n good inside =
      let (packet, e, _) = Returns-value (slice_prefix buf n inside) in
      rw e (
        returns _ (
          Yields->>= (All IsByte) P _ _ (message_body-IsByte _ (bytes relay.assembly_buf packet))
            (λ body b.
              Yields->>= (λ (r : OdpResponse). All IsByte r.body) P _ _ (response_of-IsByte body b)
                good)))

  -- An exchange with the embedded controller ends without a panic over a UART whose `write_all` does
  -- not panic, whatever it answers and whatever is read, and the value that it returns has whatever
  -- property the parser gives its values on a body of bytes. The crate decodes packets to bytes.
  pub invoke-total :
      ((u : U) (packet : List ℕ) → Returns (λ _. Unit {0}) (driver.write_all u packet))
      → (relay : EcRelay U) (header body : List ℕ) (parse : OdpResponse → Result EcRelayError A)
      → ((response : OdpResponse) → All IsByte response.body → Yields P (parse response))
      → Returns (λ x. Yields P x.1) (invoke (serial_transport driver) mctp relay header body parse)
  unfolding invoke failed serial_transport
  invoke-total writes relay header body parse good =
      let transport = serial_transport driver in
      let Q = λ (x : EcRelay U × Result EcRelayError A). Yields P x.1 in
      let fail = failed transport mctp {A = A} relay in
      let keep = λ (t : U). record relay { transport = t } in
      let get = λ (t : U) (p : List ℕ × ℕ). receive transport mctp {A = A} (keep t) parse p in
      Returns->>= _ (send_request-total driver mctp writes relay.transport header body) λ sent _.
        then_with-Returns Q (λ _. Unit {0}) fail
          (λ t _. then_with fail get (recv_loop driver t [] (replicate 256 0))) sent
          (λ t e. returns _ tt)
          (λ t _ _.
            then_with-Returns Q InBuffer fail get (recv_loop driver t [] (replicate 256 0))
              (λ t' e. returns _ tt)
              (λ t' (buf, n) inside. receive-total (keep t') parse buf n good inside)
              (recv_loop-InBuffer driver (replicate 256 0) t []))
          tt

-- So an `EcRelay` over such a UART is a relay as the services need it.
abbrev pub ec_relay-RelayLaws :
    {U : Type 0} (driver : Uart U) (mctp : MctpCrate)
    → ((assembly packet : List ℕ) → DecodesBytes (mctp.deserialize_packet assembly packet).1)
    → ((u : U) (packet : List ℕ) → Returns (λ _. Unit {0}) (driver.write_all u packet))
    → RelayLaws (ec_relay (serial_transport driver) mctp)
ec_relay-RelayLaws driver mctp bytes writes = record {
  Valid = λ _. Unit {0};
  total = λ A P r header body parse _ good.
      Returns-mono (invoke-total driver mctp bytes P writes r header body parse good)
        (λ x y. (tt, y));
}
