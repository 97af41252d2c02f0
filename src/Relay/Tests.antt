-- ===== src/Relay/Tests.antt =====
-- The relay on concrete inputs: a UART that delivers a list, and a crate that copies.
use odp_secure_services.Base.Results.{Yields}
use odp_secure_services.Ffa.Payload.{slice}
use odp_secure_services.Relay.Delivery.{sent_all, Accepts, check_response-accepts, invoke-delivers}
use odp_secure_services.Relay.Framing.{idle, Delivers, recv_framed_packet-packet}
use odp_secure_services.Relay.Wire.{parse_odp_header-build_odp_header}
use odp_secure_services.Relay.Total.{decoded, invoke-total}
use odp_secure_services.Base.Options.{returns, Returns}
use odp_secure_services.Relay.Interface.{
  invoke_request_with_response_id, check_response, OdpResponse,
}
use odp_secure_services.Relay.Header.{
  EcRelayError, take_exact_array, parse_odp_header, build_odp_header,
}
use odp_secure_services.Base.{
  Result, replicate, arith, ◌↔◌, refl, ◌++◌, ◌≡◌, some, err, [], false, true, ◌∷◌, ℕ, ok, List,
}
use odp_secure_services.Relay.Transport.{
  received, recv_loop, send_packet, other_failure, serial_transport, Uart,
}
use odp_secure_services.Relay.Exchange.{MctpCrate, EcRelay, invoke, ec_relay}

-- The bytes that are still to be delivered; what is written is dropped.
abbrev pub line : Uart (List ℕ)
line = record {
  write_all = λ u bytes. some (u, ok tt);
  read_byte = λ u. elim u [ [] ↦ ([], err other_failure) | b ∷ bs ↦ (bs, ok b) ];
}

-- Every message becomes one packet of one byte, and a packet is a message that answers the time of day.
abbrev pub copier : MctpCrate
copier = record {
  serialize_packet = λ type header body. ok (ok (1 ∷ []) ∷ []);
  deserialize_packet = λ assembly packet. (
    assembly,
    ok (some (record { message_type = 0x7D; body = build_odp_header false 0x0B 2 ++ packet })),
  );
}

header :
    (build_odp_header true 0x0B 2 ≡ 0x02 ∷ 0x0B ∷ 0x00 ∷ 0x02 ∷ [])
    × (build_odp_header true 0x08 2 ≡ 0x02 ∷ 0x08 ∷ 0x00 ∷ 0x02 ∷ [])
unfolding build_odp_header
header = (refl, refl)

parse_odp_header-build_odp_header_example :
    parse_odp_header (build_odp_header true 8 2 ++ (5 ∷ []))
    ≡ ok (record { is_request = true; service_id = 8; is_error = false; message_id = 2 })
parse_odp_header-build_odp_header_example =
    parse_odp_header-build_odp_header true 8 2 (5 ∷ []) (omega arith) (omega arith)

recv_framed_packet-packet_example :
    (serial_transport line).recv_framed_packet (3 ∷ 4 ∷ 0x7E ∷ 9 ∷ []) (0 ∷ 0 ∷ 0 ∷ 0 ∷ [])
    ≡ (9 ∷ [], ok (3 ∷ 4 ∷ 0x7E ∷ 0 ∷ [], 3))
recv_framed_packet-packet_example =
    recv_framed_packet-packet line (3 ∷ 4 ∷ 0x7E ∷ 9 ∷ []) (0x7E ∷ 9 ∷ []) (9 ∷ []) (3 ∷ 4 ∷ [])
      (0 ∷ 0 ∷ []) 0 (0 ∷ [])
      (Delivers.read _ _ _ 3 (4 ∷ []) refl (Delivers.read _ _ _ 4 [] refl (idle _))) (omega arith)
      refl refl

abbrev answer : OdpResponse
answer = record {
  is_request = false;
  service_id = 8;
  is_error = false;
  message_id = 2;
  body = 1 ∷ [];
}

check_response-accepts_example : (check_response 8 2 (take_exact_array 1) answer ≡ ok (1 ∷ [])) ↔ (
    (answer.is_request ≡ false)
    × (answer.service_id ≡ 8)
    × (answer.is_error ≡ false)
    × (answer.message_id ≡ 2)
    × (take_exact_array 1 answer.body ≡ ok (1 ∷ [])))
check_response-accepts_example = check_response-accepts 8 2 (take_exact_array 1) answer (1 ∷ [])

abbrev before : EcRelay (List ℕ)
before = record { transport = 5 ∷ 0x7E ∷ []; assembly_buf = [] }

abbrev after : EcRelay (List ℕ)
after = record { transport = []; assembly_buf = [] }

invoke-delivers_example :
    invoke_request_with_response_id
      (ec_relay (serial_transport line) copier)
      0x0B
      2
      2
      []
      (take_exact_array 2)
      before
    ≡ some (after, take_exact_array 2 (5 ∷ 0x7E ∷ []))
unfolding serial_transport send_packet recv_loop received slice
invoke-delivers_example =
    invoke-delivers (serial_transport line) copier before (5 ∷ 0x7E ∷ []) [] 0x0B 2 2 []
      (5 ∷ 0x7E ∷ []) (5 ∷ 0x7E ∷ replicate 254 0) (5 ∷ 0x7E ∷ []) [] ((1 ∷ []) ∷ []) 2
      (take_exact_array 2) (omega arith) (omega arith) refl
      (Accepts.sent _ _ _ (1 ∷ []) [] refl (sent_all _)) refl refl refl

-- A crate whose every packet is a message of two bytes.
abbrev pub speaker : MctpCrate
speaker = record copier {
  deserialize_packet =
      λ assembly packet. (assembly, ok (some (record { message_type = 0x7D; body = 1 ∷ 2 ∷ [] })));
}

invoke-total_example :
    Returns
      (λ (x : EcRelay (List ℕ) × Result EcRelayError (List ℕ)). Yields (λ _. Unit {0}) x.1)
      (invoke (serial_transport line) speaker before [] [] (λ response. ok response.body))
invoke-total_example =
    invoke-total line speaker (λ assembly packet. decoded _ (omega arith)) (λ _. Unit {0})
      (λ u packet. returns _ tt) before [] [] (λ response. ok response.body) (λ response bytes. tt)
