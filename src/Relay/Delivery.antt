-- ===== src/Relay/Delivery.antt =====
-- ec_relay.rs: which responses are accepted, a request and its response end to end, and no panic.
use odp_secure_services.Relay.Wire.{parse_odp_header-build_odp_header}
use odp_secure_services.Ffa.Payload.{slice}
use odp_secure_services.Relay.Exchange.{
  send_serialized, message_body, response_of, ec_relay, message_serialize, header_serialize,
  EcRelay, receive, send_request, invoke, send_packets, MctpCrate,
}
use odp_secure_services.Base.{
  length, drop, ltb, ◌==◌, Bool, ◌++◌, some, replicate, true, ◌^◌, ◌<◌, arith, refl, false, ◌∷◌,
  ◌↔◌, ok, map, ◌≡◌, [], Result, List, ℕ,
}
use odp_secure_services.Relay.Transport.{OdpTransport}
use odp_secure_services.Relay.Interface.{
  invoke_request_with_response_id, OdpResponse, check_response,
}
use odp_secure_services.Relay.Header.{build_odp_header, odp_message_type, EcRelayError}

-- A response is accepted, with a value, exactly if it is a success response of the service with the
-- expected message id whose body the caller's parser reads as that value.
pub check_response-accepts :
    {A : Type 0} (service_id id : ℕ) (parse : List ℕ → Result EcRelayError A) (r : OdpResponse)
    (a : A)
    → (check_response service_id id parse r ≡ ok a) ↔ (
        (r.is_request ≡ false)
        × (r.service_id ≡ service_id)
        × (r.is_error ≡ false)
        × (r.message_id ≡ id)
        × (parse r.body ≡ ok a))
unfolding check_response
check_response-accepts service_id id parse r a = grind arith

-- The transport accepts the packets, in order.
pub data Accepts {T : Type 0} (transport : OdpTransport T) : T → List (List ℕ) → T → Type 0 where
  sent_all : (t : T) → Accepts transport t [] t
  sent :
      (t t' t'' : T) (packet : List ℕ) (packets : List (List ℕ))
      → transport.send_packet t packet ≡ some (t', ok tt)
      → Accepts transport t' packets t''
      → Accepts transport t (packet ∷ packets) t''

build_odp_header-long :
    (r : Bool) (s m : ℕ) (body : List ℕ) → ltb (length (build_odp_header r s m ++ body)) 4 ≡ false
unfolding build_odp_header
build_odp_header-long r s m body = ground arith

drop-build_odp_header :
    (r : Bool) (s m : ℕ) (body : List ℕ) → drop 4 (build_odp_header r s m ++ body) ≡ body
unfolding build_odp_header
drop-build_odp_header r s m body = refl

response_of-build_odp_header :
    (r : Bool) (s m : ℕ) (body : List ℕ)
    → s < 256
    → m < 2 ^ 15
    → response_of (build_odp_header r s m ++ body)
      ≡ ok
          (record { is_request = r; service_id = s; is_error = false; message_id = m; body = body })
unfolding response_of
response_of-build_odp_header r s m body hs hm =
    rw
      (
        build_odp_header-long r s m body,
        parse_odp_header-build_odp_header r s m body hs hm,
        drop-build_odp_header r s m body,
      )
      refl

check_response-success :
    {A : Type 0} (s m : ℕ) (parse : List ℕ → Result EcRelayError A) (body : List ℕ)
    → check_response s m parse (record {
      is_request = false;
      service_id = s;
      is_error = false;
      message_id = m;
      body = body;
    })
      ≡ parse body
unfolding check_response
check_response-success s m parse body =
    let same_service : (s == s) ≡ true = ground arith in
    let same_message : (m == m) ≡ true = ground arith in rw (same_service, same_message) refl

module _ {T : Type 0} (transport : OdpTransport T) (mctp : MctpCrate) where
  send_packets-Accepts :
      (t t' : T) (packets : List (List ℕ))
      → Accepts transport t packets t'
      → send_packets transport mctp t (map ok packets) ≡ some (t', ok tt)
  unfolding send_packets
  send_packets-Accepts t t' [] (sent_all t0) = refl
  send_packets-Accepts t t' (p ∷ packets) (sent t0 u v q qs e rest) =
      rw e (send_packets-Accepts u t' packets rest)

  -- A request end to end: the crate makes packets of the request, the transport accepts them and
  -- returns a packet, and the crate decodes it to a message of the ODP type with the header of a
  -- success response of the service and the expected id. Then the caller's parser is applied to exactly
  -- the bytes after the header, and its answer is the answer.
  pub invoke-delivers :
      {A : Type 0} (relay : EcRelay T) (t t' : T) (service_id request_id response_id : ℕ)
      (request packet buf body assembly : List ℕ) (packets : List (List ℕ)) (n : ℕ)
      (parse : List ℕ → Result EcRelayError A)
      → service_id < 256
      → response_id < 2 ^ 15
      → mctp.serialize_packet odp_message_type
          (header_serialize (build_odp_header true service_id request_id))
          (message_serialize request)
        ≡ ok (map ok packets)
      → Accepts transport relay.transport packets t
      → transport.recv_framed_packet t (replicate 256 0) ≡ (t', ok (buf, n))
      → slice buf 0 n ≡ some packet
      → mctp.deserialize_packet relay.assembly_buf packet ≡ (
        assembly,
        ok (
            some (record {
              message_type = odp_message_type;
              body = build_odp_header false service_id response_id ++ body;
            })),
      )
      → invoke_request_with_response_id
          (ec_relay transport mctp)
          service_id
          request_id
          response_id
          request
          parse
          relay
        ≡ some (record { transport = t'; assembly_buf = assembly }, parse body)
  unfolding invoke_request_with_response_id invoke send_request send_serialized receive message_body
  invoke-delivers relay t t' sid qid rid request packet buf body assembly packets n parse hs hr made
        accepted got cut decoded =
      rw
        (
          made,
          send_packets-Accepts relay.transport t packets accepted,
          got,
          cut,
          decoded,
          response_of-build_odp_header false sid rid body hs hr,
          check_response-success sid rid parse body,
        )
        refl
