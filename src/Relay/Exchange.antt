-- ===== src/Relay/Exchange.antt =====
-- ec_relay.rs: `EcRelay`, one request and its response over a transport. The MCTP crate is a
-- parameter. `none` is a panic.
use odp_secure_services.Relay.Interface.{Relay, OdpResponse}
use odp_secure_services.Relay.Transport.{OdpTransport}
use odp_secure_services.Base.{
  none, drop, ◌==◌, not, [], length, some, ◌∷◌, err, ltb, ok, Option, if◌then◌else◌, Result,
  replicate, ℕ, List,
}
use Prim.Native.String.{String}
use odp_secure_services.Base.Options
use odp_secure_services.Base.Results.{◌>>=◌, map_err}
use odp_secure_services.Ffa.Payload.{slice}
use odp_secure_services.Relay.Header.{
  unexpected_message_type, parse_odp_header, odp_header_parse, mctp_recv_incomplete, body_too_short,
  mctp_serialize, mctp_decode, odp_message_type, EcRelayError,
}

-- `OdpRawHeader` and `OdpRawMessage`: what they write into a buffer of a given capacity.
unfoldable pub header_serialize : List ℕ → ℕ → Result String (List ℕ)
header_serialize header capacity =
    if ltb capacity 4 then err "buffer too small for odp raw header" else ok header

unfoldable pub message_serialize : List ℕ → ℕ → Result String (List ℕ)
message_serialize body capacity =
    if ltb capacity (length body) then err "buffer too small for odp raw body" else ok body

-- The type and the body of a message that was received.
pub record MctpMessage : Type 0 where
  pub message_type : ℕ
  pub body : List ℕ

-- `serialize_packet` from the SP to the EC with a buffer of 128 bytes: the packets of a message of a
-- type, whose header and body write themselves. `deserialize_packet` with the assembly buffer, which
-- it changes. Errors are what `mctp_error_str` makes of them.
pub record MctpCrate : Type 0 where
  pub serialize_packet :
      ℕ
      → (ℕ → Result String (List ℕ))
      → (ℕ → Result String (List ℕ))
      → Result String (List (Result String (List ℕ)))
  pub deserialize_packet : List ℕ → List ℕ → List ℕ × Result String (Option MctpMessage)

pub record EcRelay (T : Type 0) : Type 0 where
  pub transport : T
  pub assembly_buf : List ℕ

unfoldable pub new : {T : Type 0} → T → EcRelay T
new transport = record { transport = transport; assembly_buf = replicate 128 0 }

-- The header of a response body, and the response that `parse_response` is handed.
unfoldable pub response_of : List ℕ → Result EcRelayError OdpResponse
response_of body =
    if ltb (length body) 4
    then err body_too_short
    else (map_err odp_header_parse (parse_odp_header body) >>= λ header. ok (record {
      is_request = header.is_request;
      service_id = header.service_id;
      is_error = header.is_error;
      message_id = header.message_id;
      body = drop 4 body;
    }))

-- What `deserialize_packet` returned, as the body of an ODP message.
unfoldable pub message_body : Result String (Option MctpMessage) → Result EcRelayError (List ℕ)
message_body (err e) = err (mctp_decode e)
message_body (ok none) = err mctp_recv_incomplete
message_body (ok (some message)) =
    if not (message.message_type == odp_message_type)
    then err unexpected_message_type
    else ok message.body

-- `?` on what a use of the transport returned.
abbrev pub then_with {ℓ} :
    {T : Type 0} {A : Type 0} {B : Type ℓ}
    → (T → EcRelayError → B)
    → (T → A → B)
    → T × Result EcRelayError A
    → B
then_with failed next (t, ok a) = next t a
then_with failed next (t, err e) = failed t e

module _ {T : Type 0} (transport : OdpTransport T) (mctp : MctpCrate) where
  -- The loop over the packets of the request.
  unfoldable pub send_packets :
      T → List (Result String (List ℕ)) → Option (T × Result EcRelayError (Unit {0}))
  send_packets t [] = some (t, ok tt)
  send_packets t (err e ∷ packets) = some (t, err (mctp_serialize e))
  send_packets t (ok packet ∷ packets) =
      Options.◌>>=◌ (transport.send_packet t packet)
        (then_with (λ t' e. some (t', err e)) (λ t' _. send_packets t' packets))

  unfoldable pub send_serialized :
      T
      → Result String (List (Result String (List ℕ)))
      → Option (T × Result EcRelayError (Unit {0}))
  unfolding send_packets
  send_serialized t (err e) = some (t, err (mctp_serialize e))
  send_serialized t (ok packets) = send_packets t packets

  unfoldable pub send_request : T → List ℕ → List ℕ → Option (T × Result EcRelayError (Unit {0}))
  unfolding send_serialized
  send_request t header body =
      send_serialized t
        (mctp.serialize_packet odp_message_type (header_serialize header) (message_serialize body))

  module _ {A : Type 0} where
    -- What follows a received packet: the slice of the buffer, the decoder and the parser.
    unfoldable pub receive :
        EcRelay T
        → (OdpResponse → Result EcRelayError A)
        → List ℕ × ℕ
        → Option (EcRelay T × Result EcRelayError A)
    receive relay parse_response (rx_packet, rx_len) =
        Options.◌>>=◌ (slice rx_packet 0 rx_len) λ packet.
          let (assembly_buf, message) = mctp.deserialize_packet relay.assembly_buf packet in
          some (
            record relay { assembly_buf = assembly_buf },
            message_body message >>= λ body. response_of body >>= parse_response,
          )

    -- An error of the transport.
    unfoldable pub failed :
        EcRelay T → T → EcRelayError → Option (EcRelay T × Result EcRelayError A)
    failed relay t e = some (record relay { transport = t }, err e)

    -- `Relay::invoke` of `EcRelay`.
    unfoldable pub invoke :
        EcRelay T
        → List ℕ
        → List ℕ
        → (OdpResponse → Result EcRelayError A)
        → Option (EcRelay T × Result EcRelayError A)
    unfolding receive send_request failed
    invoke relay request_header request_body parse_response =
        Options.◌>>=◌ (send_request relay.transport request_header request_body) (
          then_with (failed relay) (λ t _.
            then_with (failed relay)
              (λ t' packet. receive (record relay { transport = t' }) parse_response packet)
              (transport.recv_framed_packet t (replicate 256 0))))

  abbrev pub ec_relay : Relay (EcRelay T)
  ec_relay = record { invoke = λ A r header body parse. invoke r header body parse }
