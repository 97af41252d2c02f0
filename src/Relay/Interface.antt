-- ===== src/Relay/Interface.antt =====
-- ec_relay.rs: the trait `Relay`, and the requests that it makes with a check of the response.
use odp_secure_services.Base.Results.{Yields}
use odp_secure_services.Base.Bytes.{IsByte}
use odp_secure_services.Base.Options.{Returns}
use odp_secure_services.Base.{
  All, ◌==◌, not, true, err, if◌then◌else◌, Option, Result, ℕ, List, Bool,
}
use odp_secure_services.Relay.Header.{
  remote, unexpected_odp_service, unexpected_odp_request, build_odp_header, EcRelayError,
}

pub record OdpResponse : Type 0 where
  pub is_request : Bool
  pub service_id : ℕ
  pub is_error : Bool
  pub message_id : ℕ
  pub body : List ℕ

-- `Relay::invoke` on a relay in state `R`: the header and the body of the request, and what reads the
-- response. `none` is a panic.
pub record Relay (R : Type 0) : Type 1 where
  pub invoke :
      (A : Type 0)
      → R
      → List ℕ
      → List ℕ
      → (OdpResponse → Result EcRelayError A)
      → Option (R × Result EcRelayError A)

-- The closure of `invoke_request_with_response_id`.
unfoldable pub check_response :
    {A : Type 0} → ℕ → ℕ → (List ℕ → Result EcRelayError A) → OdpResponse → Result EcRelayError A
check_response service_id expected_response_message_id parse_body response =
    if response.is_request
    then err unexpected_odp_request
    else if not (response.service_id == service_id)
    then err unexpected_odp_service
    else if response.is_error
    then err (remote response.message_id)
    else if not (response.message_id == expected_response_message_id)
    then err unexpected_odp_service
    else parse_body response.body

module _ {R : Type 0} (relay : Relay R) {A : Type 0} where
  unfoldable pub invoke_request_with_response_id :
      ℕ → ℕ → ℕ → List ℕ → (List ℕ → Result EcRelayError A) → R → Option (R × Result EcRelayError A)
  invoke_request_with_response_id service_id request_message_id expected_response_message_id
        request_body parse_body r =
      relay.invoke A r (build_odp_header true service_id request_message_id) request_body
        (check_response service_id expected_response_message_id parse_body)

  unfoldable pub invoke_request :
      ℕ → ℕ → List ℕ → (List ℕ → Result EcRelayError A) → R → Option (R × Result EcRelayError A)
  unfolding invoke_request_with_response_id
  invoke_request service_id message_id request_body parse_body r =
      invoke_request_with_response_id service_id message_id message_id request_body parse_body r

-- What the services need of a relay: in states of an invariant it does not panic, and keeps it, and
-- the body that it hands to the parser consists of bytes.
pub record RelayLaws {R : Type 0} (relay : Relay R) : Type 1 where
  pub Valid : R → Type 0
  pub total :
      (A : Type 0) (P : A → Type 0) (r : R) (header body : List ℕ)
      (parse : OdpResponse → Result EcRelayError A)
      → Valid r
      → ((response : OdpResponse) → All IsByte response.body → Yields P (parse response))
      → Returns (λ x. Valid x.0 × Yields P x.1) (relay.invoke A r header body parse)
