-- ===== src/Handler/Reply.antt =====
-- The contract of a handler of messages: it answers every well-formed message, without a panic, by a
-- reply or an error, and keeps the invariant of its state. A chain of such services is one.
use odp_secure_services.Base.{inr, inl, ◌==◌, Bool-cases, ◌≡◌, Option, Result, ok, err}
use odp_secure_services.Base.Options.{Returns, returns, Returns->>=}
use odp_secure_services.Ffa.Error.{Error}
use odp_secure_services.Ffa.Payload.{IsPayload}
use odp_secure_services.Ffa.Message.{MsgSendDirectReq2, MsgSendDirectResp2}
use odp_secure_services.Handler.Chain.{Service, Node, terminal, inner, node_handle}

-- A response that goes back where the request came from.
pub record IsReply (request : MsgSendDirectReq2) (response : MsgSendDirectResp2) : Type 0 where
  pub source : response.source_id ≡ request.destination_id
  pub destination : response.destination_id ≡ request.source_id
  pub same_uuid : response.uuid ≡ request.uuid
  pub payload_ok : IsPayload response.payload

abbrev pub RepliesWith : MsgSendDirectReq2 → Result Error MsgSendDirectResp2 → Type 0
RepliesWith request (ok response) = IsReply request response
RepliesWith request (err e) = Unit

-- The handler keeps `P` and answers well-formed messages.
abbrev pub Handles {ℓ κ} :
    {N : Type ℓ}
    → (P : N → Type κ) → (N → MsgSendDirectReq2 → Option (N × Result Error MsgSendDirectResp2))
    → Type (ℓ ⊔ κ)
Handles {N} P handler =
    (n : N) (msg : MsgSendDirectReq2)
    → IsPayload msg.payload
    → P n
    → Returns (λ r. P r.0 × RepliesWith msg r.1) (handler n msg)

-- What a service promises.
pub record ServiceLaws (service : Service) : Type 1 where
  pub Valid : service.State → Type 0
  pub handles : Handles Valid service.handle

-- A chain of services that keep their promises, in valid states.
pub data IsChain : Node → Type 1 where
  terminal_chain : IsChain terminal
  inner_chain :
      (service : Service) (laws : ServiceLaws service) (state : service.State) (next : Node)
      → laws.Valid state
      → IsChain next
      → IsChain (inner service state next)

-- A chain of services that keep their promises answers every message with a payload of 112 bytes,
-- without a panic, by an error or by a reply that goes back to the sender, and stays such a chain.
pub node_handle-IsChain :
    (n : Node) (msg : MsgSendDirectReq2)
    → IsPayload msg.payload
    → IsChain n
    → Returns (λ r. IsChain r.0 × RepliesWith msg r.1) (node_handle n msg)
unfolding node_handle
node_handle-IsChain n msg p terminal_chain = returns _ (terminal_chain, tt)
node_handle-IsChain n msg p (inner_chain service laws state next v chain) =
    let rest = node_handle-IsChain next msg p chain in
    elim (Bool-cases (service.uuid == msg.uuid)) [
      | inl same ↦ rw same (
          Returns->>= _ (laws.handles state msg p v) (λ r (valid, answer).
            returns _ (inner_chain service laws r.0 next valid chain, answer)))
      | inr away ↦ rw away (
          Returns->>= _ rest
            (λ r (chain', answer). returns _ (inner_chain service laws state r.0 v chain', answer)))
    ]
