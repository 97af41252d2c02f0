-- ===== src/Handler/Routing.antt =====
-- Which service a message reaches.
use odp_secure_services.Base.{
  true, false, ℕ, ◌≡◌, ◌≢◌, refl, List, [], ◌∷◌, some, Result, err, ◌==◌, All, arith,
}
use odp_secure_services.Ffa.Error.{Error, other, unknown_uuid}
use odp_secure_services.Ffa.Message.{Uuid, MsgSendDirectReq2, MsgSendDirectResp2}
use odp_secure_services.Handler.Chain.{Service, Node, terminal, inner, node_handle}

-- A service with its state.
abbrev pub Entry : Type 1
Entry = (service : Service) × service.State

-- The entries in front of a chain, the last appended first.
abbrev pub wrap : List Entry → Node → Node
wrap [] node = node
wrap ((service, state) ∷ front) node = inner service state (wrap front node)

abbrev pub Differs : Uuid → Entry → Type 0
Differs uuid (service, state) = service.uuid ≢ uuid

unequal : (a b : ℕ) → a ≢ b → (a == b) ≡ false
unequal a b h = ground arith

equal : (a b : ℕ) → a ≡ b → (a == b) ≡ true
equal a b h = ground arith

-- What lies behind services of other UUIDs answers, and they keep their states.
node_handle-wrap :
    (front : List Entry) (node node' : Node) (msg : MsgSendDirectReq2)
    {r : Result Error MsgSendDirectResp2}
    → All (Differs msg.uuid) front
    → node_handle node msg ≡ some (node', r)
    → node_handle (wrap front node) msg ≡ some (wrap front node', r)
unfolding node_handle
node_handle-wrap [] node node' msg away h = h
node_handle-wrap ((service, state) ∷ front) node node' msg away h =
    rw (unequal service.uuid msg.uuid away.0, node_handle-wrap front node node' msg away.1 h) refl

-- A message is answered by the service of its UUID that was appended last, whatever stands in front
-- of it and behind it, and no other service changes its state.
pub node_handle-routes :
    (front : List Entry) (service : Service) (state state' : service.State) (next : Node)
    (msg : MsgSendDirectReq2) (r : Result Error MsgSendDirectResp2)
    → All (Differs msg.uuid) front
    → service.uuid ≡ msg.uuid
    → service.handle state msg ≡ some (state', r)
    → node_handle (wrap front (inner service state next)) msg
      ≡ some (wrap front (inner service state' next), r)
unfolding node_handle
node_handle-routes front service state state' next msg r away same answer =
    node_handle-wrap front _ (inner service state' next) msg away
      (rw (equal service.uuid msg.uuid same, answer) refl)

-- A message of a UUID that no service has is refused as unknown, and no service changes its state.
pub node_handle-unknown :
    (services : List Entry) (msg : MsgSendDirectReq2)
    → All (Differs msg.uuid) services
    → node_handle (wrap services terminal) msg
      ≡ some (wrap services terminal, err (other unknown_uuid))
unfolding node_handle
node_handle-unknown services msg away = node_handle-wrap services terminal terminal msg away refl
