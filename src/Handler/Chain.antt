-- ===== src/Handler/Chain.antt =====
-- ec-service-lib/src/service.rs and message_handler.rs: services in a linked list. `none` is a panic.
use odp_secure_services.Base.{Option, some, Result, err, ◌==◌, if◌then◌else◌}
use odp_secure_services.Base.Options.{◌>>=◌}
use odp_secure_services.Ffa.Error.{
  Error, other, unknown_uuid, unexpected_function_id, msg_send_direct_req2,
}
use odp_secure_services.Ffa.Message.{Uuid, MsgSendDirectReq2, MsgSendDirectResp2}

-- The trait `Service`, with the state that `&mut self` reaches.
pub record Service : Type 1 where
  pub State : Type 0
  pub uuid : Uuid
  pub handle : State → MsgSendDirectReq2 → Option (State × Result Error MsgSendDirectResp2)

-- `handler_unimplemented`, the default of `ffa_msg_send_direct_req2`.
unfoldable pub handler_unimplemented :
    {S : Type 0} → S → MsgSendDirectReq2 → Option (S × Result Error MsgSendDirectResp2)
handler_unimplemented s msg = some (s, err (unexpected_function_id msg_send_direct_req2))

-- `HandlerNodeTerminal` and `HandlerNodeInner`.
pub data Node : Type 1 where
  terminal : Node
  inner : (service : Service) → service.State → Node → Node

-- `MessageHandler::new` and `append`.
unfoldable pub new : Node
new = terminal

unfoldable pub append : Node → (service : Service) → service.State → Node
append node service state = inner service state node

-- `HandlerNode::handle`.
unfoldable pub node_handle :
    Node → MsgSendDirectReq2 → Option (Node × Result Error MsgSendDirectResp2)
node_handle terminal msg = some (terminal, err (other unknown_uuid))
node_handle (inner service state next) msg =
    let rest = node_handle next msg in
    if service.uuid == msg.uuid
    then (service.handle state msg >>= λ r. some (inner service r.0 next, r.1))
    else (rest >>= λ r. some (inner service state r.0, r.1))
