-- ===== src/Handler/Tests.antt =====
-- The chain and the message loop on concrete services.
use odp_secure_services.Ffa.Smc.{SmcCall}
use odp_secure_services.Handler.Routing.{node_handle-routes}
use odp_secure_services.Ffa.Error.{Error}
use odp_secure_services.Base.Options.{Returns}
use odp_secure_services.Handler.Run.{notify_service}
use odp_secure_services.Ffa.Message.{MsgSendDirectResp2, MsgSendDirectReq2}
use odp_secure_services.Base.{◌⊎◌, refl, arith, [], ◌≤◌, ◌∷◌, err, ok, suc, Result, some, ◌≡◌, ℕ}
use odp_secure_services.Handler.Chain.{Service, Node, terminal, inner, node_handle}
use odp_secure_services.Ffa.Tests.{zeros, uuid_crate}
use odp_secure_services.Ffa.CallTests.{obliging}
use odp_secure_services.Handler.Reply.{IsChain, inner_chain, terminal_chain}
use odp_secure_services.Handler.Run.{
  notify_service, notify_service-ServiceLaws, run_message_loop-Conversation,
}
use odp_secure_services.Handler.Loop.{run_message_loop}
use odp_secure_services.Handler.Trace.{Conversation}
use odp_secure_services.Handler.Routing.{node_handle-routes}
use odp_secure_services.Notify.Keeps.{new-IsExact}
use odp_secure_services.Notify.Types.{new}

-- A service that counts its messages and answers with zeros.
abbrev counter : ℕ → Service
counter id = record {
  State = ℕ;
  uuid = id;
  handle = λ n msg. some (
    suc n,
    ok (record {
      source_id = msg.destination_id;
      destination_id = msg.source_id;
      uuid = msg.uuid;
      payload = zeros;
    }),
  );
}

abbrev request : MsgSendDirectReq2
request = record { source_id = 7; destination_id = 0x8001; uuid = 2; payload = zeros }

abbrev reply : MsgSendDirectResp2
reply = record { source_id = 0x8001; destination_id = 7; uuid = 2; payload = zeros }

node_handle-routes_example :
    node_handle (inner (counter 5) 10 (inner (counter 2) 20 terminal)) request
    ≡ some (inner (counter 5) 10 (inner (counter 2) 21 terminal), ok reply)
node_handle-routes_example =
    node_handle-routes ((counter 5, 10) ∷ []) (counter 2) 20 21 terminal request (ok reply)
      (omega arith) refl refl

abbrev chain : Node
chain = inner (notify_service uuid_crate) new terminal

chain-IsChain : IsChain chain
chain-IsChain =
    inner_chain (notify_service uuid_crate) (notify_service-ServiceLaws uuid_crate) new terminal
      new-IsExact.valid terminal_chain

run_message_loop-Conversation_example :
    Returns
      (λ (r : ℕ × Node × Result Error SmcCall).
        (j : ℕ) × (j ≤ 2)
        × IsChain r.1
        × Conversation obliging uuid_crate 0 j r.0 r.2
        × ((j ≡ 2) ⊎ ((e : Error) × (r.2 ≡ err e))))
      (run_message_loop obliging uuid_crate 2 0 chain)
run_message_loop-Conversation_example =
    run_message_loop-Conversation obliging uuid_crate (λ w id params. refl) 2 0 chain chain-IsChain
