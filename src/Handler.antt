-- ===== src/Handler.antt =====
-- The dispatch of messages: the chain of services and the loop that answers them
-- (ec-service-lib/src/message_handler.rs, service.rs and msg_loop of lib.rs).
pub mod Chain
pub mod Routing
pub mod Loop
pub mod Reply
pub mod Trace
pub mod Run
pub mod Tests
