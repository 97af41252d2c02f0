-- ===== src/Relay.antt =====
-- ec-service-lib/src/services/ec_relay.rs: requests to the embedded controller, over MCTP on a UART.
pub mod Header
pub mod Interface
pub mod Transport
pub mod Exchange
pub mod Wire
pub mod Framing
pub mod Delivery
pub mod Total
pub mod Tests
