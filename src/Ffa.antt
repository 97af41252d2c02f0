-- ===== src/Ffa.antt =====
-- The FF-A layer: error codes, register payloads and direct messages (odp-ffa/src).
pub mod Error
pub mod Payload
pub mod Message
pub mod Smc
pub mod Functions
pub mod Console
pub mod Tests
pub mod CallTests
