-- ===== src/Ffa/Functions.antt =====
-- odp-ffa/src/function: the functions of the interface, each with its registers and its `exec`.
pub mod Setup
pub mod Notification
pub mod Scheduling
pub mod RoundTrip
