-- ===== src/Hafnium.antt =====
-- hafnium/src/lib.rs and aarch64-haf/src/interrupt.rs: the calls of the hypervisor about interrupts,
-- and the handler of the interrupt exception.
pub mod Calls
pub mod Irq
pub mod Queue
pub mod Tests
