-- ===== src/Uart.antt =====
-- qemu-sp-uart/src/lib.rs: the driver of the PL011 UART.
pub mod Driver
pub mod Receiving
pub mod Sending
pub mod Tests
