-- ===== src/Espi.antt =====
-- espi-device/src: the codes of commands and cycles on an eSPI bus.
pub mod OpCode
pub mod CycleType
pub mod Decoding
pub mod Tests
