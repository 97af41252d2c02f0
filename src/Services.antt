-- ===== src/Services.antt =====
-- ec-service-lib/src/services: the services that forward requests to the embedded controller, and
-- those that answer by themselves (ucsi.rs, fw_mgmt.rs, tpm_stub.rs).
pub mod Common
pub mod TimeAlarm
pub mod Thermal
pub mod Battery
pub mod Ucsi
pub mod FwMgmt
pub mod QemuBattery
pub mod Total
pub mod Relayed
pub mod Handles
pub mod Fields
pub mod Mailbox
pub mod Local
pub mod Tests
