-- ===== src/Tpm.antt =====
-- ec-service-lib/src/services/tpm.rs: the TPM service over FF-A. `Registers` has the register block
-- of a locality, `Command` the state machine of a command, `Service` the handlers.
pub mod Registers
pub mod InterfaceIdentifier
pub mod Command
pub mod Service
pub mod Machine
pub mod Isolation
pub mod Access
pub mod Answers
pub mod Once
pub mod Sst
pub mod Tests
