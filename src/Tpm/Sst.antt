-- ===== src/Tpm/Sst.antt =====
-- ec-service-lib/src/services/tpm_sst.rs: the state translation library, which drives the TPM behind
-- the service. `Board` is the hardware it runs on, `Poll` its waits, `Transfer` the data, `Ops` the
-- operations of the trait.
pub mod Packet
pub mod Crb
pub mod Fifo
pub mod Board
pub mod Poll
pub mod Transfer
pub mod Ops
pub mod Clock
pub mod Conditions
pub mod Waiting
pub mod Registers
pub mod Sending
pub mod Response
pub mod Answer
pub mod Buffers
pub mod Receiving
pub mod Start
pub mod Transitions
pub mod Delivery
pub mod Tests
pub mod Service
pub mod Running
