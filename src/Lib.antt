-- ===== src/Lib.antt =====
-- The services of a secure partition of the embedded controller: messages of FF-A (Arm's Firmware
-- Framework) reach a service as direct requests, and the service answers with a direct response.
-- The message handler routes a request by its UUID to a service of its chain, and some services
-- forward it to the embedded controller through the relay.
--
-- Base: Boolean tests, lists, options, results, bits and little-endian bytes over the native ℕ.
-- `Option` is the code that can panic, `none` being the panic, and `Returns P` says that it does
-- not and that its value satisfies `P`. `Yields P` says the same of what a `Result` holds.
--
-- Ffa: odp-ffa/src. `Ffa.Error` has the error and function codes of lib.rs, `Ffa.Payload` the 112
-- bytes of payload of function/msg/register_payload.rs, `Ffa.Message` the direct messages of
-- function/msg and the registers of smc.rs that they travel in. The uuid crate is the parameter
-- `UuidCrate`, and `UuidLaws` is what its documentation says of a pair of words. `Ffa.Smc` has
-- `exec_simple` and what surrounds it; the SMC instruction is the parameter `Monitor`, a function
-- on a world `W`. `Ffa.Functions` has the other functions of function/, by what they are for, and
-- `Ffa.Console` the writer of console.rs.
--
-- Handler: ec-service-lib/src/service.rs, message_handler.rs and `msg_loop` of lib.rs. `Chain` has
-- the list of services, `Loop` the loop, a round of which is a function of its own (`round`).
-- `Reply` has the contract of a service, `ServiceLaws`, and `Run` that `Notify` and `TpmService`
-- keep it. `Routing` says which service answers, `Trace` what the loop says to the monitor.
--
-- Relay: ec-service-lib/src/services/ec_relay.rs. `Header` has the header of a request, `Interface`
-- the trait `Relay`, a record whose `invoke` takes what reads the response, `Transport` the UART and
-- `Exchange` the struct `EcRelay`. The driver behind embedded_io is the parameter `Uart`, whose
-- `write_all` panics when the driver takes no byte; the MCTP crate is the parameter `MctpCrate`.
-- `Wire` is about the header, `Framing` about the packets, `Delivery` about a request and its
-- response, `Total` about panics.
--
-- Services: time_alarm.rs, thermal.rs and battery.rs of ec-service-lib/src/services, and
-- `parse_ffa_request` of mod.rs. A handler works on the state of the relay, which is what the
-- `RefCell` holds; a request struct is its bytes. `Common` has the shapes of the answers, `Relayed`
-- what a response becomes. `Ucsi` is ucsi.rs, `FwMgmt` fw_mgmt.rs and tpm_stub.rs, and `QemuBattery`
-- platform/qemu-sp/src/battery.rs; they do not use the relay. `FwMgmt`
-- works on the world of the monitor that it calls. `Fields` and `Mailbox` are about the mailbox of
-- `Ucsi`, `Handles` and `Local` about panics.
--
-- Notify: ec-service-lib/src/services/notify.rs. `Types` has the request, the response and the
-- state `Notify` (16 entries of 64 mappings and a bitmap of 64 ids), `Table` the searches,
-- `nfy_register_mapping` and `nfy_unregister_mapping`, `Service` the six operations and `handle`,
-- which is `ffa_msg_send_direct_req2`. A loop of the source over the tuples of a request is a
-- recursion on their list; the body of the loop is a function of its own (`register_one`,
-- `unregister_one`). `Valid` has the invariant of the tables, `Exact` that of the bitmap, `Rounds`
-- and `Commit` what one round and the write-back do, `Keeps` and `Panics` the operations, `Atomic`
-- the refused requests.
--
-- Tpm: ec-service-lib/src/services/tpm.rs, with the registers and the trait of tpm_sst.rs. To the
-- service the trait `TpmSstOps` is a parameter: a record of state-passing functions on a type `S`, of which
-- nothing is assumed. The memory of the internal CRB is a function from a locality to its block, a
-- record with a field for each register; `crb_address` is the address of `crb_ptr`. `Command` has
-- the state machine of a command and of a locality request, `Service` the handlers and the
-- dispatch of a message. `Machine` has the state diagram, `Isolation` what a message leaves alone,
-- `Access` who may act on what, `Answers` the registers of a request and its response, `Once` the
-- registers that a start message consumes and the state that `init` leaves.
--
-- Tpm.Sst: the rest of ec-service-lib/src/services/tpm_sst.rs, which drives a TPM over a CRB or a
-- FIFO, as it is built for the target (`target_os = "none"`). The volatile accesses, the counter and
-- the monitor that `Yield` calls are the parameter `Board`, over a world `W`; a register is an address.
-- `Packet` has the lengths and the reading of a response, whose closure is a function on a state,
-- `Poll` the delay and the waits, `Transfer` the command and the response, `Ops` the operations of the
-- trait, each a function of the world. `Waiting` and `Registers` are about the waits, `Response`,
-- `Answer` and `Delivery` about the reading, `Sending` about a FIFO, `Buffers`, `Receiving` and
-- `Start` about `start`, `Transitions` about the other operations. `Service` puts the library under
-- the TPM service, and `Running` is about the two together. What is assumed of the hardware
-- are the records `Clock` (the counter counts the time, up to a wrap-around, and moves between two
-- readings; an access takes at most `gap` ticks; a yield succeeds) and `Writer` (any record of what
-- has been written to the FIFO).
--
-- Uart: qemu-sp-uart/src/lib.rs, over the trait `Mmio` as a parameter. `Drains` says that a transmit
-- FIFO does not stay full, and that a byte is sent that is written while it has room.
--
-- Espi: espi-device/src/espi_types, the codes of commands and of cycle types.
--
-- Hafnium: `Calls` is hafnium/src/lib.rs, over the instruction `hvc` as a parameter, and `Irq` is
-- `irq_current` of aarch64-haf/src/interrupt.rs, over the program's interrupt handler. `Queue` says
-- what is assumed of the two (`Interrupts`).
--
-- A w-bit integer is a natural number and a truncation is written out (`% 2 ^ w`). Some recursions
-- are on a number: `write_str` on fuel, the length of the text, which is enough since a round takes
-- a byte at least, and the message loop on the rounds after which it is stopped, since the source's
-- loop ends by an error only. The loops of tpm_sst.rs that wait for the counter have fuel, of which
-- more than the ticks of the longest timeout (`IsCovered`) is enough; its loop over bursts has the
-- length of the command, since a burst is a byte at least; a write to the UART has more than the polls
-- that a full FIFO takes to drain. The other recursions are structural.
--
-- Not modelled: logging, the instructions smc and hvc, the test feature of the TPM
-- service, the main functions, the register structs of the eSPI device, which a macro of another crate makes, and of
-- the images what is not named above. An address of a register is not reduced modulo 2 ^ 64.
pub mod Base
pub mod Espi
pub mod Ffa
pub mod Hafnium
pub mod Handler
pub mod Notify
pub mod Relay
pub mod Services
pub mod Tpm
pub mod Uart
