-- ===== src/Tpm/Sst/Tests.antt =====
-- The state translation library over a FIFO that is always ready: it keeps what is written to it, and
-- gives the bytes of a response. The counter counts its readings.
use odp_secure_services.Tpm.Sst.Clock.{IsCovered, unit-Quiet, Quiet, Clock}
use odp_secure_services.Tpm.Sst.Running.{handle-IsRunning, is_running}
use odp_secure_services.Tpm.Sst.Service.{sst_ops}
use odp_secure_services.Tpm.Answers.{IsServed}
use odp_secure_services.Tpm.Command.{TpmService}
use odp_secure_services.Tpm.Sst.Delivery.{read_tpm_response-delivers}
use odp_secure_services.Tpm.Sst.Transfer.{write_burst, sent_burst, write_fifo, copy_command_data}
use odp_secure_services.Tpm.Sst.Transitions.{transitions-SettledAt, field, SettledAt}
use odp_secure_services.Tpm.Sst.Sending.{copy_command_data-Wrote, Writer, Wrote}
use odp_secure_services.Tpm.Sst.Packet.{read_tpm_response, packet_size}
use odp_secure_services.Tpm.Sst.Poll.{
  then_call, check_register, while_short, spin, delay_microseconds, after_attempt, poll_loop, poll,
  read_burst, fifo_read_burst_count, wait_register_bits, read_register, bits_match,
}
use odp_secure_services.Base.Options.{Returns}
use odp_secure_services.Tpm.Registers.{
  crb_data_buffer_size, zero_bytes, zero_registers, PtpCrbRegisters,
}
use odp_secure_services.Tpm.Sst.Registers.{
  wait_register_bits-ready, wait_register_bits-Waited, Waited,
}
use odp_secure_services.Ffa.Functions.Scheduling.{new_yield, yield_exec}
use odp_secure_services.Tpm.Sst.Board.{
  external, TpmSst, new_sst, counter_ticks_for_microseconds, Board,
}
use odp_secure_services.Tpm.Sst.Fifo
use odp_secure_services.Tpm.Sst.Crb
use odp_secure_services.Tpm.Sst.Response.{Reads}
use odp_secure_services.Tpm.Sst.Ops.{
  identified, start, go_idle, cmd_ready, locality_request, locality_relinquish,
}
use odp_secure_services.Tpm.Sst.Start.{Started, start-Started}
use odp_secure_services.Tpm.Service.{handle}
use odp_secure_services.Ffa.Tests.{zeros, zeros-IsPayload}
use odp_secure_services.Tpm.Registers.{TpmState, opened, closed}
use mathlib.Core.Path.{subst}
use odp_secure_services.Ffa.Smc.{exec_simple, ffa_smc, smc_call_from, handle_result_simple}
use odp_secure_services.Ffa.Error.{ErrorCode, try_parse_function_id}
use odp_secure_services.Ffa.Message.{MsgSendDirectReq2, try_from_iter}
use odp_secure_services.Ffa.Error.{function_id_to_u64, Error, success32}
use odp_secure_services.Base.{
  some, take, true, suc, Option, false, ◌∙◌, sym, ◌≤◌, replicate, ◌^◌, ◌%◌, ◌+◌, [], Result, ◌∷◌,
  ap, ok, refl, ◌++◌, arith, if_split, ◌==◌, get_or, ◌≡◌, if◌then◌else◌, drop, List, ℕ,
}

record Chip : Type 0 where
  ticks : ℕ
  received : List ℕ
  response : List ℕ

-- The next byte of the response, and zeros after it.
abbrev pop : Chip → Chip × ℕ
pop c = (record c { response = drop 1 c.response }, get_or c.response 0 0)

-- The status says valid, ready and data; a burst is four bytes; the interface is a FIFO.
abbrev read : Chip → ℕ → Chip × ℕ
read c address = if address == Fifo.data_fifo then pop c else (
  c,
  if address == Fifo.burst_count
      then 4
      else if address == Fifo.access
      then 0xA0
      else if address == Fifo.status
      then 0xD0
      else 0,
)

abbrev chip : Board Chip
chip = record {
  read_u8 = read;
  read_u32 = λ c address. (c, 0);
  write_u8 = λ c address v. record c {
    received = if address == Fifo.data_fifo then c.received ++ (v ∷ []) else c.received;
  };
  write_u32 = λ c address v. c;
  counter = λ c. (record c { ticks = c.ticks + 1 }, (c.ticks + 1) % 2 ^ 64);
  frequency = 1;
  monitor = record { smc = λ c id params. (c, function_id_to_u64 success32 ∷ replicate 17 0) };
}

read_ticks : (c : Chip) (address : ℕ) → (read c address).0.ticks ≡ c.ticks
read_ticks c address =
    if_split (λ (r : Chip × ℕ). r.0.ticks ≡ c.ticks) (address == Fifo.data_fifo) (λ t. refl)
      (λ t. refl)

read_received : (c : Chip) (address : ℕ) → (read c address).0.received ≡ c.received
read_received c address =
    if_split (λ (r : Chip × ℕ). r.0.received ≡ c.received) (address == Fifo.data_fifo) (λ t. refl)
      (λ t. refl)

yields : (c : Chip) → yield_exec chip.monitor c (new_yield 0) ≡ (c, ok tt)
unfolding yield_exec exec_simple ffa_smc smc_call_from handle_result_simple try_parse_function_id
    function_id_to_u64 try_from_iter
yields c = refl

clock : Clock chip 1
clock = record {
  time = λ c. c.ticks;
  counter_value = λ c. refl;
  counter_moves = λ c. omega arith;
  counter_gap = λ c. omega arith;
  read_u8_keeps = λ c a. omega (arith, read_ticks c a);
  read_u8_gap = λ c a. omega (arith, read_ticks c a);
  read_u32_keeps = λ c a. omega arith;
  read_u32_gap = λ c a. omega arith;
  yield_ok = λ c. ap (λ (r : Chip × Result Error (Unit {0})). r.1) (yields c);
  yield_keeps = λ c.
      subst (λ (r : Chip × Result Error (Unit {0})). c.ticks ≤ r.0.ticks) (sym (yields c))
        (omega arith);
  yield_gap = λ c.
      subst (λ (r : Chip × Result Error (Unit {0})). r.0.ticks ≤ c.ticks + 1) (sym (yields c))
        (omega arith);
}

covered : IsCovered chip 1 100
unfolding counter_ticks_for_microseconds
covered = record { fits = omega arith; enough = omega arith }

keeps_received : (bytes : List ℕ) → Quiet chip (λ c. c.received ≡ bytes)
keeps_received bytes = record {
  counter_quiet = λ c p. p;
  read_u8_quiet = λ c a p. read_received c a ∙ p;
  read_u32_quiet = λ c a p. p;
  yield_quiet = λ c p. ap (λ (r : Chip × Result Error (Unit {0})). r.0.received) (yields c) ∙ p;
}

abbrev fifo_sst : TpmSst
fifo_sst = record {
  is_crb_interface = false;
  is_idle_bypass_supported = false;
  tpm_crb_address = 0;
}

received_byte :
    (done : List ℕ) (c : Chip) (byte : ℕ)
    → c.received ≡ done
    → (chip.write_u8 c (external fifo_sst 0 Fifo.data_fifo) byte).received ≡ done ++ (byte ∷ [])
unfolding external
received_byte done c byte e = ap (λ (l : List ℕ). l ++ (byte ∷ [])) e

-- A response of twelve bytes.
abbrev twelve : List ℕ
twelve = 0x80 ∷ 1 ∷ 0 ∷ 0 ∷ 0 ∷ 12 ∷ 0 ∷ 0 ∷ 0 ∷ 0 ∷ 7 ∷ 9 ∷ []

abbrev fresh : Chip
fresh = record { ticks = 5; received = []; response = twelve }

abbrev block : PtpCrbRegisters
block = record zero_registers {
  crb_control_command_size = crb_data_buffer_size;
  crb_control_response_size = 64;
}

identified_lem :
    (identified (new_sst 0) 0x4111
      ≡ record { is_crb_interface = true; is_idle_bypass_supported = false; tpm_crb_address = 0 })
    × (external fifo_sst 3 Fifo.data_fifo ≡ 0x3024)
    × (counter_ticks_for_microseconds 1000000000 30 ≡ 30000)
    × (counter_ticks_for_microseconds 1 30 ≡ 1)
unfolding identified new_sst external counter_ticks_for_microseconds
identified_lem = (refl, refl, refl, refl)

wait_register_bits-Waited_example :
    Returns
      (Waited chip 1 100 clock covered
        (λ c. Unit {0})
        (unit-Quiet chip)
        fifo_sst
        0x18
        0x80
        8
        200000)
      (wait_register_bits chip 100 fifo_sst 0x18 0x80 8 200000 fresh)
wait_register_bits-Waited_example =
    wait_register_bits-Waited chip 1 100 clock covered (λ c. Unit {0}) (unit-Quiet chip) fifo_sst
      0x18 0x80 8 200000 fresh (omega arith) tt

status_ready :
    (c : Chip) → Unit {0} → bits_match 0x80 8 (read_register chip fifo_sst 0x18 c).1 ≡ true
unfolding bits_match read_register
status_ready c u = refl

wait_register_bits-ready_example :
    Returns
      (λ r. r.1 ≡ ErrorCode.ok)
      (wait_register_bits chip 100 fifo_sst 0x18 0x80 8 200000 fresh)
wait_register_bits-ready_example =
    wait_register_bits-ready chip 1 100 clock covered (λ c. Unit {0}) (unit-Quiet chip) fifo_sst
      0x18 0x80 8 200000 fresh (omega arith) tt status_ready

abbrev receiver : Writer chip (external fifo_sst 0 Fifo.data_fifo)
receiver = record {
  Written = λ done c. c.received ≡ done;
  written_byte = received_byte;
  written_quiet = keeps_received;
}

copy_command_data-Wrote_example :
    Returns
      (Wrote receiver.Written [] (take 5 (1 ∷ 2 ∷ 3 ∷ 4 ∷ 5 ∷ 0 ∷ [])))
      (copy_command_data chip 100 fifo_sst 0 (1 ∷ 2 ∷ 3 ∷ 4 ∷ 5 ∷ 0 ∷ []) 5 fresh)
copy_command_data-Wrote_example =
    copy_command_data-Wrote chip fifo_sst 0 receiver 1 100 clock covered
      (1 ∷ 2 ∷ 3 ∷ 4 ∷ 5 ∷ 0 ∷ []) [] 5 fresh refl refl

start-Started_example : Returns (Started block) (start chip 100 fifo_sst 0 block fresh)
start-Started_example = start-Started chip 1 100 clock covered fifo_sst 0 block fresh

transitions-SettledAt_example :
    Returns
      (SettledAt chip fifo_sst 0 (field Crb.crb_control_status 2 0) (field Fifo.status 0x40 0))
      (go_idle chip 100 fifo_sst 0 fresh)
    × Returns
        (SettledAt chip fifo_sst 0 (field Crb.crb_control_status 0 2) (field Fifo.status 0x40 0))
        (cmd_ready chip 100 fifo_sst 0 fresh)
    × Returns
        (SettledAt chip fifo_sst 0 (field Crb.locality_status 1 0) (field Fifo.access 0xA0 0))
        (locality_request chip 100 fifo_sst 0 fresh)
    × Returns
        (SettledAt chip fifo_sst 0 (field Crb.locality_status 0 1) (field Fifo.access 0x80 0x20))
        (locality_relinquish chip 100 fifo_sst 0 fresh)
transitions-SettledAt_example = transitions-SettledAt chip 1 100 clock covered fifo_sst 0 fresh

-- A closure that gives the bytes of a list, and zeros after them.
abbrev feed : List ℕ → ℕ → Option (List ℕ × Result ErrorCode ℕ)
feed bytes offset = some (drop 1 bytes, ok (get_or bytes 0 0))

feed-Reads : (bytes : List ℕ) (offset : ℕ) → Reads feed bytes offset bytes []
feed-Reads [] offset = Reads.done [] offset
feed-Reads (x ∷ bytes) offset =
    Reads.next (x ∷ bytes) bytes [] offset x bytes refl (feed-Reads bytes (suc offset))

read_tpm_response-delivers_example :
    read_tpm_response feed twelve (zero_bytes 14)
    ≡ some ([], twelve ++ drop 12 (zero_bytes 14), ok 12)
unfolding packet_size zero_bytes
read_tpm_response-delivers_example =
    read_tpm_response-delivers feed twelve [] (zero_bytes 14) twelve (omega arith) (omega arith)
      (omega arith) refl (feed-Reads twelve 0)

-- Five bytes go out in two bursts; each wait reads the counter three times.
copied_run :
    copy_command_data chip 100 fifo_sst 0 (1 ∷ 2 ∷ 3 ∷ 4 ∷ 5 ∷ 0 ∷ []) 5 fresh
    ≡ some
        (record { ticks = 14; received = 1 ∷ 2 ∷ 3 ∷ 4 ∷ 5 ∷ []; response = twelve }, ErrorCode.ok)
unfolding copy_command_data write_fifo sent_burst write_burst fifo_read_burst_count read_burst poll
    poll_loop after_attempt delay_microseconds spin while_short wait_register_bits check_register
    read_register bits_match then_call external counter_ticks_for_microseconds
copied_run = refl

-- The service over the chip, with locality 0 active.
abbrev serving : TpmService (Option (TpmSst × Chip))
serving = record {
  current_state = TpmState.ready;
  active_locality = 0;
  interface_id_default = 0x4111;
  locality_states = opened ∷ opened ∷ closed ∷ closed ∷ closed ∷ [];
  tpm_internal_crb_address = 0x10000000;
  notification_registered = false;
  sst = some (fifo_sst, fresh);
  crbs = λ i. record block { crb_control_start = 1 };
}

abbrev request : MsgSendDirectReq2
request = record { source_id = 3; destination_id = 0x8001; uuid = 2; payload = zeros }

handle-IsRunning_example :
    Returns
      (λ r. IsServed (sst_ops chip 100) serving request r × (is_running r.0.sst ≡ true))
      (handle (sst_ops chip 100) serving request)
handle-IsRunning_example =
    handle-IsRunning chip 1 100 clock covered serving request zeros-IsPayload refl
