-- ===== src/Services/Ucsi.antt =====
-- services/ucsi.rs: `Ucsi`, which has no state. `none` is a panic.
use odp_secure_services.Ffa.Error.{unexpected_doorbell_tag, other}
use odp_secure_services.Base.Bytes.{le_bytes}
use odp_secure_services.Ffa.Payload.{slice, u8_at}
use odp_secure_services.Base.{
  ◌-◌, none, replicate, drop, ◌++◌, err, take, some, length, ◌&&◌, not, get_elem?, leb, ◌+◌, ◌==◌,
  [], Option, if◌then◌else◌, ◌∷◌, List, ℕ,
}
use odp_secure_services.Ffa.Message.{MsgSendDirectReq2, Uuid}
use odp_secure_services.Base.Options.{◌>>=◌}
use odp_secure_services.Services.Common.{Handled, respond}

abbrev pub ucsi_uuid : Uuid
ucsi_uuid = 0x65467f50827f4e4f8770dbf4c3f77f45

abbrev pub mailbox_len : ℕ
mailbox_len = 48

-- The offsets of the mailbox in the payload and of its parts.
abbrev pub mailbox_payload_start : ℕ
mailbox_payload_start = 1

abbrev pub version_offset : ℕ
version_offset = 0

abbrev pub cci_offset : ℕ
cci_offset = 4

abbrev pub control_offset : ℕ
control_offset = 8

abbrev pub message_in_offset : ℕ
message_in_offset = 16

abbrev pub ucsi_version : ℕ
ucsi_version = 0x0120

abbrev pub doorbell : ℕ
doorbell = 0

abbrev pub connector_one : ℕ
connector_one = 1

abbrev pub capability_message_in : List ℕ
capability_message_in =
    0x46 ∷ 0x40 ∷ 0 ∷ 0 ∷ 1 ∷ 0 ∷ 0 ∷ 0 ∷ 0 ∷ 0 ∷ 0x20 ∷ 0x01 ∷ 0 ∷ 3 ∷ 0 ∷ 2 ∷ []

abbrev pub connector_capability_message_in : List ℕ
connector_capability_message_in = 0x64 ∷ 0x03 ∷ []

abbrev pub connector_status_message_in : List ℕ
connector_status_message_in = 0 ∷ 0 ∷ 0x29 ∷ 0x20 ∷ 0 ∷ 0 ∷ 0 ∷ 0 ∷ 0 ∷ 0 ∷ 0 ∷ []

-- The `match` on the opcode: CCI and MESSAGE IN.
unfoldable pub answer_of : ℕ → ℕ → ℕ × List ℕ
answer_of opcode connector =
    if opcode == 0x06
    then (0x80001000, capability_message_in)
    else if (opcode == 0x07) && (connector == connector_one)
    then (0x80000200, connector_capability_message_in)
    else if (opcode == 0x12) && (connector == connector_one)
    then (0x80000B00, connector_status_message_in)
    else (0x02000000, [])

-- `mailbox[offset..offset + bytes.len()].copy_from_slice(bytes)`.
unfoldable pub store : ℕ → List ℕ → List ℕ → Option (List ℕ)
store offset bytes mailbox =
    let end = offset + length bytes in
    if leb end (length mailbox)
    then some (take offset mailbox ++ (bytes ++ drop end mailbox))
    else none

-- `mailbox[offset..].fill(0)`.
unfoldable pub fill_from : ℕ → List ℕ → Option (List ℕ)
fill_from offset mailbox =
    if leb offset (length mailbox)
    then some (take offset mailbox ++ replicate (length mailbox - offset) 0)
    else none

-- The mailbox of the response.
unfoldable pub update_mailbox : List ℕ → Option (List ℕ)
unfolding store fill_from answer_of
update_mailbox mailbox = do
  opcode ← get_elem? mailbox control_offset
  connector ← get_elem? mailbox (control_offset + 2)
  m1 ← store version_offset (le_bytes 2 ucsi_version) mailbox
  m2 ← store cci_offset (le_bytes 4 (answer_of opcode connector).0) m1
  m3 ← fill_from message_in_offset m2
  store message_in_offset (answer_of opcode connector).1 m3

-- `ffa_msg_send_direct_req2`.
unfoldable pub handle : Unit {0} → MsgSendDirectReq2 → Handled (Unit {0})
unfolding update_mailbox
handle u msg = u8_at msg.payload 0 >>= λ tag.
    if not (tag == doorbell) then some (u, err (other unexpected_doorbell_tag)) else (do
      mailbox ← slice msg.payload mailbox_payload_start (mailbox_payload_start + mailbox_len)
      updated ← update_mailbox mailbox
      respond msg u updated)
