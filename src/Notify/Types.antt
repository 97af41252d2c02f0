-- ===== src/Notify/Types.antt =====
-- notify.rs: the constants, the request with its wire layout, the response, and the tables.
use odp_secure_services.Base.{
  ℕ, zero, suc, ◌+◌, ◌*◌, ◌/◌, ◌%◌, ◌^◌, min, bit_and, bit_or, List, [], ◌∷◌, Bool, true, false,
  Option, none, some, ltb, ◌==◌, if◌then◌else◌, take, replicate,
}
use odp_secure_services.Base.Options.{◌>>=◌}
use odp_secure_services.Base.Bytes.{register_bytes}
use odp_secure_services.Ffa.Error.{ErrorCode, to_u64}
use odp_secure_services.Ffa.Payload.{DirectMessagePayload, from_iter, register_at}
use odp_secure_services.Ffa.Message.{Uuid, UuidCrate, MsgSendDirectReq2}

abbrev pub notify_max_services : ℕ
notify_max_services = 16

abbrev pub notify_max_mappings : ℕ
notify_max_mappings = 64

abbrev pub notify_max_tuples_per_req : ℕ
notify_max_tuples_per_req = 7

abbrev pub message_info_dir_resp : ℕ
message_info_dir_resp = 0x100

pub data MessageId : Type 0 where
  add remove setup destroy assign unassign : MessageId

abbrev pub message_id_to_u64 : MessageId → ℕ
message_id_to_u64 add = 0
message_id_to_u64 remove = 1
message_id_to_u64 setup = 2
message_id_to_u64 destroy = 3
message_id_to_u64 assign = 4
message_id_to_u64 unassign = 5

-- `MessageInfo::message_id`: the low three bits, read by `TryFromPrimitive`.
unfoldable pub message_id : ℕ → Option MessageId
message_id info =
    let raw = bit_and info 7 in
    if raw == 0
    then some add
    else if raw == 1
    then some remove
    else if raw == 2
    then some setup
    else if raw == 3
    then some destroy
    else if raw == 4
    then some assign
    else if raw == 5
    then some unassign
    else none

pub data NotifyType : Type 0 where
  global per_vcpu : NotifyType

abbrev pub type_eq : NotifyType → NotifyType → Bool
type_eq global global = true
type_eq per_vcpu per_vcpu = true
type_eq _ _ = false

-- Cookie, notification id and type.
abbrev pub NotifyTuple : Type 0
NotifyTuple = ℕ × ℕ × NotifyType

pub record NotifyReq : Type 0 where
  pub src_id : ℕ
  pub sender_uuid : Uuid
  pub receiver_uuid : Uuid
  pub msg_info : ℕ
  pub count : ℕ
  pub notifications : List NotifyTuple

-- `req.notifications.iter().take(req.count as usize)`.
abbrev pub requested : NotifyReq → List NotifyTuple
requested req = take req.count req.notifications

unfoldable pub extract_tuple : ℕ → NotifyTuple
extract_tuple value = (
  value / 2 ^ 32 % 2 ^ 32,
  bit_and (value / 2 ^ 23) 0x1ff,
  if bit_and value 1 == 0 then global else per_vcpu,
)

-- Slot `i` of the array of tuples is read from register x7 + i if `i` is below the count.
unfoldable pub tuple_at : DirectMessagePayload → ℕ → ℕ → Option NotifyTuple
tuple_at payload count i =
    if ltb i count
    then (register_at payload (7 + i) >>= λ value. some (extract_tuple value))
    else some (0, 0, global)

-- The slots from `i` on.
unfoldable pub read_tuples : DirectMessagePayload → ℕ → ℕ → ℕ → Option (List NotifyTuple)
read_tuples payload count i zero = some []
read_tuples payload count i (suc slots) = do
  tuple ← tuple_at payload count i
  rest ← read_tuples payload count (i + 1) slots
  some (tuple ∷ rest)

-- `NotifyReq::from`.
unfoldable pub notify_req_from : UuidCrate → MsgSendDirectReq2 → Option NotifyReq
notify_req_from c msg = do
  r1 ← register_at msg.payload 1
  r2 ← register_at msg.payload 2
  r3 ← register_at msg.payload 3
  r4 ← register_at msg.payload 4
  r5 ← register_at msg.payload 5
  r6 ← register_at msg.payload 6
  let count = min (bit_and r6 0x1ff) notify_max_tuples_per_req % 2 ^ 8
  tuples ← read_tuples msg.payload count 0 notify_max_tuples_per_req
  some (record {
    src_id = msg.source_id;
    sender_uuid = c.from_u128_le (bit_or (r2 * 2 ^ 64) r1);
    receiver_uuid = c.from_u128_le (bit_or (r4 * 2 ^ 64) r3);
    msg_info = r5;
    count = count;
    notifications = tuples;
  })

pub record NfySetupRsp : Type 0 where
  pub reserved : ℕ
  pub sender_uuid : Uuid
  pub receiver_uuid : Uuid
  pub msg_info : ℕ
  pub status : ErrorCode

unfoldable pub respond : MessageId → NotifyReq → ErrorCode → NfySetupRsp
respond msg_id req status = record {
  reserved = 0;
  sender_uuid = req.sender_uuid;
  receiver_uuid = req.receiver_uuid;
  msg_info = message_info_dir_resp + message_id_to_u64 msg_id;
  status = status;
}

unfoldable pub payload_registers : UuidCrate → NfySetupRsp → List ℕ
payload_registers c rsp =
    rsp.reserved
    ∷ (c.as_u64_pair rsp.sender_uuid).0
    ∷ (c.as_u64_pair rsp.sender_uuid).1
    ∷ (c.as_u64_pair rsp.receiver_uuid).0
    ∷ (c.as_u64_pair rsp.receiver_uuid).1
    ∷ rsp.msg_info
    ∷ to_u64 rsp.status
    ∷ []

-- `DirectMessagePayload::from(rsp)`.
unfoldable pub payload_from_rsp : UuidCrate → NfySetupRsp → Option DirectMessagePayload
payload_from_rsp c rsp = from_iter (register_bytes (payload_registers c rsp))

pub record NfyMapping : Type 0 where
  pub cookie : ℕ
  pub id : ℕ
  pub ntype : NotifyType
  pub src_id : ℕ
  pub in_use : Bool

abbrev pub empty_mapping : NfyMapping
empty_mapping = record { cookie = 0; id = 0; ntype = global; src_id = 0; in_use = false }

pub record NfyEntry : Type 0 where
  pub service_uuid : Uuid
  pub in_use : Bool
  pub mappings : List NfyMapping

abbrev pub empty_mappings : List NfyMapping
empty_mappings = replicate notify_max_mappings empty_mapping

abbrev pub empty_entry : NfyEntry
empty_entry = record { service_uuid = 0; in_use = false; mappings = empty_mappings }

pub record Notify : Type 0 where
  pub entries : List NfyEntry
  pub global_bitmap : ℕ

unfoldable pub new : Notify
new = record { entries = replicate notify_max_services empty_entry; global_bitmap = 0 }

unfoldable pub nfy_bitmask : ℕ → Option ℕ
nfy_bitmask id = if ltb id 64 then some (2 ^ id) else none
