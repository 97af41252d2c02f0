-- ===== src/Ffa/Error.antt =====
-- odp-ffa/src/lib.rs: the error codes of the interface, the function identifiers and the error type.
use odp_secure_services.Base.{
  inr, some_eq, ap, inl, Bool-cases, ℕ, ◌-◌, ◌^◌, ◌≡◌, refl, List, [], ◌∷◌, Option, none, some,
  Result, err, ◌==◌, if◌then◌else◌, arith,
}

pub data ErrorCode : Type 0 where
  ok not_supported invalid_parameters no_memory busy interrupted denied : ErrorCode
  retry aborted no_data not_ready : ErrorCode

-- `code as u64`: the discriminants 0, -1, …, -10 in two's complement.
unfoldable pub to_u64 : ErrorCode → ℕ
to_u64 ErrorCode.ok = 0
to_u64 not_supported = 2 ^ 64 - 1
to_u64 invalid_parameters = 2 ^ 64 - 2
to_u64 no_memory = 2 ^ 64 - 3
to_u64 busy = 2 ^ 64 - 4
to_u64 interrupted = 2 ^ 64 - 5
to_u64 denied = 2 ^ 64 - 6
to_u64 retry = 2 ^ 64 - 7
to_u64 aborted = 2 ^ 64 - 8
to_u64 no_data = 2 ^ 64 - 9
to_u64 not_ready = 2 ^ 64 - 10

pub data FunctionId : Type 0 where
  error success32 success64 interrupt version features rx_release rx_tx_map rx_tx_unmap : FunctionId
  partition_info_get id_get msg_wait msg_yield msg_run msg_send msg_send_direct_req : FunctionId
  msg_send_direct_resp msg_send2 msg_poll mem_donate mem_lend mem_share : FunctionId
  mem_retrieve_req mem_retrieve_resp mem_relinquish mem_reclaim mem_frag_rx : FunctionId
  mem_frag_tx notification_bind notification_set notification_get mem_perm_get : FunctionId
  mem_perm_set console_log msg_send_direct_req2 msg_send_direct_resp2 : FunctionId

unfoldable pub function_id_to_u64 : FunctionId → ℕ
function_id_to_u64 error = 0x84000060
function_id_to_u64 success32 = 0x84000061
function_id_to_u64 success64 = 0xC4000061
function_id_to_u64 interrupt = 0x84000062
function_id_to_u64 version = 0x84000063
function_id_to_u64 features = 0x84000064
function_id_to_u64 rx_release = 0x84000065
function_id_to_u64 rx_tx_map = 0xC4000066
function_id_to_u64 rx_tx_unmap = 0x84000067
function_id_to_u64 partition_info_get = 0x84000068
function_id_to_u64 id_get = 0x84000069
function_id_to_u64 msg_wait = 0x8400006B
function_id_to_u64 msg_yield = 0x8400006C
function_id_to_u64 msg_run = 0x8400006D
function_id_to_u64 msg_send = 0x8400006E
function_id_to_u64 msg_send_direct_req = 0xC400006F
function_id_to_u64 msg_send_direct_resp = 0xC4000070
function_id_to_u64 msg_send2 = 0x84000086
function_id_to_u64 msg_poll = 0x8400006A
function_id_to_u64 mem_donate = 0xC4000071
function_id_to_u64 mem_lend = 0xC4000072
function_id_to_u64 mem_share = 0xC4000073
function_id_to_u64 mem_retrieve_req = 0x84000074
function_id_to_u64 mem_retrieve_resp = 0x84000075
function_id_to_u64 mem_relinquish = 0x84000076
function_id_to_u64 mem_reclaim = 0x84000077
function_id_to_u64 mem_frag_rx = 0x8400007A
function_id_to_u64 mem_frag_tx = 0x8400007B
function_id_to_u64 notification_bind = 0x8400007F
function_id_to_u64 notification_set = 0x84000081
function_id_to_u64 notification_get = 0x84000082
function_id_to_u64 mem_perm_get = 0x84000088
function_id_to_u64 mem_perm_set = 0x84000089
function_id_to_u64 console_log = 0xC400008A
function_id_to_u64 msg_send_direct_req2 = 0xC400008D
function_id_to_u64 msg_send_direct_resp2 = 0xC400008E

-- `Other` carries a static text; the texts that the model needs have a constructor each.
pub data Text : Type 0 where
  unknown_uuid invalid_notify_message_id unknown_time_alarm_command : Text
  unknown_battery_command get_bst_failed get_bix_failed set_btp_failed : Text
  unknown_thermal_command unexpected_doorbell_tag : Text
  unknown_fw_mgmt_command process_indirect_not_supported : Text

pub data Error : Type 0 where
  invalid_function_id : ℕ → Error
  unexpected_function_id : FunctionId → Error
  invalid_error_code : ℕ → Error
  error_code : ErrorCode → Error
  hafnium_error : ℕ → Error
  too_many_smc_params : Error
  other : Text → Error

all_codes : List ErrorCode
all_codes =
    ErrorCode.ok ∷ not_supported ∷ invalid_parameters ∷ no_memory ∷ busy ∷ interrupted ∷ denied
    ∷ retry ∷ aborted ∷ no_data ∷ not_ready ∷ []

all_function_ids : List FunctionId
all_function_ids =
    error ∷ success32 ∷ success64 ∷ interrupt ∷ version ∷ features ∷ rx_release ∷ rx_tx_map
    ∷ rx_tx_unmap ∷ partition_info_get ∷ id_get ∷ msg_wait ∷ msg_yield ∷ msg_run ∷ msg_send
    ∷ msg_send_direct_req ∷ msg_send_direct_resp ∷ msg_send2 ∷ msg_poll ∷ mem_donate ∷ mem_lend
    ∷ mem_share ∷ mem_retrieve_req ∷ mem_retrieve_resp ∷ mem_relinquish ∷ mem_reclaim ∷ mem_frag_rx
    ∷ mem_frag_tx ∷ notification_bind ∷ notification_set ∷ notification_get ∷ mem_perm_get
    ∷ mem_perm_set ∷ console_log ∷ msg_send_direct_req2 ∷ msg_send_direct_resp2 ∷ []

-- `TryFromPrimitive`: the variant with this discriminant.
find_by : {A : Type 0} → (A → ℕ) → ℕ → List A → Option A
find_by f v [] = none
find_by f v (x ∷ xs) = let rest = find_by f v xs in if f x == v then some x else rest

unfoldable pub try_parse_function_id : ℕ → Result Error FunctionId
unfolding find_by all_function_ids function_id_to_u64
try_parse_function_id v = elim (find_by function_id_to_u64 v all_function_ids) [
  | none ↦ err (invalid_function_id v)
  | some id ↦ Result.ok id
]

unfoldable pub try_parse_error_code : ℕ → Result Error ErrorCode
unfolding find_by all_codes to_u64
try_parse_error_code v = elim (find_by to_u64 v all_codes) [
  | none ↦ err (invalid_error_code v)
  | some c ↦ Result.ok c
]

-- Every function identifier is read back from its register value.
pub try_parse_function_id-to_u64 :
    (f : FunctionId) → try_parse_function_id (function_id_to_u64 f) ≡ Result.ok f
unfolding try_parse_function_id
try_parse_function_id-to_u64 error = refl
try_parse_function_id-to_u64 _ = refl

find_by-value :
    {A : Type 0} (f : A → ℕ) (v : ℕ) (xs : List A) {x : A} → find_by f v xs ≡ some x → f x ≡ v
unfolding find_by
find_by-value f v [] h = cc
find_by-value f v (y ∷ xs) {x} h = elim (Bool-cases (f y == v)) [
  | inl same ↦ ground (arith, same, ap f (some_eq (rw same at h)))
  | inr differs ↦ find_by-value f v xs (rw differs at h)
]

-- A register that is read as a function identifier holds its number.
pub try_parse_function_id-value :
    (v : ℕ) (f : FunctionId) → try_parse_function_id v ≡ Result.ok f → v ≡ function_id_to_u64 f
unfolding try_parse_function_id
try_parse_function_id-value v f h =
    ground (arith, find_by-value function_id_to_u64 v all_function_ids)
