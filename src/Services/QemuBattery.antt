-- ===== src/Services/QemuBattery.antt =====
-- platform/qemu-sp/src/battery.rs: the battery service of the QEMU image, which answers by itself.
-- `none` is a panic.
use odp_secure_services.Base.{err, ◌&&◌, ltb, ◌==◌, if◌then◌else◌, some, ◌++◌, Option, List, ℕ}
use odp_secure_services.Ffa.Error.{unknown_battery_command, other}
use odp_secure_services.Base.Bytes.{le_bytes}
use odp_secure_services.Base.Options.{◌>>=◌}
use odp_secure_services.Services.Common.{Handled, respond}
use odp_secure_services.Ffa.Payload.{u8_at, u32_at, DirectMessagePayload}
use odp_secure_services.Ffa.Message.{Uuid, MsgSendDirectReq2}

abbrev pub qemu_battery_uuid : Uuid
qemu_battery_uuid = 0x25cb5207ac36427daaef3aa78877d27e

pub record BstRsp : Type 0 where
  pub state : ℕ
  pub present_rate : ℕ
  pub remaining_cap : ℕ
  pub present_volt : ℕ

-- The bytes of `GenericRsp`, whose status is an i64, here its 64 bits.
unfoldable pub generic_rsp_bytes : ℕ → List ℕ
generic_rsp_bytes status = le_bytes 8 status

unfoldable pub bst_rsp_bytes : BstRsp → List ℕ
bst_rsp_bytes bst =
    le_bytes 4 bst.state
    ++ (le_bytes 4 bst.present_rate
        ++ (le_bytes 4 bst.remaining_cap ++ le_bytes 4 bst.present_volt))

-- `From<&DirectMessagePayload>`.
unfoldable pub bst_rsp_from : DirectMessagePayload → Option BstRsp
bst_rsp_from payload = do
  state ← u32_at payload 0
  present_rate ← u32_at payload 4
  remaining_cap ← u32_at payload 8
  present_volt ← u32_at payload 12
  some (record {
    state = state;
    present_rate = present_rate;
    remaining_cap = remaining_cap;
    present_volt = present_volt;
  })

unfoldable pub get_bst : BstRsp
get_bst = record { state = 1; present_rate = 500; remaining_cap = 5000; present_volt = 12000 }

unfoldable pub generic_test : ℕ
generic_test = 0

-- The `match` on the command: the commands other than EC_BAT_GET_BST are those from 1 to 15.
unfoldable pub answer_command : Unit {0} → MsgSendDirectReq2 → ℕ → Handled (Unit {0})
unfolding generic_rsp_bytes bst_rsp_bytes get_bst generic_test
answer_command u msg cmd =
    if cmd == 2
    then respond msg u (bst_rsp_bytes get_bst)
    else if ltb 0 cmd && ltb cmd 16
    then respond msg u (generic_rsp_bytes generic_test)
    else some (u, err (other unknown_battery_command))

-- `ffa_msg_send_direct_req2`.
unfoldable pub handle : Unit {0} → MsgSendDirectReq2 → Handled (Unit {0})
unfolding answer_command
handle u msg = u8_at msg.payload 0 >>= λ cmd. answer_command u msg cmd
