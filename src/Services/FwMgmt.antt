-- ===== src/Services/FwMgmt.antt =====
-- services/fw_mgmt.rs: `FwMgmt`, over a monitor for its calls; and services/tpm_stub.rs.
-- `none` is a panic.
use odp_secure_services.Ffa.Error.{
  unknown_fw_mgmt_command, process_indirect_not_supported, not_supported, other, to_u64, Error,
}
use odp_secure_services.Ffa.Functions.Notification.{notification_set_exec}
use odp_secure_services.Ffa.Functions.Setup.{new_mem_retrieve_req, mem_retrieve_req_exec}
use odp_secure_services.Base.Bytes.{register_bytes, le_bytes}
use odp_secure_services.Base.{[], ◌∷◌, ok, ◌==◌, err, ◌++◌, if◌then◌else◌, some, Result, List, ℕ}
use odp_secure_services.Ffa.Message.{MsgSendDirectReq2, Uuid}
use odp_secure_services.Base.Options.{◌>>=◌}
use odp_secure_services.Services.Common.{Handled, respond}
use odp_secure_services.Ffa.Smc.{Monitor}
use odp_secure_services.Ffa.Payload.{register_at, u8_at}

abbrev pub fw_mgmt_uuid : Uuid
fw_mgmt_uuid = 0x330c1273fde5475798195b6539037502

-- The bytes of `FwStateRsp`, `ServiceListRsp`, `GetBidRsp` and `GenericRsp`.
abbrev pub fw_state_bytes : ℕ → ℕ → ℕ → List ℕ
fw_state_bytes fw_version secure_state boot_status =
    le_bytes 2 fw_version ++ (le_bytes 1 secure_state ++ le_bytes 1 boot_status)

abbrev pub service_list_bytes : ℕ → ℕ → ℕ → ℕ → ℕ → ℕ → ℕ → List ℕ
service_list_bytes status debug_mask battery_mask fan_mask thermal_mask hid_mask key_mask =
    le_bytes 8 status
    ++ (le_bytes 2 debug_mask
        ++ (le_bytes 1 battery_mask
            ++ (le_bytes 1 fan_mask
                ++ (le_bytes 1 thermal_mask ++ (le_bytes 1 hid_mask ++ le_bytes 2 key_mask)))))

abbrev pub bid_bytes : ℕ → ℕ → List ℕ
bid_bytes status bid = le_bytes 8 status ++ le_bytes 8 bid

abbrev pub generic_bytes : ℕ → List ℕ
generic_bytes status = le_bytes 8 status

unfoldable pub get_fw_state : List ℕ
get_fw_state = fw_state_bytes 0x0100 0 1

unfoldable pub get_svc_list : List ℕ
get_svc_list = service_list_bytes 0 1 1 1 1 0 7

unfoldable pub get_bid : List ℕ
get_bid = bid_bytes 0 0xdead0001

module _ {W : Type 0} (m : Monitor W) where
  -- The answer after a call of the monitor: the error is passed on.
  abbrev pub after_exec : {A : Type 0} → MsgSendDirectReq2 → List ℕ → W × Result Error A → Handled W
  after_exec msg bytes (w, ok _) = respond msg w bytes
  after_exec msg bytes (w, err e) = some (w, err e)

  unfoldable pub map_share : W → MsgSendDirectReq2 → ℕ → ℕ → Handled W
  map_share w msg address size =
      after_exec msg (generic_bytes 0) (mem_retrieve_req_exec m w new_mem_retrieve_req)

  unfoldable pub test_notify : W → MsgSendDirectReq2 → Handled W
  test_notify w msg = after_exec msg (generic_bytes 0) (
      notification_set_exec m w (record {
        sender_id = msg.destination_id;
        receiver_id = msg.source_id;
        flags = 2;
        notification_bitmap = 2;
      }))

  unfoldable pub process_indirect : W → ℕ → ℕ → ℕ → Handled W
  process_indirect w seq_num rx_buffer tx_buffer =
      some (w, err (other process_indirect_not_supported))

  -- The `match` on the command.
  unfoldable pub serve : W → MsgSendDirectReq2 → ℕ → Handled W
  unfolding map_share test_notify process_indirect get_fw_state get_svc_list get_bid
  serve w msg cmd =
      if cmd == 0
      then (do
        seq_num ← u8_at msg.payload 1
        rx_buffer ← register_at msg.payload 4
        tx_buffer ← register_at msg.payload 5
        process_indirect w seq_num rx_buffer tx_buffer)
      else if cmd == 1
      then respond msg w get_fw_state
      else if cmd == 2
      then respond msg w get_svc_list
      else if cmd == 3
      then respond msg w get_bid
      else if cmd == 4
      then test_notify w msg
      else if cmd == 5
      then (do
        address ← register_at msg.payload 1
        size ← register_at msg.payload 2
        map_share w msg address size)
      else some (w, err (other unknown_fw_mgmt_command))

  -- `ffa_msg_send_direct_req2`.
  unfoldable pub handle : W → MsgSendDirectReq2 → Handled W
  unfolding serve
  handle w msg = u8_at msg.payload 0 >>= λ cmd. serve w msg cmd

-- `TpmServiceStub`: one register, NotSupported.
unfoldable pub stub_handle : Unit {0} → MsgSendDirectReq2 → Handled (Unit {0})
stub_handle u msg = respond msg u (register_bytes (to_u64 not_supported ∷ []))
