-- ===== src/Ffa/Functions/RoundTrip.antt =====
-- The functions that are parsed again: what was sent is read back.
use odp_secure_services.Ffa.Message.{combine_low_high_u16}
use odp_secure_services.Base.{refl, bit_and, ℕ, ◌≡◌, ◌<◌, ◌*◌, ◌/◌, ◌%◌, ◌^◌, arith, bit_or}
use odp_secure_services.Base.Bits.{bit_and-mask, bit_or-shift}
use odp_secure_services.Ffa.Message.RoundTrip.{combine_fields}
use odp_secure_services.Ffa.Functions.Setup.{
  MemRetrieveReq, RxTxMap, Features, mem_retrieve_req_from, mem_retrieve_req_params, rx_tx_map_from,
  rx_tx_map_params, features_from, features_params, Version, version_params, version_from,
}
use odp_secure_services.Ffa.Functions.Notification.{
  notification_get_from, notification_set_from, notification_get_params, notification_set_params,
  NotificationSet, NotificationGet,
}
use odp_secure_services.Ffa.Functions.Scheduling.{
  msg_send2_from, yield_from, msg_send2_params, yield_params, Yield, MsgSend2,
}

pub record IsVersion (v : Version) : Type 0 where
  pub major_lt : v.major < 2 ^ 16
  pub minor_lt : v.minor < 2 ^ 16

pub record IsNotificationSet (s : NotificationSet) : Type 0 where
  pub sender_lt : s.sender_id < 2 ^ 16
  pub receiver_lt : s.receiver_id < 2 ^ 16
  pub flags_lt : s.flags < 2 ^ 32
  pub bitmap_lt : s.notification_bitmap < 2 ^ 64

pub record IsNotificationGet (g : NotificationGet) : Type 0 where
  pub cpu_lt : g.receiver_cpu_id < 2 ^ 16
  pub endpoint_lt : g.receiver_endpoint_id < 2 ^ 16
  pub flags_lt : g.flags < 2 ^ 32

pub record IsYield (y : Yield) : Type 0 where
  pub vcpu_lt : y.vcpu_id < 2 ^ 16
  pub endpoint_lt : y.endpoint_id < 2 ^ 16
  pub timeout_lt : y.timeout < 2 ^ 64

pub record IsMsgSend2 (s : MsgSend2) : Type 0 where
  pub sender_lt : s.sender_id < 2 ^ 16
  pub flags_lt : s.flags < 2 ^ 32

-- A 64-bit word from its two halves of 32 bits.
word_of_halves :
    (v low : ℕ) → v < 2 ^ 64 → low ≡ v % 2 ^ 32 → bit_or (v / 2 ^ 32 * 2 ^ 32 % 2 ^ 64) low ≡ v
word_of_halves v low h e =
    let whole : v / 2 ^ 32 * 2 ^ 32 % 2 ^ 64 ≡ v / 2 ^ 32 * 2 ^ 32 = omega arith in
    rw whole (omega (arith, bit_or-shift 32 (v / 2 ^ 32) low (omega arith)))

version-round_trip : (v : Version) → IsVersion v → version_from (version_params v) ≡ v
unfolding version_params version_from
version-round_trip v k = ground (arith, combine_fields v.minor v.major k.minor_lt k.major_lt)

mask_twice : (b : ℕ) → bit_and (bit_and b 0xffffffff) 0xFFFFFFFF ≡ b % 2 ^ 32
mask_twice b = omega (arith, bit_and-mask 32 b, bit_and-mask 32 (bit_and b 0xffffffff))

notification_set-round_trip :
    (s : NotificationSet)
    → IsNotificationSet s
    → notification_set_from (notification_set_params s) ≡ s
unfolding notification_set_params notification_set_from
notification_set-round_trip s k = ground (
  arith,
  combine_fields s.receiver_id s.sender_id k.receiver_lt k.sender_lt,
  word_of_halves s.notification_bitmap
      (bit_and (bit_and s.notification_bitmap 0xffffffff) 0xFFFFFFFF) k.bitmap_lt
      (mask_twice s.notification_bitmap),
)

notification_get-round_trip :
    (g : NotificationGet)
    → IsNotificationGet g
    → notification_get_from (notification_get_params g) ≡ g
unfolding notification_get_params notification_get_from
notification_get-round_trip g k =
    ground (arith, combine_fields g.receiver_endpoint_id g.receiver_cpu_id k.endpoint_lt k.cpu_lt)

yield-round_trip : (y : Yield) → IsYield y → yield_from (yield_params y) ≡ y
unfolding yield_params yield_from
yield-round_trip y k =
    let x = combine_low_high_u16 y.vcpu_id y.endpoint_id in
    ground (
      arith,
      combine_fields y.vcpu_id y.endpoint_id k.vcpu_lt k.endpoint_lt,
      bit_and-mask 16 (x / 2 ^ 16),
      word_of_halves y.timeout (y.timeout % 2 ^ 32) k.timeout_lt refl,
    )

msg_send2-round_trip : (s : MsgSend2) → IsMsgSend2 s → msg_send2_from (msg_send2_params s) ≡ s
unfolding msg_send2_params msg_send2_from
msg_send2-round_trip s k = ground arith

-- A version, a notification, a notification query, a yield, a second message, a feature query, a
-- buffer mapping and a memory request are read back from the registers that they are sent in. The
-- fields of the first five, and the page count of the mapping, have the widths of their types.
pub function_params-round_trip :
    (v : Version) (s : NotificationSet) (g : NotificationGet) (y : Yield) (m : MsgSend2)
    (f : Features) (r : RxTxMap) (q : MemRetrieveReq)
    → IsVersion v
    → IsNotificationSet s
    → IsNotificationGet g
    → IsYield y
    → IsMsgSend2 m
    → r.page_count < 2 ^ 32
    → (version_from (version_params v) ≡ v)
      × (notification_set_from (notification_set_params s) ≡ s)
      × (notification_get_from (notification_get_params g) ≡ g)
      × (yield_from (yield_params y) ≡ y)
      × (msg_send2_from (msg_send2_params m) ≡ m)
      × (features_from (features_params f) ≡ f)
      × (rx_tx_map_from (rx_tx_map_params r) ≡ r)
      × (mem_retrieve_req_from (mem_retrieve_req_params q) ≡ q)
unfolding features_params features_from rx_tx_map_params rx_tx_map_from mem_retrieve_req_params
    mem_retrieve_req_from
function_params-round_trip v s g y m f r q kv ks kg ky km kr = (
  version-round_trip v kv,
  notification_set-round_trip s ks,
  notification_get-round_trip g kg,
  yield-round_trip y ky,
  msg_send2-round_trip m km,
  refl,
  ground arith,
  refl,
)
