-- ===== src/Ffa/Functions/Notification.antt =====
-- odp-ffa/src/function: notification_set.rs, notification_get.rs and notification_bind.rs.
use odp_secure_services.Base.{ℕ, ◌*◌, ◌/◌, ◌%◌, ◌^◌, [], ◌∷◌, Result, ok, get_or, bit_and, bit_or}
use odp_secure_services.Ffa.Error.{Error, notification_set, notification_get, notification_bind}
use odp_secure_services.Ffa.Message.{SmcParams, combine_low_high_u16, combine_low_high_u32}
use odp_secure_services.Ffa.Smc.{Monitor, with_default, exec_simple}
use odp_secure_services.Ffa.Functions.Setup.{x1, x2, x3, x4}

pub record NotificationSet : Type 0 where
  pub sender_id : ℕ
  pub receiver_id : ℕ
  pub flags : ℕ
  pub notification_bitmap : ℕ

unfoldable pub notification_set_params : NotificationSet → SmcParams
unfolding combine_low_high_u16
notification_set_params s =
    let bitmap_low = bit_and s.notification_bitmap 0xffffffff in
    let bitmap_high = s.notification_bitmap / 2 ^ 32 in
    with_default
      (combine_low_high_u16 s.receiver_id s.sender_id ∷ s.flags ∷ bitmap_low ∷ bitmap_high ∷ [])

unfoldable pub notification_set_from : SmcParams → NotificationSet
notification_set_from value = record {
  sender_id = x1 value / 2 ^ 16 % 2 ^ 16;
  receiver_id = bit_and (x1 value) 0xFFFF;
  flags = x2 value % 2 ^ 32;
  notification_bitmap = bit_or (x4 value * 2 ^ 32 % 2 ^ 64) (bit_and (x3 value) 0xFFFFFFFF);
}

pub record NotificationGet : Type 0 where
  pub receiver_cpu_id : ℕ
  pub receiver_endpoint_id : ℕ
  pub flags : ℕ

unfoldable pub notification_get_params : NotificationGet → SmcParams
unfolding combine_low_high_u16
notification_get_params g =
    with_default (combine_low_high_u16 g.receiver_endpoint_id g.receiver_cpu_id ∷ g.flags ∷ [])

unfoldable pub notification_get_from : SmcParams → NotificationGet
notification_get_from value = record {
  receiver_cpu_id = x1 value / 2 ^ 16 % 2 ^ 16;
  receiver_endpoint_id = bit_and (x1 value) 0xFFFF;
  flags = x2 value % 2 ^ 32;
}

-- `Response` of notification_get.rs.
pub record NotificationBitmaps : Type 0 where
  pub sp_notifications_bitmap : ℕ
  pub vm_notifications_bitmap : ℕ
  pub fw_notifications_bitmap : ℕ

-- The closure of `NotificationGet::exec`, on the registers of the result.
unfoldable pub notification_bitmaps : SmcParams → NotificationBitmaps
unfolding combine_low_high_u32
notification_bitmaps params = record {
  sp_notifications_bitmap = combine_low_high_u32 (x2 params % 2 ^ 32) (x3 params % 2 ^ 32);
  vm_notifications_bitmap = combine_low_high_u32 (x4 params % 2 ^ 32) (get_or params 4 0 % 2 ^ 32);
  fw_notifications_bitmap =
      combine_low_high_u32 (get_or params 5 0 % 2 ^ 32) (get_or params 6 0 % 2 ^ 32);
}

pub data NotificationBindFlags : Type 0 where
  global per_v_cpu : NotificationBindFlags

abbrev pub bind_flags_to_u64 : NotificationBindFlags → ℕ
bind_flags_to_u64 global = 0
bind_flags_to_u64 per_v_cpu = 1

pub record NotificationBind : Type 0 where
  pub sender_id : ℕ
  pub receiver_id : ℕ
  pub flags : NotificationBindFlags
  pub notification_bitmap : ℕ

unfoldable pub notification_bind_params : NotificationBind → SmcParams
unfolding combine_low_high_u16
notification_bind_params b =
    let bitmap_low = bit_and b.notification_bitmap 0xffffffff in
    let bitmap_high = b.notification_bitmap / 2 ^ 32 in
    with_default (
      combine_low_high_u16 b.receiver_id b.sender_id
      ∷ bind_flags_to_u64 b.flags
      ∷ bitmap_low
      ∷ bitmap_high
      ∷ [])

module _ {W : Type 0} (m : Monitor W) where
  unfoldable pub notification_set_exec : W → NotificationSet → W × Result Error (Unit {0})
  notification_set_exec w s =
      exec_simple m w notification_set (ok (notification_set_params s)) (λ _. ok tt)

  unfoldable pub notification_get_exec : W → NotificationGet → W × Result Error NotificationBitmaps
  notification_get_exec w g =
      exec_simple m w notification_get (ok (notification_get_params g))
        (λ result. ok (notification_bitmaps result.params))

  unfoldable pub notification_bind_exec : W → NotificationBind → W × Result Error (Unit {0})
  notification_bind_exec w b =
      exec_simple m w notification_bind (ok (notification_bind_params b)) (λ _. ok tt)
