-- ===== src/Services/TimeAlarm/Command.antt =====
-- services/time_alarm.rs: the ids of the commands and of their responses.
use odp_secure_services.Base.{ℕ, Option, none, some, ◌==◌, if◌then◌else◌}

pub data TimeAlarmCommand : Type 0 where
  get_capabilities get_real_time get_wake_status set_timer_value : TimeAlarmCommand
  get_timer_value get_expired_timer_policy : TimeAlarmCommand

-- `TryFromPrimitive` and `IntoPrimitive` of the command.
unfoldable pub try_from : ℕ → Option TimeAlarmCommand
try_from n =
    if n == 1
    then some get_capabilities
    else if n == 2
    then some get_real_time
    else if n == 4
    then some get_wake_status
    else if n == 6
    then some set_timer_value
    else if n == 7
    then some get_timer_value
    else if n == 9
    then some get_expired_timer_policy
    else none

unfoldable pub command_id : TimeAlarmCommand → ℕ
command_id get_capabilities = 1
command_id get_real_time = 2
command_id get_wake_status = 4
command_id set_timer_value = 6
command_id get_timer_value = 7
command_id get_expired_timer_policy = 9

-- The discriminants of the responses.
abbrev pub capabilities : ℕ
capabilities = 1

abbrev pub timer_status : ℕ
timer_status = 3

abbrev pub wake_policy : ℕ
wake_policy = 4

abbrev pub timer_seconds : ℕ
timer_seconds = 5

abbrev pub ok_no_data : ℕ
ok_no_data = 6
