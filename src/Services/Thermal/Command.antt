-- ===== src/Services/Thermal/Command.antt =====
-- services/thermal.rs: the commands and their ids.
use odp_secure_services.Base.{ℕ, Option, none, some, ◌==◌, if◌then◌else◌}

pub data ThermalCommand : Type 0 where
  get_tmp set_thrs get_thrs set_scp get_var set_var : ThermalCommand

-- `TryFromPrimitive` and `IntoPrimitive` of the command.
unfoldable pub try_from : ℕ → Option ThermalCommand
try_from n =
    if n == 1
    then some get_tmp
    else if n == 2
    then some set_thrs
    else if n == 3
    then some get_thrs
    else if n == 4
    then some set_scp
    else if n == 5
    then some get_var
    else if n == 6
    then some set_var
    else none

unfoldable pub command_id : ThermalCommand → ℕ
command_id get_tmp = 1
command_id set_thrs = 2
command_id get_thrs = 3
command_id set_scp = 4
command_id get_var = 5
command_id set_var = 6
