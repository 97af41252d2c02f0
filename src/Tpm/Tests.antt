-- ===== src/Tpm/Tests.antt =====
-- The TPM service on concrete messages, with a state translation library that always succeeds.
use odp_secure_services.Base.{ℕ, ◌+◌, ◌≡◌, ◌≢◌, refl, false, [], ◌∷◌, arith, replicate}
use odp_secure_services.Base.Options.{Returns}
use odp_secure_services.Ffa.Error.{ErrorCode}
use odp_secure_services.Ffa.Tests.{zeros, zeros-IsPayload}
use odp_secure_services.Tpm.Registers.{
  zero_registers, idle, closed, opened, num_localities, no_active_locality, inv_crb_ctrl_data,
  function_code, start, manage_locality,
}
use odp_secure_services.Tpm.InterfaceIdentifier.{
  interface_type, interface_version, cap_locality, cap_crb, set_interface_type,
  set_interface_version, set_cap_locality, set_cap_crb, set_cap_crb_idle_bypass,
  cap_crb_idle_bypass,
}
use odp_secure_services.Tpm.Command.{
  TpmSstOps, TpmService, handle_command, handle_locality_request, clean_internal_crb,
  init_internal_crb,
}
use odp_secure_services.Tpm.Service.{
  TpmRequest, start_choice, init, deinit, start_handler, serve, handle, default_interface_id,
}
use odp_secure_services.Tpm.Machine.{CommandStep, handle_command-CommandStep}
use odp_secure_services.Tpm.Isolation.{start_handler_elsewhere}
use odp_secure_services.Tpm.Access.{IsService, serve_locality_states}
use odp_secure_services.Tpm.Answers.{IsServed, handle-IsServed}
use odp_secure_services.Tpm.Once.{IsInitial, start_handler_once, init-IsInitial}

-- The library counts its calls.
abbrev ops : TpmSstOps ℕ
ops = record {
  go_idle = λ n locality. (n + 1, ErrorCode.ok);
  cmd_ready = λ n locality. (n + 1, ErrorCode.ok);
  start = λ n locality crb. (n + 1, crb, ErrorCode.ok);
  locality_request = λ n locality. (n + 1, ErrorCode.ok);
  locality_relinquish = λ n locality. (n + 1, ErrorCode.ok);
  is_idle_bypass_supported = λ n. false;
  init = λ n. n;
}

-- The host asks for access to locality 0.
abbrev asking : TpmService ℕ
asking = record {
  current_state = idle;
  active_locality = no_active_locality;
  interface_id_default = default_interface_id;
  locality_states = opened ∷ opened ∷ closed ∷ closed ∷ closed ∷ [];
  tpm_internal_crb_address = 0x10000000;
  notification_registered = false;
  sst = 0;
  crbs = λ i. record zero_registers { locality_control = 1; crb_control_request = 1 };
}

asking-IsService : IsService asking
asking-IsService = record { active_bound = omega arith; states_length = refl }

-- Locality 0 is active and the host has set its command ready bit.
abbrev active : TpmService ℕ
active = record asking { active_locality = 0 }

abbrev locality_request : TpmRequest
locality_request = record { opcode = function_code start; function = 1; locality = 0 }

interface_id :
    (default_interface_id ≡ 0x4111)
    × (interface_type 0x4111 ≡ 1)
    × (interface_version 0x4111 ≡ 1)
    × (cap_locality 0x4111 ≡ 1)
    × (cap_crb 0x4111 ≡ 1)
    × (cap_crb_idle_bypass (set_cap_crb_idle_bypass 0x4111 1) ≡ 1)
unfolding default_interface_id set_interface_type set_interface_version set_cap_locality set_cap_crb
    interface_type interface_version cap_locality cap_crb set_cap_crb_idle_bypass
    cap_crb_idle_bypass
interface_id = (refl, refl, refl, refl, refl, refl)

handle_command-CommandStep_example :
    CommandStep 1 0 false idle
      (handle_command ops active).0.current_state
      (handle_command ops active).1
unfolding zero_registers
handle_command-CommandStep_example = handle_command-CommandStep ops active

start_handler_elsewhere_example :
    (start_handler ops locality_request asking).0.crbs 1 ≡ asking.crbs 1
start_handler_elsewhere_example =
    start_handler_elsewhere ops locality_request asking 1 (omega arith) (omega arith)

-- A caller that is not a partition of TF-A asks to open locality 4.
serve_locality_states_example :
    (serve ops 1
      (record { opcode = function_code manage_locality; function = 0; locality = 4 })
      asking).0.locality_states
    ≡ asking.locality_states
serve_locality_states_example =
    serve_locality_states ops 1
      (record { opcode = function_code manage_locality; function = 0; locality = 4 }) asking
      asking-IsService (omega arith)

handle-IsServed_example :
    Returns
      (IsServed ops asking
        (record { source_id = 3; destination_id = 0x8001; uuid = 2; payload = zeros }))
      (handle ops asking
        (record { source_id = 3; destination_id = 0x8001; uuid = 2; payload = zeros }))
handle-IsServed_example =
    handle-IsServed ops asking
      (record { source_id = 3; destination_id = 0x8001; uuid = 2; payload = zeros }) zeros-IsPayload

granted : (start_handler ops locality_request asking).0.active_locality ≢ no_active_locality
unfolding start_handler start_choice handle_locality_request clean_internal_crb init_internal_crb
    zero_registers
granted = omega arith

start_handler_once_example :
    (handle_command ops (start_handler ops locality_request asking).0
      ≡ ((start_handler ops locality_request asking).0, inv_crb_ctrl_data))
    × (handle_locality_request ops
          (start_handler ops locality_request asking).0.active_locality
          (start_handler ops locality_request asking).0
        ≡ ((start_handler ops locality_request asking).0, inv_crb_ctrl_data))
start_handler_once_example = start_handler_once ops locality_request asking granted

init-IsInitial_example :
    IsInitial ops active (init ops active)
    × IsService (init ops active)
    × ((deinit active).locality_states ≡ replicate num_localities closed)
    × ((deinit active).active_locality ≡ no_active_locality)
init-IsInitial_example = init-IsInitial ops active
