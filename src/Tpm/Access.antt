-- ===== src/Tpm/Access.antt =====
-- tpm.rs: who may act on which locality, and what a message leaves of the service's invariant.
use odp_secure_services.Base.{
  ℕ, ◌%◌, ◌^◌, ◌≤◌, ◌<◌, ◌≡◌, ◌≢◌, refl, ap, ◌∙◌, Bool, true, false, ◌&&◌, ◌==◌, leb, if◌then◌else◌,
  get_or, set, length, arith, Bool-cases, inl, inr, bit_and, length-set, ==_iff,
}
use odp_secure_services.Tpm.Registers.{
  TpmState, idle, ready, complete, TpmStatus, denied, no_func, closed, function_code, start,
  get_interface_version, get_feature_info, register_for_notification, unregister_for_notification,
  finish_notified, TpmLocalityState, opened, num_localities, no_active_locality, manage_locality,
  status_code,
}
use odp_secure_services.Tpm.Command.{
  TpmSstOps, TpmService, init_internal_crb, clean_internal_crb, command_step, handle_command,
  handle_locality_request,
}
use odp_secure_services.Tpm.Service.{
  TpmRequest, get_interface_version_handler, get_feature_info_handler, is_closed, start_choice,
  start_handler, serve, manage_locality_handler, register_handler, unregister_handler,
  finish_handler, start_func_qualifier_command, start_func_qualifier_locality, manage_locality_open,
  manage_locality_close,
}

-- The active locality is one of the five or none, and each of the five has its state.
pub record IsService {S : Type 0} (s : TpmService S) : Type 0 where
  pub active_bound : s.active_locality ≤ no_active_locality
  pub states_length : length s.locality_states ≡ num_localities

status_code_lt : (status : TpmStatus) → status_code status < 2 ^ 64
status_code_lt status = ground arith

feature_info_words :
    (request : TpmRequest)
    → (status_code (get_feature_info_handler request).0 < 2 ^ 64)
      × ((get_feature_info_handler request).1 < 2 ^ 64)
unfolding get_feature_info_handler
feature_info_words request = ground arith

module _ {S : Type 0} (ops : TpmSstOps S) where
  command_step_kept :
      (t : TpmState) (request go : ℕ) (s : TpmService S)
      → ((command_step ops t request go s).0.active_locality ≡ s.active_locality)
        × ((command_step ops t request go s).0.locality_states ≡ s.locality_states)
  unfolding command_step
  command_step_kept idle request go s = ground arith
  command_step_kept ready request go s = ground arith
  command_step_kept complete request go s = ground arith

  handle_command_kept :
      (s : TpmService S)
      → ((handle_command ops s).0.active_locality ≡ s.active_locality)
        × ((handle_command ops s).0.locality_states ≡ s.locality_states)
  unfolding handle_command
  handle_command_kept s =
      let request = (s.crbs s.active_locality).crb_control_request in
      let go = (s.crbs s.active_locality).crb_control_start in
      elim (Bool-cases ((request == 0) && (go == 0))) [
        | inl empty ↦ rw empty (refl, refl)
        | inr some_bit ↦ rw some_bit (command_step_kept s.current_state request go s)
      ]

  -- The active locality afterwards is at most `no_active_locality`, and the locality table is the same.
  abbrev Kept : TpmService S → TpmService S → Type 0
  Kept s s' = (s'.active_locality ≤ no_active_locality) × (s'.locality_states ≡ s.locality_states)

  handle_locality_request-Kept :
      (locality : ℕ) (s : TpmService S)
      → locality ≤ no_active_locality
      → s.active_locality ≤ no_active_locality
      → Kept s (handle_locality_request ops locality s).0
  unfolding handle_locality_request init_internal_crb
  handle_locality_request-Kept locality s h k = ground arith

  start_choice-Kept :
      (request : TpmRequest) (s : TpmService S)
      → s.active_locality ≤ no_active_locality
      → Kept s (start_choice ops request s).0
  unfolding start_choice
  start_choice-Kept request s k =
      let function = request.function % 2 ^ 16 in
      let locality = request.locality % 2 ^ 8 in
      let unchanged : Kept s s = (k, refl) in
      let command = handle_command_kept s in
      elim (Bool-cases (leb num_localities locality)) [
        | inl out ↦ rw out unchanged
        | inr in_range ↦ elim (Bool-cases (is_closed (get_or s.locality_states locality closed))) [
          | inl shut ↦ rw (in_range, shut) unchanged
          | inr free ↦ elim (Bool-cases (function == start_func_qualifier_command)) [
            | inl is_command ↦ elim (Bool-cases (locality == s.active_locality)) [
              | inl active ↦ rw (in_range, free, is_command, active) (rw command.0 k, command.1)
              | inr other ↦ rw (in_range, free, is_command, other) unchanged
            ]
            | inr no_command ↦ elim (Bool-cases (function == start_func_qualifier_locality)) [
              | inl is_locality ↦
                  rw (in_range, free, no_command, is_locality)
                    (handle_locality_request-Kept locality s (ground arith) k)
              | inr neither ↦ rw (in_range, free, no_command, neither) unchanged
            ]
          ]
        ]
      ]

  clean-Kept : (s s' : TpmService S) → Kept s s' → Kept s (clean_internal_crb s')
  unfolding clean_internal_crb
  clean-Kept s s' h = ground arith

  start_handler-Kept :
      (request : TpmRequest) (s : TpmService S)
      → s.active_locality ≤ no_active_locality
      → Kept s (start_handler ops request s).0
  unfolding start_handler
  start_handler-Kept request s k =
      clean-Kept s (start_choice ops request s).0 (start_choice-Kept request s k)

  changed_state :
      (s : TpmService S) (i : ℕ) (to : TpmLocalityState)
      → IsService s
      → IsService (record s { locality_states = set s.locality_states i to })
  changed_state s i to h = record {
    active_bound = h.active_bound;
    states_length = length-set s.locality_states i to ∙ h.states_length;
  }

  manage_locality_handler_lem :
      (request : TpmRequest) (s : TpmService S)
      → IsService s
      → IsService (manage_locality_handler request s).0
  unfolding manage_locality_handler
  manage_locality_handler_lem request s h =
      let operation = request.function % 2 ^ 16 in
      elim (Bool-cases (leb num_localities (request.locality % 2 ^ 8))) [
        | inl out ↦ rw out h
        | inr fits ↦ elim (Bool-cases (operation == manage_locality_open)) [
          | inl opens ↦ rw (fits, opens) (changed_state s _ opened h)
          | inr stays ↦ elim (Bool-cases (operation == manage_locality_close)) [
            | inl closes ↦ rw (fits, stays, closes) (changed_state s _ closed h)
            | inr neither ↦ rw (fits, stays, neither) h
          ]
        ]
      ]

  answer :
      {P : Type 0} → P → (status : TpmStatus) → P × (status_code status < 2 ^ 64) × (0 < 2 ^ 64)
  answer p status = (p, status_code_lt status, omega arith)

  choose :
      (P : TpmService S → Type 0) (b : Bool) (x y : TpmService S × TpmStatus)
      → P x.0
      → P y.0
      → P (if b then x else y).0
  choose P true x y p q = p
  choose P false x y p q = q

  -- What holds after each handler, and of the old state, holds after a message, and the answer is
  -- two 64-bit words.
  pub serve_lem :
      (P : TpmService S → Type 0) (source_id : ℕ) (request : TpmRequest) (s : TpmService S)
      → P s
      → P (start_handler ops request s).0
      → ((registered : Bool) → P (record s { notification_registered = registered }))
      → (bit_and source_id 0xFF00 ≡ 0xFF00 → P (manage_locality_handler request s).0)
      → P (serve ops source_id request s).0
        × ((serve ops source_id request s).1.tpm_status < 2 ^ 64)
        × ((serve ops source_id request s).1.tpm_payload < 2 ^ 64)
  unfolding serve register_handler unregister_handler finish_handler get_interface_version_handler
  serve_lem P source_id request s same started registered managed =
      let opcode = request.opcode in
      let reg = s.notification_registered in
      elim (Bool-cases (opcode == function_code get_interface_version)) [
        | inl is0 ↦ rw is0 (same, omega arith, omega arith)
        | inr no0 ↦ elim (Bool-cases (opcode == function_code get_feature_info)) [
          | inl is1 ↦
              rw (no0, is1) (same, (feature_info_words request).0, (feature_info_words request).1)
          | inr no1 ↦ elim (Bool-cases (opcode == function_code start)) [
            | inl is2 ↦ rw (no0, no1, is2) (answer started _)
            | inr no2 ↦ elim (Bool-cases (opcode == function_code register_for_notification)) [
              | inl is3 ↦
                  rw (no0, no1, no2, is3) (answer (choose P reg _ _ same (registered true)) _)
              | inr no3 ↦ elim (Bool-cases (opcode == function_code unregister_for_notification)) [
                | inl is4 ↦
                    rw (no0, no1, no2, no3, is4)
                      (answer (choose P reg _ _ (registered false) same) _)
                | inr no4 ↦ elim (Bool-cases (opcode == function_code finish_notified)) [
                  | inl is5 ↦
                      rw (no0, no1, no2, no3, no4, is5) (answer (choose P reg _ _ same same) _)
                  | inr no5 ↦ elim (Bool-cases (opcode == function_code manage_locality)) [
                    | inr no6 ↦ rw (no0, no1, no2, no3, no4, no5, no6) (answer same no_func)
                    | inl is6 ↦ elim (Bool-cases (bit_and source_id 0xFF00 == 0xFF00)) [
                      | inl tf_a ↦
                          rw (no0, no1, no2, no3, no4, no5, is6, tf_a)
                            (answer (managed ((==_iff _ _).0 tf_a)) _)
                      | inr other ↦
                          rw (no0, no1, no2, no3, no4, no5, is6, other) (answer same denied)
                    ]
                  ]
                ]
              ]
            ]
          ]
        ]
      ]

  pub serve-IsService :
      (source_id : ℕ) (request : TpmRequest) (s : TpmService S)
      → IsService s
      → IsService (serve ops source_id request s).0
  serve-IsService source_id request s h =
      let started = start_handler-Kept request s h.active_bound in
      (serve_lem IsService source_id request s h
        (record { active_bound = started.0; states_length = ap length started.1 ∙ h.states_length })
        (λ _. record { active_bound = h.active_bound; states_length = h.states_length })
        (λ _. manage_locality_handler_lem request s h)).0

  -- In a state of the invariant, a message whose source is no logical partition of TF-A (its id does
  -- not begin with 0xFF) leaves the table of open localities as it is.
  pub serve_locality_states :
      (source_id : ℕ) (request : TpmRequest) (s : TpmService S)
      → IsService s
      → bit_and source_id 0xFF00 ≢ 0xFF00
      → (serve ops source_id request s).0.locality_states ≡ s.locality_states
  serve_locality_states source_id request s h k =
      (serve_lem (λ s'. s'.locality_states ≡ s.locality_states) source_id request s refl
        (start_handler-Kept request s h.active_bound).1 (λ _. refl) (λ e. absurd (k e))).0

  -- A start message for one of the five localities that is closed is denied, and cleans the active block and does nothing else.
  pub start_handler_closed :
      (request : TpmRequest) (s : TpmService S)
      → request.locality % 2 ^ 8 < num_localities
      → get_or s.locality_states (request.locality % 2 ^ 8) closed ≡ closed
      → start_handler ops request s ≡ (clean_internal_crb s, denied)
  unfolding start_handler start_choice
  start_handler_closed request s h shut = rw shut (ground arith)
