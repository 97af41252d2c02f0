-- ===== src/Tpm/Isolation.antt =====
-- What a message to the TPM service leaves alone: the blocks of other localities, the locality table
-- for callers other than TF-A, and everything but the active block when a locality is closed.
use odp_secure_services.Base.{
  ℕ, ◌+◌, ◌%◌, ◌^◌, ◌≤◌, ◌<◌, ◌≡◌, ◌≢◌, refl, ◌∙◌, ◌&&◌, ◌==◌, leb, get_or, arith, Bool-cases, inl,
  inr, ◌⊎◌,
}
use odp_secure_services.Tpm.Registers.{
  TpmState, idle, ready, complete, closed, size_of_registers, num_localities, no_active_locality,
}
use odp_secure_services.Tpm.Command.{
  TpmSstOps, TpmService, crb_address, init_internal_crb, clean_internal_crb, command_step,
  handle_command, handle_locality_request,
}
use odp_secure_services.Tpm.Service.{
  TpmRequest, is_closed, start_choice, start_handler, start_func_qualifier_command,
  start_func_qualifier_locality,
}

-- The register blocks of two localities do not overlap.
pub crb_address_disjoint :
    (base i j : ℕ) → i < j → crb_address base i + size_of_registers ≤ crb_address base j
unfolding crb_address
crb_address_disjoint base i j h = omega arith

module _ {S : Type 0} (ops : TpmSstOps S) where
  command_step_elsewhere :
      (t : TpmState) (request go : ℕ) (s : TpmService S) (j : ℕ)
      → j ≢ s.active_locality
      → ((command_step ops t request go s).0.crbs j ≡ s.crbs j)
        × ((command_step ops t request go s).0.active_locality ≡ s.active_locality)
  unfolding command_step
  command_step_elsewhere idle request go s j h = ground arith
  command_step_elsewhere ready request go s j h = ground arith
  command_step_elsewhere complete request go s j h = ground arith

  handle_command_elsewhere :
      (s : TpmService S) (j : ℕ)
      → j ≢ s.active_locality
      → ((handle_command ops s).0.crbs j ≡ s.crbs j)
        × ((handle_command ops s).0.active_locality ≡ s.active_locality)
  unfolding handle_command
  handle_command_elsewhere s j h =
      let request = (s.crbs s.active_locality).crb_control_request in
      let go = (s.crbs s.active_locality).crb_control_start in
      elim (Bool-cases ((request == 0) && (go == 0))) [
        | inl empty ↦ rw empty (refl, refl)
        | inr some_bit ↦ rw some_bit (command_step_elsewhere s.current_state request go s j h)
      ]

  -- After a locality request the active locality is the old one, the requested one, or none.
  handle_locality_request_elsewhere :
      (locality : ℕ) (s : TpmService S) (j : ℕ)
      → j ≢ locality
      → j ≢ s.active_locality
      → ((handle_locality_request ops locality s).0.crbs j ≡ s.crbs j)
        × ((j ≢ (handle_locality_request ops locality s).0.active_locality)
            ⊎ (j ≡ no_active_locality))
  unfolding handle_locality_request init_internal_crb
  handle_locality_request_elsewhere locality s j h k = ground arith

  clean_elsewhere :
      (s : TpmService S) (j : ℕ)
      → (j ≢ s.active_locality) ⊎ (j ≡ no_active_locality)
      → (clean_internal_crb s).crbs j ≡ s.crbs j
  unfolding clean_internal_crb
  clean_elsewhere s j h = ground arith

  abbrev Elsewhere : ℕ → TpmService S → TpmService S → Type 0
  Elsewhere j s s' = (s'.crbs j ≡ s.crbs j) × ((j ≢ s'.active_locality) ⊎ (j ≡ no_active_locality))

  start_choice-Elsewhere :
      (request : TpmRequest) (s : TpmService S) (j : ℕ)
      → j ≢ request.locality % 2 ^ 8
      → j ≢ s.active_locality
      → Elsewhere j s (start_choice ops request s).0
  unfolding start_choice
  start_choice-Elsewhere request s j h k =
      let function = request.function % 2 ^ 16 in
      let locality = request.locality % 2 ^ 8 in
      let unchanged : Elsewhere j s s = (refl, inl k) in
      let command = handle_command_elsewhere s j k in
      elim (Bool-cases (leb num_localities locality)) [
        | inl out ↦ rw out unchanged
        | inr ok ↦ elim (Bool-cases (is_closed (get_or s.locality_states locality closed))) [
          | inl shut ↦ rw (ok, shut) unchanged
          | inr free ↦ elim (Bool-cases (function == start_func_qualifier_command)) [
            | inl is_command ↦ elim (Bool-cases (locality == s.active_locality)) [
              | inl active ↦
                  rw (ok, free, is_command, active) (command.0, inl (λ e. k (e ∙ command.1)))
              | inr other ↦ rw (ok, free, is_command, other) unchanged
            ]
            | inr no_command ↦ elim (Bool-cases (function == start_func_qualifier_locality)) [
              | inl is_locality ↦
                  rw (ok, free, no_command, is_locality)
                    (handle_locality_request_elsewhere locality s j h k)
              | inr neither ↦ rw (ok, free, no_command, neither) unchanged
            ]
          ]
        ]
      ]

  -- A start message writes to no block but those of the locality that it names and of the active one.
  pub start_handler_elsewhere :
      (request : TpmRequest) (s : TpmService S) (j : ℕ)
      → j ≢ request.locality % 2 ^ 8
      → j ≢ s.active_locality
      → (start_handler ops request s).0.crbs j ≡ s.crbs j
  unfolding start_handler
  start_handler_elsewhere request s j h k =
      let choice = start_choice-Elsewhere request s j h k in
      clean_elsewhere (start_choice ops request s).0 j choice.1 ∙ choice.0
