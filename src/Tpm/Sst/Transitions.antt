-- ===== src/Tpm/Sst/Transitions.antt =====
-- tpm_sst.rs: the operations that change the TPM's state or a locality succeed only after a read that
-- shows the change.
use odp_secure_services.Tpm.Sst.Conditions.{Held, is_ok-ne}
use odp_secure_services.Tpm.Sst.Clock.{IsCovered, unit-Quiet, Clock}
use odp_secure_services.Tpm.Registers.{
  control_area_request_command_ready, control_area_request_go_idle, locality_status_granted,
  control_area_status_tpm_idle, is_ok,
}
use odp_secure_services.Tpm.Sst.Poll.{wait_register_bits, then_call}
use odp_secure_services.Ffa.Error.{ErrorCode}
use odp_secure_services.Tpm.Sst.Registers.{wait_register_bits-Waited}
use odp_secure_services.Tpm.Sst.Board.{
  timeout_a, timeout_b, timeout_c, fifo_valid, acc_active, sts_ready, external, timeout_max, TpmSst,
  Board,
}
use odp_secure_services.Tpm.Sst.Ops.{go_idle, cmd_ready, locality_request, locality_relinquish}
use odp_secure_services.Tpm.Sst.Crb
use odp_secure_services.Tpm.Sst.Fifo
use odp_secure_services.Base.Options.{Returns->>=, returns, Returns-mono, Returns}
use odp_secure_services.Base.{
  bit_or, ◌⊎◌, inr, inl, arith, false, true, if◌then◌else◌, if_split, ◌≡◌, Option, ◌≤◌, ℕ,
}

-- A field of a register block and the bits in it that are to be set and to be clear.
pub record Field : Type 0 where
  pub offset : ℕ
  pub bit_set : ℕ
  pub bit_clear : ℕ

abbrev pub field : ℕ → ℕ → ℕ → Field
field offset set clear = record { offset = offset; bit_set = set; bit_clear = clear }

module _ {W : Type 0} (b : Board W) (sst : TpmSst) (locality : ℕ) where
  -- Success after a read with the bits, or `Denied`.
  abbrev pub Settled : Field → W × ErrorCode → Type 0
  Settled f (w', status) =
      ((status ≡ ErrorCode.ok)
        × Held b sst (external sst locality f.offset) f.bit_set f.bit_clear w')
      ⊎ (status ≡ ErrorCode.denied)

  -- The field of the interface that the TPM has.
  abbrev pub SettledAt : Field → Field → W × ErrorCode → Type 0
  SettledAt crb fifo r =
      (sst.is_crb_interface ≡ true → Settled crb r)
      × (sst.is_crb_interface ≡ false → Settled fifo r)

module _ {W : Type 0} (b : Board W) (gap fuel : ℕ) (clock : Clock b gap)
    (covered : IsCovered b gap fuel) (sst : TpmSst) (locality : ℕ) where
  wait-Settled :
      (f : Field) (timeout : ℕ) (w : W)
      → timeout ≤ timeout_max
      → Returns (Settled b sst locality f) (
          wait_register_bits b fuel sst
            (external sst locality f.offset)
            f.bit_set
            f.bit_clear
            timeout
            w)
  wait-Settled f timeout w le =
      Returns-mono
        (wait_register_bits-Waited b gap fuel clock covered (λ w. Unit {0}) (unit-Quiet b) sst
          (external sst locality f.offset) f.bit_set f.bit_clear timeout w le tt)
        λ r (_, outcome). elim outcome [ inl held ↦ inl held | inr late ↦ inr late.0 ]

  then_call-Settled :
      (f g : Field) (next : W → Option (W × ErrorCode))
      → ((w' : W) → Returns (Settled b sst locality g) (next w'))
      → (r : W × ErrorCode) → Settled b sst locality f r
      → Returns (Settled b sst locality g) (then_call next r)
  unfolding then_call
  then_call-Settled f g next goes (w', status) settled =
      if_split (Returns (Settled b sst locality g)) (is_ok status) (λ t. goes w')
        (λ t.
          returns _
            (elim settled [ inl held ↦ absurd (is_ok-ne status t held.0) | inr late ↦ inr late ]))

  if-SettledAt :
      (crb fifo : Field) (x y : Option (W × ErrorCode))
      → Returns (Settled b sst locality crb) x
      → Returns (Settled b sst locality fifo) y
      → Returns (SettledAt b sst locality crb fifo) (if sst.is_crb_interface then x else y)
  if-SettledAt crb fifo x y hx hy =
      if_split (Returns (SettledAt b sst locality crb fifo)) sst.is_crb_interface
        (λ t. Returns-mono hx λ r h. (λ _. h, λ f. absurd (ground (arith, t, f))))
        (λ t. Returns-mono hy λ r h. (λ f. absurd (ground (arith, t, f)), λ _. h))

  -- Each of `go_idle`, `cmd_ready`, `locality_request` and `locality_relinquish` returns, when the
  -- counter runs with the time, the yields succeed and the fuel covers the longest timeout, and
  -- answers `Ok` or `Denied`. `Ok` comes after a read of the TPM's register that shows what was asked
  -- for: over a CRB that the TPM is idle, is not idle, has granted the locality or has not granted it,
  -- over a FIFO that it is ready, is ready, has the locality active and valid, or valid and not active.
  pub transitions-SettledAt :
      (w : W)
      → Returns
          (SettledAt b sst locality
            (field Crb.crb_control_status control_area_status_tpm_idle 0)
            (field Fifo.status sts_ready 0))
          (go_idle b fuel sst locality w)
        × Returns
            (SettledAt b sst locality
              (field Crb.crb_control_status 0 control_area_status_tpm_idle)
              (field Fifo.status sts_ready 0))
            (cmd_ready b fuel sst locality w)
        × Returns
            (SettledAt b sst locality
              (field Crb.locality_status locality_status_granted 0)
              (field Fifo.access (bit_or acc_active fifo_valid) 0))
            (locality_request b fuel sst locality w)
        × Returns
            (SettledAt b sst locality
              (field Crb.locality_status 0 locality_status_granted)
              (field Fifo.access fifo_valid acc_active))
            (locality_relinquish b fuel sst locality w)
  unfolding go_idle cmd_ready locality_request locality_relinquish
  transitions-SettledAt w = (
    if-SettledAt _ _ _ _
        (Returns->>= _
          (wait-Settled (field Crb.crb_control_request 0 control_area_request_go_idle) timeout_c _
            (omega arith))
          (then_call-Settled _ _ _ (λ w'. wait-Settled _ timeout_c w' (omega arith))))
        (wait-Settled _ timeout_b _ (omega arith)),
    if-SettledAt _ _ _ _
        (Returns->>= _
          (wait-Settled (field Crb.crb_control_request 0 control_area_request_command_ready)
            timeout_c _ (omega arith))
          (then_call-Settled _ _ _ (λ w'. wait-Settled _ timeout_c w' (omega arith))))
        (wait-Settled _ timeout_b _ (omega arith)),
    if-SettledAt _ _ _ _ (wait-Settled _ timeout_a _ (omega arith))
        (wait-Settled _ timeout_a _ (omega arith)),
    if-SettledAt _ _ _ _ (wait-Settled _ timeout_a _ (omega arith))
        (wait-Settled _ timeout_a _ (omega arith)),
  )
