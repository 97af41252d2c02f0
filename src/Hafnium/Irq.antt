-- ===== src/Hafnium/Irq.antt =====
-- aarch64-haf/src/interrupt.rs: the handler of the interrupt exception. The handler of the program,
-- `HafInterruptHandler`, is a parameter; `none` is a panic.
use odp_secure_services.Hafnium.Calls.{InterruptId, hf_interrupt_deactivate, hf_interrupt_get}
use odp_secure_services.Base.{ok, err, Result, none, some, Option, Bool, false, ℕ}

module _ {W : Type 0} (hvc : W → ℕ → ℕ → ℕ → ℕ → W × ℕ) (handle : W → InterruptId → W) where
  -- What follows the call that deactivates the interrupt.
  unfoldable pub deactivated : InterruptId → W × Result ℕ (Unit {0}) → Option (W × Bool)
  deactivated interrupt_id (w, ok done) = some (handle w interrupt_id, false)
  deactivated interrupt_id (w, err e) = none

  -- What follows the call that takes the interrupt.
  unfoldable pub taken : W × Option InterruptId → Option (W × Bool)
  unfolding deactivated
  taken (w, none) = none
  taken (w, some interrupt_id) =
      deactivated interrupt_id (hf_interrupt_deactivate hvc interrupt_id w)

  unfoldable pub irq_current : W → Option (W × Bool)
  unfolding taken
  irq_current w = taken (hf_interrupt_get hvc w)
