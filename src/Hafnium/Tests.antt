-- ===== src/Hafnium/Tests.antt =====
-- The interrupt exception over a concrete hypervisor with two pending interrupts.
use odp_secure_services.Hafnium.Irq.{deactivated, taken, irq_current}
use odp_secure_services.Base.Options.{Returns}
use odp_secure_services.Hafnium.Queue.{take_irqs-handled, take_irqs, Interrupts}
use odp_secure_services.Hafnium.Calls.{
  irq, call_result, interrupt_id, hf_call_code, hf_call, hf_interrupt_set, hf_interrupt_deactivate,
  hf_interrupt_get, invalid_id, InterruptId,
}
use odp_secure_services.Base.{
  err, true, false, some, arith, none, drop, ◌≡◌, [], refl, ◌++◌, ◌==◌, ◌∷◌, if◌then◌else◌, List, ℕ,
}

record Gic : Type 0 where
  pending : List ℕ
  active : List ℕ
  handled : List ℕ

abbrev get_pending : Gic → List ℕ → Gic × ℕ
get_pending g [] = (g, invalid_id)
get_pending g (id ∷ ids) = (record g { pending = ids; active = id ∷ g.active }, id)

-- Another call is refused with -1.
abbrev gic_hvc : Gic → ℕ → ℕ → ℕ → ℕ → Gic × ℕ
gic_hvc g code arg1 arg2 arg3 =
    if code == 0xff04
    then get_pending g g.pending
    else if code == 0xff08
    then (record g { active = drop 1 g.active }, 0)
    else (g, 0xffffffffffffffff)

abbrev note_id : Gic → InterruptId → Gic
note_id g id = record g { handled = g.handled ++ (id.number ∷ []) }

gic_Interrupts : Interrupts gic_hvc note_id
gic_Interrupts = record {
  pending = λ g. g.pending;
  active = λ g. g.active;
  handled = λ g. g.handled;
  get_first = λ g id ids p. rw p (refl, refl, refl, refl);
  get_none = λ g p. rw p refl;
  deactivate = λ g id ids a. rw a (refl, refl, refl, refl);
  handle_one = λ g id. (refl, refl, refl);
}

abbrev two_pending : Gic
two_pending = record { pending = 27 ∷ 40 ∷ []; active = []; handled = 9 ∷ [] }

take_irqs-handled_example :
    Returns
      (λ g.
        (g.handled ≡ 9 ∷ 27 ∷ 40 ∷ []) × (g.active ≡ []) × (irq_current gic_hvc note_id g ≡ none))
      (take_irqs gic_hvc note_id gic_Interrupts 2 two_pending)
unfolding gic_Interrupts
take_irqs-handled_example =
    take_irqs-handled gic_hvc note_id gic_Interrupts two_pending (27 ∷ 40 ∷ []) refl
      (omega arith, (omega arith, tt))

driven :
    (irq_current gic_hvc note_id two_pending
      ≡ some (record { pending = 40 ∷ []; active = []; handled = 9 ∷ 27 ∷ [] }, false))
    × (hf_interrupt_set gic_hvc (record { number = 40 }) irq true two_pending
        ≡ (two_pending, err 0xffffffffffffffff))
unfolding irq_current taken deactivated hf_interrupt_get hf_interrupt_deactivate hf_interrupt_set
    hf_call hf_call_code interrupt_id call_result
driven = (refl, refl)
