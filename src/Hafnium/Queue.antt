-- ===== src/Hafnium/Queue.antt =====
-- aarch64-haf/src/interrupt.rs over a hypervisor that hands out the pending interrupts in order.
use mathlib.Core.List.{append-nil, append_assoc}
use odp_secure_services.Hafnium.Irq.{deactivated, taken, irq_current}
use odp_secure_services.Hafnium.Calls.{
  invalid_id, call_result, interrupt_id, hf_interrupt_deactivate, hf_call_code, hf_call,
  hf_interrupt_get, InterruptId,
}
use odp_secure_services.Base.{
  ap, sym, ◌∙◌, length, refl, arith, zero, none, ◌<◌, [], All, ◌++◌, suc, ◌∷◌, Bool, some, ◌≡◌,
  Option, List, ℕ,
}
use odp_secure_services.Base.Options.{Returns->>=, Returns-mono, returns, Returns, ◌>>=◌}

-- What the hypervisor says of its calls: InterruptGet takes the first pending interrupt and makes it
-- active, and answers the invalid id when there is none; InterruptDeactivate ends the interrupt that
-- is active last. The program's handler adds to what it handled, and takes no interrupt itself.
pub record Interrupts {W : Type 0} (hvc : W → ℕ → ℕ → ℕ → ℕ → W × ℕ) (handle : W → InterruptId → W)
    : Type 0 where
  pub pending : W → List ℕ
  pub active : W → List ℕ
  pub handled : W → List ℕ
  pub get_first :
      (w : W) (id : ℕ) (ids : List ℕ)
      → pending w ≡ id ∷ ids
      → ((hvc w 0xff04 0 0 0).1 ≡ id)
        × (pending (hvc w 0xff04 0 0 0).0 ≡ ids)
        × (active (hvc w 0xff04 0 0 0).0 ≡ id ∷ active w)
        × (handled (hvc w 0xff04 0 0 0).0 ≡ handled w)
  pub get_none : (w : W) → pending w ≡ [] → (hvc w 0xff04 0 0 0).1 ≡ invalid_id
  pub deactivate :
      (w : W) (id : ℕ) (ids : List ℕ)
      → active w ≡ id ∷ ids
      → ((hvc w 0xff08 id id 0).1 ≡ 0)
        × (active (hvc w 0xff08 id id 0).0 ≡ ids)
        × (pending (hvc w 0xff08 id id 0).0 ≡ pending w)
        × (handled (hvc w 0xff08 id id 0).0 ≡ handled w)
  pub handle_one :
      (w : W) (id : InterruptId)
      → (handled (handle w id) ≡ handled w ++ (id.number ∷ []))
        × (pending (handle w id) ≡ pending w)
        × (active (handle w id) ≡ active w)

module _ {W : Type 0} (hvc : W → ℕ → ℕ → ℕ → ℕ → W × ℕ) (handle : W → InterruptId → W)
    (ints : Interrupts hvc handle) where
  -- The exception is taken `n` times.
  unfoldable pub take_irqs : ℕ → W → Option W
  take_irqs zero w = some w
  take_irqs (suc n) w = irq_current hvc handle w >>= λ r. take_irqs n r.0

  abbrev Took : W → ℕ → List ℕ → W × Bool → Type 0
  Took w id ids r =
      (ints.pending r.0 ≡ ids)
      × (ints.active r.0 ≡ ints.active w)
      × (ints.handled r.0 ≡ ints.handled w ++ (id ∷ []))

  hf_interrupt_get-first :
      (w : W) (id : ℕ) (ids : List ℕ)
      → ints.pending w ≡ id ∷ ids
      → id < invalid_id
      → hf_interrupt_get hvc w ≡ ((hvc w 0xff04 0 0 0).0, some (record { number = id }))
  unfolding hf_interrupt_get hf_call hf_call_code interrupt_id
  hf_interrupt_get-first w id ids p lt = rw (ints.get_first w id ids p).0 (ground arith)

  irq_current-none : (w : W) → ints.pending w ≡ [] → irq_current hvc handle w ≡ none
  unfolding irq_current taken hf_interrupt_get hf_call hf_call_code interrupt_id
  irq_current-none w p = rw (ints.get_none w p) refl

  taken-Took :
      (w : W) (id : ℕ) (rest : List ℕ)
      → ints.active w ≡ id ∷ rest
      → Returns
          (λ r.
            (ints.pending r.0 ≡ ints.pending w)
            × (ints.active r.0 ≡ rest)
            × (ints.handled r.0 ≡ ints.handled w ++ (id ∷ [])))
          (taken hvc handle (w, some (record { number = id })))
  unfolding taken deactivated hf_interrupt_deactivate hf_call hf_call_code call_result
  taken-Took w id rest a =
      let (code, left, waits, done) = ints.deactivate w id rest a in
      let (h, p, k) = ints.handle_one (hvc w 0xff08 id id 0).0 (record { number = id }) in
      rw code (returns _ (p ∙ waits, k ∙ left, h ∙ ap (λ x. x ++ (id ∷ [])) done))

  irq_current-Took :
      (w : W) (id : ℕ) (ids : List ℕ)
      → ints.pending w ≡ id ∷ ids
      → id < invalid_id
      → Returns (Took w id ids) (irq_current hvc handle w)
  unfolding irq_current
  irq_current-Took w id ids p lt =
      let (_, pending, active, handled) = ints.get_first w id ids p in
      rw (hf_interrupt_get-first w id ids p lt) (
        Returns-mono (taken-Took (hvc w 0xff04 0 0 0).0 id (ints.active w) active)
          λ r q. (q.0 ∙ pending, q.1, q.2 ∙ ap (λ x. x ++ (id ∷ [])) handled))

  -- The pending interrupts are taken in their order, each by one exception: it does not panic, and the
  -- program's handler has then been called once for each of them. None of them stays active, and an
  -- exception without a pending interrupt panics.
  pub take_irqs-handled :
      (w : W) (ids : List ℕ)
      → ints.pending w ≡ ids
      → All (λ id. id < invalid_id) ids
      → Returns
          (λ w'.
            (ints.handled w' ≡ ints.handled w ++ ids)
            × (ints.active w' ≡ ints.active w)
            × (irq_current hvc handle w' ≡ none))
          (take_irqs (length ids) w)
  unfolding take_irqs
  take_irqs-handled w [] p all =
      returns w (sym (append-nil (ints.handled w)), refl, irq_current-none w p)
  take_irqs-handled w (id ∷ ids) p (lt, all) =
      Returns->>= _ (irq_current-Took w id ids p lt) λ r took.
        Returns-mono (take_irqs-handled r.0 ids took.0 all) λ w' q. (
          q.0 ∙ ap (λ x. x ++ ids) took.2 ∙ append_assoc (ints.handled w) (id ∷ []) ids,
          q.1 ∙ took.1,
          q.2,
        )
