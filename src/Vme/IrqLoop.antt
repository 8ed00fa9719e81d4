-- ===== src/Vme/IrqLoop.antt =====
-- The interrupt loop of vmebridge/driver/vme_irq.c calls the handlers of what is raised.
use ht_drivers.Base.{
  ℕ, ◌≡◌, ◌≢◌, refl, sym, subst, false, List, [], ◌∷◌, ◌++◌, ◌==◌, arith, bit_and,
}
use ht_drivers.Vme.Irq.{VmeIrq, IrqState, handle_mask, Round, irq_handled, vme_bridge_interrupt}
use ht_drivers.Vme.IrqLaws.{dispatched, logged, logged-append, dispatched-same, handle_mask-Serves}

-- Something that is enabled is raised in each round.
abbrev pub AllEnabled : (enabled : ℕ) → List Round → Type 0
AllEnabled e [] = Unit
AllEnabled e (r ∷ rs) = (r.raised ≢ 0) × (bit_and r.raised e ≢ 0) × AllEnabled e rs

-- The calls of all rounds, in order.
unfoldable pub all_dispatched : (enabled : ℕ) → List Round → (ℕ → VmeIrq) → List (ℕ × ℕ)
all_dispatched e [] t = []
all_dispatched e (r ∷ rs) t = dispatched 7 (bit_and r.raised e) r.iack t ++ all_dispatched e rs t

all_dispatched-same :
    (e : ℕ) (rs : List Round) (t u : ℕ → VmeIrq)
    → ((v : ℕ) → (t v).handler ≡ (u v).handler)
    → ((v : ℕ) → (t v).arg ≡ (u v).arg)
    → all_dispatched e rs t ≡ all_dispatched e rs u
unfolding all_dispatched
all_dispatched-same e [] t u h a = refl
all_dispatched-same e (r ∷ rs) t u h a =
    rw (dispatched-same 7 (bit_and r.raised e) r.iack t u h a, all_dispatched-same e rs t u h a)
      refl

-- If each round raises an enabled interrupt, the interrupt is handled, and the handlers called are,
-- round after round and from level 7 down to 1, those installed for the vectors of the raised and
-- enabled levels, each with its argument.
pub vme_bridge_interrupt-calls :
    (rs : List Round) (s : IrqState)
    → AllEnabled s.vme_interrupts_enabled rs
    → ((vme_bridge_interrupt rs s).1 ≡ irq_handled)
      × ((vme_bridge_interrupt rs s).0.called
          ≡ logged (all_dispatched s.vme_interrupts_enabled rs s.vme_irq_table) s.called)
unfolding vme_bridge_interrupt all_dispatched
vme_bridge_interrupt-calls [] s h = (refl, refl)
vme_bridge_interrupt-calls (r ∷ rs) s (some_raised, some_enabled, h) =
    let e = s.vme_interrupts_enabled in
    let mask = bit_and r.raised e in
    let t = (handle_mask mask r.iack s).0 in
    let one = handle_mask-Serves mask r.iack s in
    let (handled, calls) =
      vme_bridge_interrupt-calls rs t (subst (λ x. AllEnabled x rs) (sym one.enabled) h) in
    let raised : (r.raised == 0) ≡ false = ground arith in
    let enabled : (mask == 0) ≡ false = ground arith in
    let same = all_dispatched-same e rs t.vme_irq_table s.vme_irq_table one.handlers one.args in
    rw (raised, enabled)
      (
        handled,
        rw
            (
              calls,
              one.called,
              one.enabled,
              same,
              logged-append (dispatched 7 mask r.iack s.vme_irq_table)
                  (all_dispatched e rs s.vme_irq_table) s.called,
            )
            refl,
      )
