-- ===== src/Vme/IrqLaws.antt =====
-- Which handlers are called for the interrupts, and the table of handlers.
use ht_drivers.Base.{
  ℕ, zero, suc, ◌+◌, ◌*◌, ◌/◌, ◌%◌, ◌^◌, ◌≡◌, inl, inr, refl, sym, ◌∙◌, Bool, true, false, List, [],
  ◌∷◌, ◌++◌, ◌==◌, if◌then◌else◌, arith, Bool-cases,
}
use ht_drivers.Vme.Irq.{
  VmeIrq, IrqState, field, without, account, account_bits, handle_dma_interrupt, handle_pci_error,
  handle_verr_interrupt, handle_mbox_interrupt, handle_lm_interrupt, wake_up, call_vector,
  vme_levels, handle_vme_interrupt, handle_mask, int_irq1,
}

-- The call that a vector gives: that of its handler, if there is one.
abbrev pub calls_of : (ℕ → VmeIrq) → ℕ → List (ℕ × ℕ)
calls_of t v = if (t v).handler == 0 then [] else ((t v).handler, (t v).arg) ∷ []

-- The calls of a mask, in order: from level `i` down to 1.
unfoldable pub dispatched : (i : ℕ) → (mask : ℕ) → (iack : ℕ → ℕ) → (ℕ → VmeIrq) → List (ℕ × ℕ)
dispatched zero mask iack t = []
dispatched (suc i) mask iack t =
    (if mask / 2 ^ suc i % 2 == 1 then calls_of t (iack (suc i) % 256) else [])
    ++ dispatched i mask iack t

-- Put on the log, which has the latest call first.
abbrev pub logged : List (ℕ × ℕ) → List (ℕ × ℕ) → List (ℕ × ℕ)
logged [] log = log
logged (c ∷ cs) log = logged cs (c ∷ log)

pub logged-append : (xs ys log : List (ℕ × ℕ)) → logged (xs ++ ys) log ≡ logged ys (logged xs log)
logged-append [] ys log = refl
logged-append (x ∷ xs) ys log = logged-append xs ys (x ∷ log)

-- These calls are made, and nothing else happens to the table than counting.
pub record Serves (s t : IrqState) (calls : List (ℕ × ℕ)) : Type 0 where
  pub called : t.called ≡ logged calls s.called
  pub handlers : (v : ℕ) → (t.vme_irq_table v).handler ≡ (s.vme_irq_table v).handler
  pub args : (v : ℕ) → (t.vme_irq_table v).arg ≡ (s.vme_irq_table v).arg
  pub enabled : t.vme_interrupts_enabled ≡ s.vme_interrupts_enabled

Serves-refl : (s : IrqState) → Serves s s []
Serves-refl s = record { called = refl; handlers = λ v. refl; args = λ v. refl; enabled = refl }

Serves-trans :
    (s t u : IrqState) (xs ys : List (ℕ × ℕ))
    → Serves s t xs
    → Serves t u ys
    → Serves s u (xs ++ ys)
Serves-trans s t u xs ys p q = record {
  called = rw (q.called, p.called, logged-append xs ys s.called) refl;
  handlers = λ v. q.handlers v ∙ p.handlers v;
  args = λ v. q.args v ∙ p.args v;
  enabled = q.enabled ∙ p.enabled;
}

if-Serves :
    (b : Bool) (s t : IrqState) (calls : List (ℕ × ℕ))
    → Serves s t calls
    → Serves s (if b then t else s) (if b then calls else [])
if-Serves true s t calls h = h
if-Serves false s t calls h = Serves-refl s

unless-Serves : (b : Bool) (s t : IrqState) → Serves s t [] → Serves s (if b then s else t) []
unless-Serves true s t h = Serves-refl s
unless-Serves false s t h = h

when-Serves : (b : Bool) (s t : IrqState) → Serves s t [] → Serves s (if b then t else s) []
when-Serves true s t h = h
when-Serves false s t h = Serves-refl s

account-Serves : (i : ℕ) (s : IrqState) → Serves s (account i s) []
account-Serves i s = record {
  called = refl;
  handlers = λ v. refl;
  args = λ v. refl;
  enabled = refl;
}

account_bits-Serves : (n idx mask : ℕ) (s : IrqState) → Serves s (account_bits n idx mask s) []
unfolding account_bits
account_bits-Serves zero idx mask s = Serves-refl s
account_bits-Serves (suc n) idx mask s =
    let s1 = if mask % 2 == 1 then account idx s else s in
    Serves-trans s s1 _ [] [] (when-Serves (mask % 2 == 1) s (account idx s) (account-Serves idx s))
      (account_bits-Serves n (suc idx) (mask / 2) s1)

wake_up-Serves : (c : ℕ) (s : IrqState) → Serves s (wake_up c s) []
wake_up-Serves c s = record {
  called = refl;
  handlers = λ v. refl;
  args = λ v. refl;
  enabled = refl;
}

dma-Serves : (mask : ℕ) (s : IrqState) → Serves s (handle_dma_interrupt mask s) []
unfolding handle_dma_interrupt
dma-Serves mask s =
    let woken0 : IrqState = wake_up 0 s in
    let s1 = if mask % 2 == 1 then woken0 else s in
    let woken1 : IrqState = wake_up 1 s1 in
    let s2 = if mask / 2 % 2 == 1 then woken1 else s1 in
    let p1 : Serves s s1 [] = when-Serves (mask % 2 == 1) s woken0 (wake_up-Serves 0 s) in
    let p2 : Serves s1 s2 [] = when-Serves (mask / 2 % 2 == 1) s1 woken1 (wake_up-Serves 1 s1) in
    Serves-trans s s2 _ [] [] (Serves-trans s s1 s2 [] [] p1 p2) (account_bits-Serves 2 _ mask s2)

pci-Serves : (s : IrqState) → Serves s (handle_pci_error s) []
unfolding handle_pci_error
pci-Serves s = record { called = refl; handlers = λ v. refl; args = λ v. refl; enabled = refl }

verr-Serves : (s : IrqState) → Serves s (handle_verr_interrupt s) []
unfolding handle_verr_interrupt
verr-Serves s = record { called = refl; handlers = λ v. refl; args = λ v. refl; enabled = refl }

call_vector-Serves :
    (vec : ℕ) (s : IrqState) → Serves s (call_vector vec s) (calls_of s.vme_irq_table vec)
unfolding call_vector
call_vector-Serves vec s = elim (Bool-cases ((s.vme_irq_table vec).handler == 0)) [
  | inl e ↦ rw e (Serves-refl s)
  | inr e ↦ rw e (record {
    called = refl;
    handlers = λ v. ground arith;
    args = λ v. ground arith;
    enabled = refl;
  })
]

account_after :
    (s t : IrqState) (i : ℕ) (calls : List (ℕ × ℕ))
    → Serves s t calls
    → Serves s (account i t) calls
account_after s t i calls h = record {
  called = h.called;
  handlers = h.handlers;
  args = h.args;
  enabled = h.enabled;
}

pub dispatched-same :
    (i mask : ℕ) (iack : ℕ → ℕ) (t u : ℕ → VmeIrq)
    → ((v : ℕ) → (t v).handler ≡ (u v).handler)
    → ((v : ℕ) → (t v).arg ≡ (u v).arg)
    → dispatched i mask iack t ≡ dispatched i mask iack u
unfolding dispatched
dispatched-same zero mask iack t u h a = refl
dispatched-same (suc i) mask iack t u h a =
    rw (h (iack (suc i) % 256), a (iack (suc i) % 256), dispatched-same i mask iack t u h a) refl

vme_levels-Serves :
    (i mask : ℕ) (iack : ℕ → ℕ) (s : IrqState)
    → Serves s (vme_levels i mask iack s) (dispatched i mask iack s.vme_irq_table)
unfolding vme_levels dispatched
vme_levels-Serves zero mask iack s = Serves-refl s
vme_levels-Serves (suc i) mask iack s =
    let vec = iack (suc i) % 256 in
    let raised = mask / 2 ^ suc i % 2 == 1 in
    let t = call_vector vec s in
    let s1 = if raised then account (int_irq1 + i) t else s in
    let here = if raised then calls_of s.vme_irq_table vec else [] in
    let one : Serves s s1 here =
      if-Serves raised s (account (int_irq1 + i) t) (calls_of s.vme_irq_table vec) (
        account_after s t (int_irq1 + i) (calls_of s.vme_irq_table vec)
          (call_vector-Serves vec s)) in
    let rest = vme_levels-Serves i mask iack s1 in
    Serves-trans s s1 _ here (dispatched i mask iack s.vme_irq_table) one (
      rw (sym (dispatched-same i mask iack s1.vme_irq_table s.vme_irq_table one.handlers one.args))
        rest)

-- Taking off a field above bit 7 leaves the bits of the levels.
low_bits :
    (m : ℕ)
    → (without 24 2 m % 256 ≡ m % 256)
      × (without 13 1 m % 256 ≡ m % 256)
      × (without 12 1 m % 256 ≡ m % 256)
      × (without 16 4 m % 256 ≡ m % 256)
      × (without 20 4 m % 256 ≡ m % 256)
low_bits m = (omega arith, omega arith, omega arith, omega arith, omega arith)

dispatched-low :
    (m mask : ℕ) (iack : ℕ → ℕ) (t : ℕ → VmeIrq)
    → m % 256 ≡ mask % 256
    → dispatched 7 (field 1 7 m * 2) iack t ≡ dispatched 7 mask iack t
unfolding dispatched
dispatched-low m mask iack t h =
    let b1 : m / 2 % 128 * 2 / 2 % 2 ≡ mask / 2 % 2 = omega arith in
    let b2 : m / 2 % 128 * 2 / 4 % 2 ≡ mask / 4 % 2 = omega arith in
    let b3 : m / 2 % 128 * 2 / 8 % 2 ≡ mask / 8 % 2 = omega arith in
    let b4 : m / 2 % 128 * 2 / 16 % 2 ≡ mask / 16 % 2 = omega arith in
    let b5 : m / 2 % 128 * 2 / 32 % 2 ≡ mask / 32 % 2 = omega arith in
    let b6 : m / 2 % 128 * 2 / 64 % 2 ≡ mask / 64 % 2 = omega arith in
    let b7 : m / 2 % 128 * 2 / 128 % 2 ≡ mask / 128 % 2 = omega arith in
    rw (b1, b2, b3, b4, b5, b6, b7) refl

none_raised : (iack : ℕ → ℕ) (t : ℕ → VmeIrq) → dispatched 7 0 iack t ≡ []
unfolding dispatched
none_raised iack t = refl

-- The last part of the handlers, with what is left of the mask.
levels-Serves :
    (m mask : ℕ) (iack : ℕ → ℕ) (s : IrqState)
    → m % 256 ≡ mask % 256
    → Serves s
        (if field 1 7 m == 0 then s else handle_vme_interrupt (field 1 7 m * 2) iack s)
        (dispatched 7 mask iack s.vme_irq_table)
unfolding handle_vme_interrupt
levels-Serves m mask iack s h = elim (Bool-cases (field 1 7 m == 0)) [
  | inl e ↦
      let zero_bits : field 1 7 m ≡ 0 = ground arith in
      let low = dispatched-low m mask iack s.vme_irq_table h in
      rw (sym low, zero_bits, none_raised iack s.vme_irq_table) (Serves-refl s)
  | inr e ↦
      rw (e, sym (dispatched-low m mask iack s.vme_irq_table h))
        (vme_levels-Serves 7 (field 1 7 m * 2) iack s)
]

pub handle_mask-Serves :
    (mask : ℕ) (iack : ℕ → ℕ) (s : IrqState)
    → Serves s (handle_mask mask iack s).0 (dispatched 7 mask iack s.vme_irq_table)
unfolding handle_mask handle_mbox_interrupt handle_lm_interrupt
handle_mask-Serves mask iack s =
    let dma = field 24 2 mask in
    let s1 = if dma == 0 then s else handle_dma_interrupt dma s in
    let m1 = without 24 2 mask in
    let s2 = if field 13 1 m1 == 0 then s1 else handle_pci_error s1 in
    let m2 = without 13 1 m1 in
    let s3 = if field 12 1 m2 == 0 then s2 else handle_verr_interrupt s2 in
    let m3 = without 12 1 m2 in
    let s4 = if field 16 4 m3 == 0 then s3 else handle_mbox_interrupt (field 16 4 m3) s3 in
    let m4 = without 16 4 m3 in
    let s5 = if field 20 4 m4 == 0 then s4 else handle_lm_interrupt (field 20 4 m4) s4 in
    let m5 = without 20 4 m4 in
    let low : m5 % 256 ≡ mask % 256 =
      (low_bits m4).4 ∙ (low_bits m3).3 ∙ (low_bits m2).2 ∙ (low_bits m1).1 ∙ (low_bits mask).0 in
    let p1 : Serves s s1 [] = unless-Serves (dma == 0) s _ (dma-Serves dma s) in
    let p2 : Serves s1 s2 [] = unless-Serves (field 13 1 m1 == 0) s1 _ (pci-Serves s1) in
    let p3 : Serves s2 s3 [] = unless-Serves (field 12 1 m2 == 0) s2 _ (verr-Serves s2) in
    let p4 : Serves s3 s4 [] =
      unless-Serves (field 16 4 m3 == 0) s3 _ (account_bits-Serves 4 _ (field 16 4 m3) s3) in
    let p5 : Serves s4 s5 [] =
      unless-Serves (field 20 4 m4 == 0) s4 _ (account_bits-Serves 4 _ (field 20 4 m4) s4) in
    let q2 = Serves-trans s s1 s2 [] [] p1 p2 in
    let q3 = Serves-trans s s2 s3 [] [] q2 p3 in
    let q4 = Serves-trans s s3 s4 [] [] q3 p4 in
    let q5 : Serves s s5 [] = Serves-trans s s4 s5 [] [] q4 p5 in
    Serves-trans s s5 _ [] (dispatched 7 mask iack s.vme_irq_table) q5 (
      rw (sym (dispatched-same 7 mask iack s5.vme_irq_table s.vme_irq_table q5.handlers q5.args))
        (levels-Serves m5 mask iack s5 low))
