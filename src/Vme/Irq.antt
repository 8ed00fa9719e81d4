-- ===== src/Vme/Irq.antt =====
-- vmebridge/driver/vme_irq.c and the interrupt part of tsi148.h and tsi148.c. A field of a register
-- is written by its place: `(m & M) >> s` for a field M of k bits at s is `field s k m`.
-- A handler is a number, 0 for NULL; a call of one is an entry of `called`, latest first.
use ht_drivers.Base.{
  ℕ, zero, suc, ◌+◌, ◌-◌, ◌*◌, ◌/◌, ◌%◌, ◌^◌, Bool, ◌&&◌, List, [], ◌∷◌, ◌==◌, ltb, if◌then◌else◌,
  add32, bit_and, bit_or, update, einval, ebusy, Rc, success, failure,
}
use ht_drivers.Vme.Berr.{Verr, handle_vme_error}

-- `struct vme_irq`; `name` is 0 for NULL.
pub record VmeIrq : Type 0 where
  pub handler : ℕ
  pub arg : ℕ
  pub count : ℕ
  pub name : ℕ

-- `unknown` is the text "Unknown".
abbrev pub unknown : ℕ
unknown = 1

-- `enum interrupt_idx`.
abbrev pub int_dma0 : ℕ
int_dma0 = 0

abbrev pub int_mb0 : ℕ
int_mb0 = 2

abbrev pub int_lm0 : ℕ
int_lm0 = 6

abbrev pub int_irq1 : ℕ
int_irq1 = 10

abbrev pub int_perr : ℕ
int_perr = 17

abbrev pub int_verr : ℕ
int_verr = 18

abbrev pub int_spurious : ℕ
int_spurious = 19

-- The tables and the chip's interrupt registers. `woken` counts the wake-ups of each DMA channel's
-- queue, `pci_cleared` the writes that clear a PCI error.
pub record IrqState : Type 0 where
  pub vme_interrupts_enabled : ℕ
  pub inteo : ℕ
  pub inten : ℕ
  pub vme_irq_table : ℕ → VmeIrq
  pub int_stats : ℕ → ℕ
  pub called : List (ℕ × ℕ)
  pub woken : ℕ → ℕ
  pub pci_cleared : ℕ
  pub verr : Verr

abbrev pub field : (shift width : ℕ) → ℕ → ℕ
field s k m = m / 2 ^ s % 2 ^ k

abbrev pub without : (shift width : ℕ) → ℕ → ℕ
without s k m = m - field s k m * 2 ^ s

-- A counter of 32 bits.
abbrev pub account : ℕ → IrqState → IrqState
account i s = record s { int_stats = update s.int_stats i (add32 (s.int_stats i) 1) }

-- The counters from `idx` on, for as many bits of a mask.
unfoldable pub account_bits : (left idx : ℕ) → (mask : ℕ) → IrqState → IrqState
account_bits zero idx mask s = s
account_bits (suc n) idx mask s =
    account_bits n (suc idx) (mask / 2) (if mask % 2 == 1 then account idx s else s)

abbrev pub wake_up : ℕ → IrqState → IrqState
wake_up c s = record s { woken = update s.woken c (suc (s.woken c)) }

unfoldable pub handle_dma_interrupt : ℕ → IrqState → IrqState
handle_dma_interrupt mask s =
    let s1 = if mask % 2 == 1 then wake_up 0 s else s in
    let s2 = if mask / 2 % 2 == 1 then wake_up 1 s1 else s1 in account_bits 2 int_dma0 mask s2

unfoldable pub handle_pci_error : IrqState → IrqState
handle_pci_error s = account int_perr (record s { pci_cleared = suc s.pci_cleared })

unfoldable pub handle_verr_interrupt : IrqState → IrqState
handle_verr_interrupt s = account int_verr (record s { verr = handle_vme_error s.verr })

unfoldable pub handle_mbox_interrupt : ℕ → IrqState → IrqState
handle_mbox_interrupt mask s = account_bits 4 int_mb0 mask s

unfoldable pub handle_lm_interrupt : ℕ → IrqState → IrqState
handle_lm_interrupt mask s = account_bits 4 int_lm0 mask s

-- The handler of a vector, if one is installed.
unfoldable pub call_vector : (vec : ℕ) → IrqState → IrqState
call_vector vec s =
    let virq = s.vme_irq_table vec in
    if virq.handler == 0 then s else record s {
      vme_irq_table = update s.vme_irq_table vec (record virq { count = add32 virq.count 1 });
      called = (virq.handler, virq.arg) ∷ s.called;
    }

-- The loop from level `i` down to 1. `iack` is what the interrupter of each level answers.
unfoldable pub vme_levels : (i : ℕ) → (irq_mask : ℕ) → (iack : ℕ → ℕ) → IrqState → IrqState
vme_levels zero irq_mask iack s = s
vme_levels (suc i) irq_mask iack s = vme_levels i irq_mask iack (
    if irq_mask / 2 ^ suc i % 2 == 1
    then account (int_irq1 + i) (call_vector (iack (suc i) % 256) s)
    else s)

unfoldable pub handle_vme_interrupt : (irq_mask : ℕ) → (iack : ℕ → ℕ) → IrqState → IrqState
handle_vme_interrupt irq_mask iack s = vme_levels 7 irq_mask iack s

-- The handlers of an enabled mask, and what is left of it for the warning at the end.
unfoldable pub handle_mask : (mask : ℕ) → (iack : ℕ → ℕ) → IrqState → IrqState × ℕ
handle_mask mask iack s =
    let dma = field 24 2 mask in
    let s1 = if dma == 0 then s else handle_dma_interrupt dma s in
    let m1 = without 24 2 mask in
    let s2 = if field 13 1 m1 == 0 then s1 else handle_pci_error s1 in
    let m2 = without 13 1 m1 in
    let s3 = if field 12 1 m2 == 0 then s2 else handle_verr_interrupt s2 in
    let m3 = without 12 1 m2 in
    let s4 = if field 16 4 m3 == 0 then s3 else handle_mbox_interrupt (field 16 4 m3) s3 in
    let m4 = without 16 4 m3 in
    let s5 = if field 20 4 m4 == 0 then s4 else handle_lm_interrupt (field 20 4 m4) s4 in
    let m5 = without 20 4 m4 in
    let s6 = if field 1 7 m5 == 0 then s5 else handle_vme_interrupt (field 1 7 m5 * 2) iack s5 in
    (s6, without 1 7 m5)

-- What one look at the chip finds: the raised interrupts, and the vectors of the levels.
pub record Round : Type 0 where
  pub raised : ℕ
  pub iack : ℕ → ℕ

pub data IrqReturn : Type 0 where
  irq_none irq_handled : IrqReturn

-- The loop, for what the chip has to say; after the last round nothing is raised.
unfoldable pub vme_bridge_interrupt : List Round → IrqState → IrqState × IrqReturn
vme_bridge_interrupt [] s = (s, irq_handled)
vme_bridge_interrupt (r ∷ rs) s =
    let mask = bit_and r.raised s.vme_interrupts_enabled in
    let rest = vme_bridge_interrupt rs (handle_mask mask r.iack s).0 in
    if r.raised == 0
    then (s, irq_handled)
    else if mask == 0
    then (account int_spurious s, irq_none)
    else rest

-- `readback` is what the chip then holds in a register that is written.
unfoldable pub set_interrupts : (readback : ℕ → ℕ) → ℕ → IrqState → IrqState × Bool
set_interrupts readback mask s =
    let s1 = record s { inteo = readback mask; inten = readback mask } in
    (s1, (s1.inteo == mask) && (s1.inten == mask))

unfoldable pub vme_enable_interrupts : (readback : ℕ → ℕ) → ℕ → IrqState → IrqState × Bool
unfolding set_interrupts
vme_enable_interrupts readback mask s =
    let enabled = bit_or s.inteo mask in
    set_interrupts readback enabled (record s { vme_interrupts_enabled = enabled })

unfoldable pub vme_disable_interrupts : (readback : ℕ → ℕ) → ℕ → IrqState → IrqState × Bool
unfolding set_interrupts
vme_disable_interrupts readback mask s =
    let enabled = bit_and s.inteo (0xffffffff - mask) in
    set_interrupts readback enabled (record s { vme_interrupts_enabled = enabled })

abbrev pub vme_num_vectors : ℕ
vme_num_vectors = 256

-- `locked` is what `mutex_lock_interruptible` answers.
unfoldable pub vme_request_irq :
    (locked : Rc) → (vec handler arg name : ℕ) → IrqState → IrqState × Rc
vme_request_irq locked vec handler arg name s =
    let virq : VmeIrq = record {
      handler = handler;
      arg = arg;
      count = 0;
      name = if name == 0 then unknown else name;
    } in
    if ltb vec vme_num_vectors
    then elim locked [
      | failure e ↦ (s, failure e)
      | success ↦
          if (s.vme_irq_table vec).handler == 0
          then (record s { vme_irq_table = update s.vme_irq_table vec virq }, success)
          else (s, failure ebusy)
    ]
    else (s, failure einval)

abbrev pub no_irq : VmeIrq
no_irq = record { handler = 0; arg = 0; count = 0; name = 0 }

unfoldable pub vme_free_irq : (locked : Rc) → (vec : ℕ) → IrqState → IrqState × Rc
vme_free_irq locked vec s =
    if ltb vec vme_num_vectors
    then elim locked [
      | failure e ↦ (s, failure e)
      | success ↦
          if (s.vme_irq_table vec).handler == 0
          then (s, failure einval)
          else (record s { vme_irq_table = update s.vme_irq_table vec no_irq }, success)
    ]
    else (s, failure einval)
