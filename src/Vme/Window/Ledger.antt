-- ===== src/Vme/Window/Ledger.antt =====
-- The resources that a window holds: what creating it takes, and what destroying it gives back.
use ht_drivers.Base.{
  ℕ, suc, ◌≡◌, refl, ◌∙◌, true, false, List, ◌∷◌, some, arith, ℤ, Rc, success, failure, Errno,
  Result, ok, err, if_cases, ◌==◌, remove_first, remove_first_head,
}
use ht_drivers.Vme.Types.{VmeMapping}
use ht_drivers.Vme.Chip.Window.{Otrans, tsi148_create_window, round_window, tsi148_remove_window}
use ht_drivers.Vme.Window.Mappings.{free_mappings}
use ht_drivers.Vme.Window.State.{
  with_lock, lock_window, Bridge, Kernel, Resource, tick, put_window, unlock_window, window_index,
}
use ht_drivers.Vme.Window.Create.{
  Reply, out_free, out_release, out_unmap, chip_done, create_chip, create_map, resource_done,
  create_resource, create_locked, vme_create_window, vme_destroy_window, destroy_locked,
  destroy_active, free_all,
}
use ht_drivers.Vme.Window.Invariant.{lock_cases}

-- What is held after a creation, of what was held before: nothing more if it failed; if not, one
-- mapped address and one bus range, and window `i` names both.
record Balanced (i : ℕ) (iomaps resources : List ℕ) (r : Reply) : Type 0 where
  failed : (e : Errno) → r.2 ≡ failure e → (r.0.iomaps ≡ iomaps) × (r.0.resources ≡ resources)
  made :
      r.2 ≡ success
      → ((r.0.window_table i).active ≡ true)
        × (r.0.iomaps ≡ (r.0.window_table i).desc.kernel_va ∷ iomaps)
        × (r.0.resources ≡ (r.0.window_table i).rsrc.start ∷ resources)

failed-Balanced :
    (i : ℕ) (b : Bridge) (d : VmeMapping) (x : Errno) {io rs : List ℕ}
    → b.iomaps ≡ io
    → b.resources ≡ rs
    → Balanced i io rs (b, d, failure x)
failed-Balanced i b d x p q = record { failed = λ _ _. (p, q); made = λ e. cc }

create_window-kernel_va :
    (d : VmeMapping) (old : Otrans) → (tsi148_create_window d old).1.kernel_va ≡ d.kernel_va
unfolding tsi148_create_window round_window
create_window-kernel_va d old = ground arith

chip_done-Balanced :
    (i va : ℕ) (b : Bridge) (r : Otrans × VmeMapping × Rc) {io rs : List ℕ}
    → r.1.kernel_va ≡ va
    → b.iomaps ≡ va ∷ io
    → b.resources ≡ (b.window_table i).rsrc.start ∷ rs
    → Balanced i io rs (chip_done i b r)
unfolding chip_done out_unmap out_release out_free unlock_window
chip_done-Balanced i va b (regs, d, success) ev p q = record {
  failed = λ _ e. cc;
  made = λ _. ground arith;
}
chip_done-Balanced i va b (regs, d, failure x) {io} {rs} ev p q =
    failed-Balanced i _ _ x (rw (ev, p) (remove_first_head va io))
      (rw q (remove_first_head (b.window_table i).rsrc.start rs))

create_chip-Balanced :
    (i : ℕ) (d : VmeMapping) (b : Bridge) {io rs : List ℕ}
    → b.iomaps ≡ d.kernel_va ∷ io
    → b.resources ≡ (b.window_table i).rsrc.start ∷ rs
    → Balanced i io rs (create_chip i d b)
unfolding create_chip
create_chip-Balanced i d b p q =
    chip_done-Balanced i d.kernel_va b (tsi148_create_window d (b.otrans i))
      (create_window-kernel_va d (b.otrans i)) p q

create_map-Balanced :
    (k : Kernel) (i : ℕ) (d : VmeMapping) (b : Bridge) {rs : List ℕ}
    → b.resources ≡ (b.window_table i).rsrc.start ∷ rs
    → Balanced i b.iomaps rs (create_map k i d b)
unfolding create_map out_release out_free unlock_window
create_map-Balanced k i d b {rs} q =
    let start = (b.window_table i).rsrc.start in
    if_cases (Balanced i b.iomaps rs) (k.ioremap b.calls start d.sizel == 0)
      (λ _. failed-Balanced i _ _ _ refl (rw q (remove_first_head start rs)))
      (λ _. create_chip-Balanced i _ _ refl q)

resource_done-Balanced :
    (k : Kernel) (i : ℕ) (d : VmeMapping) (b : Bridge) (r : Result ℕ)
    → Balanced i b.iomaps b.resources (resource_done k i d b r)
unfolding resource_done out_free unlock_window
resource_done-Balanced k i d b (err x) = failed-Balanced i _ _ x refl refl
resource_done-Balanced k i d b (ok start) =
    let w = b.window_table i in
    create_map-Balanced k i d
      (put_window i (record w { rsrc = record (w.rsrc) { start = start } })
        (record b { resources = start ∷ b.resources }))
      (ground arith)

create_resource-Balanced :
    (k : Kernel) (i : ℕ) (d : VmeMapping) (b : Bridge)
    → Balanced i b.iomaps b.resources (create_resource k i d b)
unfolding create_resource
create_resource-Balanced k i d b =
    let named : Resource = record { name = k.allocated b.calls; start = 0; end = d.sizel } in
    resource_done-Balanced k i d
      (tick (tick (put_window i (record (b.window_table i) { rsrc = named }) b)))
      (k.bus_resource (suc b.calls) d.sizel)

create_locked-Balanced :
    (k : Kernel) (i : ℕ) (d : VmeMapping) (b : Bridge)
    → Balanced i b.iomaps b.resources (create_locked k i d b)
unfolding create_locked unlock_window
create_locked-Balanced k i d b =
    let b1 = put_window i (record (b.window_table i) { lock = true }) (tick b) in
    lock_cases (Balanced i b.iomaps b.resources) k i _ _ b
      (λ _.
        if_cases (Balanced i b.iomaps b.resources) (b1.window_table i).active
          (λ _. failed-Balanced i _ _ _ refl refl) (λ _. create_resource-Balanced k i d b1))
      (failed-Balanced i _ _ _ refl refl)

vme_create_window-Balanced :
    (k : Kernel) (d : VmeMapping) (b : Bridge) (i : ℕ)
    → window_index d.window_num ≡ some i
    → Balanced i b.iomaps b.resources (vme_create_window k d b)
unfolding vme_create_window
vme_create_window-Balanced k d b i e =
    rw (e, vme_create_window)
      (if_cases (Balanced i b.iomaps b.resources) (d.sizel == 0)
        (λ _. failed-Balanced i _ _ _ refl refl) (λ _. create_locked-Balanced k i _ b))

module _ (k : Kernel) (d : VmeMapping) (b : Bridge) (i : ℕ)
    (num : window_index d.window_num ≡ some i) where
  -- A creation of window `i` that fails, on whatever path, leaves the mapped addresses and the bus
  -- ranges as they were.
  pub vme_create_window-failed :
      (e : Errno)
      → (vme_create_window k d b).2 ≡ failure e
      → let (c, d', rc) = vme_create_window k d b in
        (c.iomaps ≡ b.iomaps) × (c.resources ≡ b.resources)
  vme_create_window-failed e h = (vme_create_window-Balanced k d b i num).failed e h

  -- A creation of window `i` that succeeds puts it in use and takes one mapped address and one bus
  -- range, which the window names.
  pub vme_create_window-made :
      (vme_create_window k d b).2 ≡ success
      → let (c, d', rc) = vme_create_window k d b in
        ((c.window_table i).active ≡ true)
        × (c.iomaps ≡ (c.window_table i).desc.kernel_va ∷ b.iomaps)
        × (c.resources ≡ (c.window_table i).rsrc.start ∷ b.resources)
  vme_create_window-made h = (vme_create_window-Balanced k d b i num).made h

-- Window `i` is in use, no one holds its mutex, and the call is not interrupted.
abbrev pub CanDestroy : Kernel → ℕ → Bridge → Type 0
CanDestroy k i b =
    ((b.window_table i).active ≡ true)
    × ((b.window_table i).lock ≡ false)
    × (k.interrupted b.calls ≡ false)

-- Registers that are all 0, with the enable bit among them.
abbrev pub wiped : Otrans
wiped = record {
  otsau = 0;
  otsal = 0;
  oteau = 0;
  oteal = 0;
  otofu = 0;
  otofl = 0;
  otbs = 0;
  otat = 0;
}

-- Destroying a window that is in use, whose mutex no one holds, in a call that no signal interrupts,
-- succeeds, gives back the mapped address and the bus range that it names, and leaves it out of use,
-- marked as disabled, with 0 in all of its chip registers.
pub vme_destroy_window-frees :
    (k : Kernel) (n : ℤ) (b : Bridge) (i : ℕ)
    → window_index n ≡ some i
    → CanDestroy k i b
    → let w = b.window_table i in
      let (c, rc) = vme_destroy_window k n b in
      (rc ≡ success)
      × (c.iomaps ≡ remove_first w.desc.kernel_va b.iomaps)
      × (c.resources ≡ remove_first w.rsrc.start b.resources)
      × ((c.window_table i).active ≡ false)
      × ((c.window_table i).desc.window_enabled ≡ 0)
      × (c.otrans i ≡ wiped)
unfolding vme_destroy_window destroy_locked with_lock lock_window destroy_active unlock_window
    free_all free_mappings tsi148_remove_window
vme_destroy_window-frees k n b i e (on, free, calm) = ground arith

-- A window that was created and is then destroyed, with no signal, leaves the mapped addresses and
-- the bus ranges as they were before it was created.
pub destroy-create :
    (k : Kernel) (d : VmeMapping) (b : Bridge) (i : ℕ)
    → window_index d.window_num ≡ some i
    → (vme_create_window k d b).2 ≡ success
    → CanDestroy k i (vme_create_window k d b).0
    → let (c, rc) = vme_destroy_window k d.window_num (vme_create_window k d b).0 in
      (rc ≡ success) × (c.iomaps ≡ b.iomaps) × (c.resources ≡ b.resources)
destroy-create k d b i e made can =
    let held = vme_create_window-made k d b i e made in
    let freed = vme_destroy_window-frees k d.window_num (vme_create_window k d b).0 i e can in
    (
      freed.0,
      freed.1 ∙ rw held.1 (remove_first_head _ b.iomaps),
      freed.2 ∙ rw held.2 (remove_first_head _ b.resources),
    )
