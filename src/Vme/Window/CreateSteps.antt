-- ===== src/Vme/Window/CreateSteps.antt =====
-- Creating and destroying a window keep the invariant.
use ht_drivers.Base.{
  ℕ, suc, ◌<◌, ◌≡◌, refl, ap, ◌∙◌, Bool, true, false, inl, inr, List, [], ◌∷◌, arith, ℤ, pos,
  is_positive, length, drop_if, Rc, success, failure, Result, ok, err, Option-cases, if_cases, ◌==◌,
  update, update_self, remove_first,
}
use ht_drivers.Vme.Types.{VmeMapping}
use ht_drivers.Vme.Chip.Window.{Otrans, tsi148_create_window, round_window}
use ht_drivers.Vme.Chip.WindowLaws.{create-IsCreated}
use ht_drivers.Vme.Window.State.{
  Window, Bridge, Kernel, Mapping, Resource, no_resource, tick, put_window, unlock_window,
  window_index,
}
use ht_drivers.Vme.Window.Mappings.{free_mappings}
use ht_drivers.Vme.Window.Create.{
  Reply, align_address, round_size, out_free, out_release, out_unmap, resource_done, chip_done,
  create_chip, create_map, create_resource, create_locked, vme_create_window, free_all,
  destroy_active, destroy_locked, vme_destroy_window, vme_get_window_attr,
}
use ht_drivers.Vme.Window.Invariant.{
  WindowInv, Inv, Holding, window_index-some, update-Holding, Holding-free, Holding-unlock,
  lock_rule,
}
use ht_drivers.Vme.Window.Steps.{free_mappings-WindowInv}

WindowInv-rsrc :
    {l : Bool} {i : ℕ} {w : Window} (r : Resource)
    → WindowInv l i w
    → WindowInv l i (record w { rsrc = r })
WindowInv-rsrc r v = record {
  lock = v.lock;
  counted = v.counted;
  idle = v.idle;
  numbered = v.numbered;
  enabled = v.enabled;
}

out_free-Inv : (i : ℕ) (b : Bridge) → Holding i b.window_table → Inv (out_free i b)
unfolding out_free
out_free-Inv i b h = Holding-free (update-Holding _ h (WindowInv-rsrc no_resource h.mine))

out_release-Inv : (i : ℕ) (b : Bridge) → Holding i b.window_table → Inv (out_release i b)
unfolding out_release
out_release-Inv i b h =
    out_free-Inv i (record b { resources = remove_first (b.window_table i).rsrc.start b.resources })
      h

out_unmap-Inv : (i va : ℕ) (b : Bridge) → Holding i b.window_table → Inv (out_unmap i va b)
unfolding out_unmap
out_unmap-Inv i va b h = out_release-Inv i (record b { iomaps = remove_first va b.iomaps }) h

-- A window that the chip was set up for is numbered and enabled.
created-WindowInv :
    (i : ℕ) (w : Window) (d : VmeMapping) (old regs : Otrans) (d' : VmeMapping)
    → d.window_num ≡ pos i
    → tsi148_create_window d old ≡ (regs, d', success)
    → WindowInv true i w
    → w.active ≡ false
    → WindowInv true i (record w { desc = d'; active = true })
unfolding round_window
created-WindowInv i w d old regs d' num e v off =
    let c = create-IsCreated d old regs d' e in
    record {
      lock = v.lock;
      counted = v.counted;
      idle = λ q. cc;
      numbered = λ _. ap VmeMapping.window_num c.returned ∙ num;
      enabled = λ _. ap VmeMapping.window_enabled c.returned;
    }

chip_done-Inv :
    (i : ℕ) (d : VmeMapping) (b : Bridge) (r : Otrans × VmeMapping × Rc)
    → tsi148_create_window d (b.otrans i) ≡ r
    → d.window_num ≡ pos i
    → Holding i b.window_table
    → (b.window_table i).active ≡ false
    → Inv (chip_done i b r).0
unfolding chip_done unlock_window
chip_done-Inv i d b (regs, d', success) e num h off =
    Holding-free
      (update-Holding _ h (created-WindowInv i _ d (b.otrans i) regs d' num e h.mine off))
chip_done-Inv i d b (regs, d', failure x) e num h off =
    out_unmap-Inv i d'.kernel_va (record b { otrans = update b.otrans i regs }) h

create_chip-Inv :
    (i : ℕ) (d : VmeMapping) (b : Bridge)
    → d.window_num ≡ pos i
    → Holding i b.window_table
    → (b.window_table i).active ≡ false
    → Inv (create_chip i d b).0
unfolding create_chip
create_chip-Inv i d b num h off =
    chip_done-Inv i d b (tsi148_create_window d (b.otrans i)) refl num h off

create_map-Inv :
    (k : Kernel) (i : ℕ) (d : VmeMapping) (b : Bridge)
    → d.window_num ≡ pos i
    → Holding i b.window_table
    → (b.window_table i).active ≡ false
    → Inv (create_map k i d b).0
unfolding create_map
create_map-Inv k i d b num h off =
    let start = (b.window_table i).rsrc.start in
    if_cases (λ (r : Reply). Inv r.0) (k.ioremap b.calls start d.sizel == 0)
      (λ _. out_release-Inv i (tick b) h) (λ _. create_chip-Inv i _ _ num h off)

-- The window that is being made keeps its flag in each of these stages.
abbrev Idle : ℕ → Bridge → Type 0
Idle i b = Holding i b.window_table × ((b.window_table i).active ≡ false)

put_rsrc-Idle :
    (i : ℕ) (r : Resource) (b : Bridge)
    → Idle i b
    → Idle i (put_window i (record (b.window_table i) { rsrc = r }) b)
put_rsrc-Idle i r b (h, off) = (
  update-Holding _ h (WindowInv-rsrc r h.mine),
  ap Window.active (update_self b.window_table i _) ∙ off,
)

resource_done-Inv :
    (k : Kernel) (i : ℕ) (d : VmeMapping) (b : Bridge) (r : Result ℕ)
    → d.window_num ≡ pos i
    → Idle i b
    → Inv (resource_done k i d b r).0
unfolding resource_done
resource_done-Inv k i d b (err e) num (h, off) = out_free-Inv i b h
resource_done-Inv k i d b (ok start) num idle =
    let r = record ((b.window_table i).rsrc) { start = start } in
    let (h, off) = put_rsrc-Idle i r b idle in create_map-Inv k i d _ num h off

create_resource-Inv :
    (k : Kernel) (i : ℕ) (d : VmeMapping) (b : Bridge)
    → d.window_num ≡ pos i
    → Idle i b
    → Inv (create_resource k i d b).0
unfolding create_resource
create_resource-Inv k i d b num idle =
    let named : Resource = record { name = k.allocated b.calls; start = 0; end = d.sizel } in
    let b1 = put_window i (record (b.window_table i) { rsrc = named }) b in
    resource_done-Inv k i d (tick (tick b1)) (k.bus_resource (suc b.calls) d.sizel) num
      (put_rsrc-Idle i named b idle)

create_locked-Inv :
    (k : Kernel) (i : ℕ) (d : VmeMapping) (b : Bridge)
    → i < 8
    → d.window_num ≡ pos i
    → Inv b
    → Inv (create_locked k i d b).0
unfolding create_locked
create_locked-Inv k i d b hi num v =
    lock_rule (λ (r : Reply). Inv r.0) k i _ _ b hi v
      (λ b1 h.
        if_cases (λ (r : Reply). Inv r.0) (b1.window_table i).active (λ _. Holding-unlock i b1 h)
          (λ off. create_resource-Inv k i d b1 num (h, off)))
      (λ b1 v1. v1)

rounded_num : (d : VmeMapping) → (round_size (align_address d)).window_num ≡ d.window_num
unfolding round_size align_address
rounded_num d = ground arith

-- Creating a window keeps the invariant, on every path.
pub vme_create_window-Inv :
    (k : Kernel) (d : VmeMapping) (b : Bridge) → Inv b → Inv (vme_create_window k d b).0
unfolding vme_create_window
vme_create_window-Inv k d b v = elim (Option-cases (window_index d.window_num)) [
  | inl e ↦ rw (e, vme_create_window) v
  | inr (i, e) ↦
      let (hi, num) = window_index-some d.window_num e in
      rw (e, vme_create_window)
        (if_cases (λ (r : Reply). Inv r.0) (d.sizel == 0) (λ _. v)
          (λ _. create_locked-Inv k i _ b hi (rounded_num d ∙ num) v))
]

destroyed-WindowInv :
    (i : ℕ) (w : Window) (d : VmeMapping)
    → WindowInv true i w
    → w.mappings ≡ []
    → WindowInv true i (record w { active = false; desc = d; rsrc = no_resource })
destroyed-WindowInv i w d v none_left = record {
  lock = v.lock;
  counted = v.counted;
  idle = λ _. none_left;
  numbered = λ e. cc;
  enabled = λ e. cc;
}

all_dropped : (ms : List Mapping) → drop_if (λ _. true) ms ≡ []
all_dropped [] = refl
all_dropped (m ∷ ms) = all_dropped ms

length-eq-zero : (ms : List Mapping) → length ms ≡ 0 → ms ≡ []
length-eq-zero [] e = refl
length-eq-zero (m ∷ ms) e = absurd (omega arith)

free_all-WindowInv :
    (i : ℕ) (w : Window)
    → WindowInv true i w
    → WindowInv true i (free_all w) × ((free_all w).mappings ≡ [])
unfolding free_all
free_all-WindowInv i w v =
    if_cases (λ (w' : Window). WindowInv true i w' × (w'.mappings ≡ [])) (is_positive w.users)
      (λ _.
        (free_mappings-WindowInv (λ _. true) i w v, unfold free_mappings in all_dropped w.mappings))
      (λ e. (v, length-eq-zero w.mappings (ground arith)))

destroy_active-Holding :
    (i : ℕ) (b : Bridge) → Holding i b.window_table → Holding i (destroy_active i b).window_table
unfolding destroy_active
destroy_active-Holding i b h =
    let (v, none_left) = free_all-WindowInv i (b.window_table i) h.mine in
    update-Holding _ h (destroyed-WindowInv i _ _ v none_left)

destroy_locked-Inv :
    (k : Kernel) (i : ℕ) (b : Bridge) → i < 8 → Inv b → Inv (destroy_locked k i b).0
unfolding destroy_locked
destroy_locked-Inv k i b hi v =
    lock_rule (λ (r : Bridge × Rc). Inv r.0) k i _ _ b hi v
      (λ b1 h.
        if_cases (λ (r : Bridge × Rc). Inv r.0) (b1.window_table i).active
          (λ _. Holding-unlock i _ (destroy_active-Holding i b1 h)) (λ _. Holding-unlock i b1 h))
      (λ b1 v1. v1)

-- Destroying a window keeps the invariant, on every path.
pub vme_destroy_window-Inv :
    (k : Kernel) (n : ℤ) (b : Bridge) → Inv b → Inv (vme_destroy_window k n b).0
unfolding vme_destroy_window
vme_destroy_window-Inv k n b v = elim (Option-cases (window_index n)) [
  | inl e ↦ rw (e, vme_destroy_window) v
  | inr (i, e) ↦ rw (e, vme_destroy_window) (destroy_locked-Inv k i b (window_index-some n e).0 v)
]

pub vme_get_window_attr-Inv :
    (k : Kernel) (d : VmeMapping) (b : Bridge) → Inv b → Inv (vme_get_window_attr k d b).0
unfolding vme_get_window_attr
vme_get_window_attr-Inv k d b v = elim (Option-cases (window_index d.window_num)) [
  | inl e ↦ rw (e, vme_get_window_attr) v
  | inr (i, e) ↦
      rw (e, vme_get_window_attr)
        (lock_rule (λ (r : Reply). Inv r.0) k i _ _ b (window_index-some d.window_num e).0 v
          (λ b1 h. Holding-unlock i b1 h) (λ b1 v1. v1))
]
