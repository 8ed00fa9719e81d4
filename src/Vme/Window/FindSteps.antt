-- ===== src/Vme/Window/FindSteps.antt =====
-- Finding and releasing a mapping keep the invariant.
use ht_drivers.Base.{
  ℕ, suc, zero, ◌+◌, ◌<◌, ◌≤◌, ◌≡◌, refl, ap, ◌∙◌, true, inl, inr, some, arith, pos, Rc, success,
  failure, Errno, Result, ok, err, Option-cases, if_cases, ◌==◌,
}
use ht_drivers.Vme.Types.{VmeMapping}
use ht_drivers.Vme.Chip.Window.{Otrans, tsi148_create_window}
use ht_drivers.Vme.Window.State.{
  Window, Bridge, Kernel, Resource, tick, put_window, unlock_window, window_index,
}
use ht_drivers.Vme.Window.Create.{
  Reply, create_chip, chip_done, create_map, resource_done, create_resource, create_locked,
  vme_create_window,
}
use ht_drivers.Vme.Window.Find.{
  vme_mapping_sanity_check, window_fits, Search, found, exhausted, stopped, search_windows,
  first_unused, attach, attach_made, search_done, sane, removed, create_for, find_window,
  find_mapping_for, release_locked, release_mapping_for, vme_optimize_window_size,
}
use ht_drivers.Vme.Window.Invariant.{
  Inv, Holding, window_index-some, Holding-unlock, lock_rule, lock_cases,
}
use ht_drivers.Vme.Window.Steps.{add_mapping-Holding, add_mapping-Inv, remove_mapping-Holding}
use ht_drivers.Vme.Window.CreateSteps.{vme_create_window-Inv, vme_destroy_window-Inv}

-- A window that is reported as found is locked and fits; else no mutex is held.
pub data Searched (m : VmeMapping) : Bridge × Search → Type 0 where
  hit :
      {b : Bridge} {i : ℕ}
      → Holding i b.window_table
      → window_fits m (b.window_table i) ≡ true
      → Searched m (b, found i)
  miss : {b : Bridge} → Inv b → Searched m (b, exhausted)
  signal : {b : Bridge} → Inv b → Searched m (b, stopped)

search-Searched :
    (k : Kernel) (m : VmeMapping) (n i : ℕ) (b : Bridge)
    → i + n ≤ 8
    → Inv b
    → Searched m (search_windows k m n i b)
unfolding search_windows
search-Searched k m zero i b le v = miss v
search-Searched k m (suc n) i b le v =
    lock_rule (Searched m) k i _ _ b (omega arith) v
      (λ b1 h.
        if_cases (Searched m) (window_fits m (b1.window_table i)) (λ fits. hit h fits)
          (λ _.
            search-Searched k m n (suc i) (unlock_window i b1) (omega arith)
              (Holding-unlock i b1 h)))
      (λ b1 v1. signal v1)

fits-active : (m : VmeMapping) (w : Window) → window_fits m w ≡ true → w.active ≡ true
unfolding window_fits
fits-active m w h = ground arith

first_unused-lt : (b : Bridge) (n i : ℕ) {j : ℕ} → first_unused b n i ≡ some j → i + n ≤ 8 → j < 8
unfolding first_unused
first_unused-lt b zero i h le = cc
first_unused-lt b (suc n) i {j} h le = ground (arith, first_unused-lt b n (suc i) {j = j})

-- A creation that succeeds leaves window `i` in use.
record Made (i : ℕ) (r : Reply) : Type 0 where
  live : r.2 ≡ success → (r.0.window_table i).active ≡ true

failed-Made : (i : ℕ) (b : Bridge) (d : VmeMapping) (x : Errno) → Made i (b, d, failure x)
failed-Made i b d x = record { live = λ e. cc }

chip_done-Made : (i : ℕ) (b : Bridge) (r : Otrans × VmeMapping × Rc) → Made i (chip_done i b r)
unfolding chip_done unlock_window
chip_done-Made i b (regs, d, success) = record { live = λ e. ground arith }
chip_done-Made i b (regs, d, failure x) = failed-Made i _ _ x

create_chip-Made : (i : ℕ) (d : VmeMapping) (b : Bridge) → Made i (create_chip i d b)
unfolding create_chip
create_chip-Made i d b = chip_done-Made i b (tsi148_create_window d (b.otrans i))

create_map-Made : (k : Kernel) (i : ℕ) (d : VmeMapping) (b : Bridge) → Made i (create_map k i d b)
unfolding create_map
create_map-Made k i d b =
    if_cases (Made i) (k.ioremap b.calls (b.window_table i).rsrc.start d.sizel == 0)
      (λ _. failed-Made i _ _ _) (λ _. create_chip-Made i _ _)

resource_done-Made :
    (k : Kernel) (i : ℕ) (d : VmeMapping) (b : Bridge) (r : Result ℕ)
    → Made i (resource_done k i d b r)
unfolding resource_done
resource_done-Made k i d b (err x) = failed-Made i _ _ _
resource_done-Made k i d b (ok start) = create_map-Made k i d _

create_resource-Made :
    (k : Kernel) (i : ℕ) (d : VmeMapping) (b : Bridge) → Made i (create_resource k i d b)
unfolding create_resource
create_resource-Made k i d b =
    let named : Resource = record { name = k.allocated b.calls; start = 0; end = d.sizel } in
    resource_done-Made k i d
      (tick (tick (put_window i (record (b.window_table i) { rsrc = named }) b)))
      (k.bus_resource (suc b.calls) d.sizel)

create-Made :
    (k : Kernel) (i : ℕ) (d : VmeMapping) (b : Bridge)
    → window_index d.window_num ≡ some i
    → Made i (vme_create_window k d b)
unfolding vme_create_window create_locked
create-Made k i d b e =
    let b1 = put_window i (record (b.window_table i) { lock = true }) (tick b) in
    rw (e, vme_create_window)
      (if_cases (Made i) (d.sizel == 0) (λ _. failed-Made i _ _ _)
        (λ _.
          lock_cases (Made i) k i _ _ b
            (λ _.
              if_cases (Made i) (b1.window_table i).active (λ _. failed-Made i _ _ _)
                (λ _. create_resource-Made k i _ b1))
            (failed-Made i _ _ _)))

attach-Inv :
    (k : Kernel) (i : ℕ) (m : VmeMapping) (file : ℕ) (b : Bridge)
    → i < 8
    → (b.window_table i).active ≡ true
    → Inv b
    → Inv (attach k i m file b).0
unfolding attach
attach-Inv k i m file b hi live v = add_mapping-Inv k i _ file b hi live v

optimized_num : (m : VmeMapping) → (vme_optimize_window_size m).window_num ≡ m.window_num
unfolding vme_optimize_window_size
optimized_num m = ground arith

attach_made-Inv :
    (k : Kernel) (i : ℕ) (m : VmeMapping) (file : ℕ) (r : Reply)
    → i < 8
    → Inv r.0
    → Made i r
    → Inv (attach_made k i m file r).0
unfolding attach_made
attach_made-Inv k i m file (b, wnd, success) hi v made =
    attach-Inv k i m file b hi (made.live refl) v
attach_made-Inv k i m file (b, wnd, failure e) hi v made = v

window_index-pos : {i : ℕ} → i < 8 → window_index (pos i) ≡ some i
window_index-pos h = ground arith

create_for-Inv :
    (k : Kernel) (m : VmeMapping) (file : ℕ) (b : Bridge) → Inv b → Inv (create_for k m file b).0
unfolding create_for
create_for-Inv k m file b v = elim (Option-cases (first_unused b 8 0)) [
  | inl e ↦ rw (e, create_for) v
  | inr (i, e) ↦
      let wnd = vme_optimize_window_size (record m { window_num = pos i }) in
      let hi = first_unused-lt b 8 0 e (omega arith) in
      let num = ap window_index (optimized_num (record m { window_num = pos i })) in
      rw (e, create_for)
        (attach_made-Inv k i m file (vme_create_window k wnd b) hi (vme_create_window-Inv k wnd b v)
          (create-Made k i wnd b (num ∙ window_index-pos hi)))
]

search_done-Inv :
    (k : Kernel) (m : VmeMapping) (force file : ℕ) {r : Bridge × Search}
    → Searched m r
    → Inv (search_done k m force file r).0
unfolding search_done attach
search_done-Inv k m force file (hit {b} {i} h fits) =
    Holding-unlock i _ (add_mapping-Holding k i _ file b (fits-active m (b.window_table i) fits) h)
search_done-Inv k m force file (miss {b} v) =
    if_cases (λ (r : Reply). Inv r.0) (force == 0) (λ _. v) (λ _. create_for-Inv k m file b v)
search_done-Inv k m force file (signal v) = v

-- Finding a mapping keeps the invariant, on every path.
pub find_mapping_for-Inv :
    (k : Kernel) (m : VmeMapping) (force file : ℕ) (b : Bridge)
    → Inv b
    → Inv (find_mapping_for k m force file b).0
unfolding find_mapping_for find_window
find_mapping_for-Inv k m force file b v =
    elim (vme_mapping_sanity_check m) as (λ c. Inv (sane k m force file b c).0) [
      | failure e ↦ v
      | success ↦ search_done-Inv k m force file (search-Searched k m 8 0 b (omega arith) v)
    ]

removed-Inv :
    (k : Kernel) (i force : ℕ) (r : Bridge × Rc)
    → Holding i r.0.window_table
    → Inv (removed k i force r).0
unfolding removed
removed-Inv k i force (b, success) h =
    if_cases (λ (r : Bridge × Rc). Inv r.0) _
      (λ _. vme_destroy_window-Inv k (pos i) (unlock_window i b) (Holding-unlock i b h))
      (λ _. Holding-unlock i b h)
removed-Inv k i force (b, failure e) h = Holding-unlock i b h

-- Releasing a mapping keeps the invariant, on every path.
pub release_mapping_for-Inv :
    (k : Kernel) (d : VmeMapping) (force file : ℕ) (b : Bridge)
    → Inv b
    → Inv (release_mapping_for k d force file b).0
unfolding release_mapping_for release_locked
release_mapping_for-Inv k d force file b v = elim (Option-cases (window_index d.window_num)) [
  | inl e ↦ rw (e, release_mapping_for) v
  | inr (i, e) ↦
      rw (e, release_mapping_for)
        (lock_rule (λ (r : Bridge × Rc). Inv r.0) k i _ _ b (window_index-some d.window_num e).0 v
          (λ b1 h.
            if_cases (λ (r : Bridge × Rc). Inv r.0) (b1.window_table i).active
              (λ _. removed-Inv k i force _ (remove_mapping-Holding i d file b1 h))
              (λ _. Holding-unlock i b1 h))
          (λ b1 v1. v1))
]
