-- ===== src/Vme/Window/Find.antt =====
-- vmebridge/driver/vme_window.c: finding a window for a mapping, or making one, and giving it back.
use ht_drivers.Base.{
  ℕ, ◌+◌, zero, suc, Bool, false, ◌&&◌, ◌||◌, not, Option, none, some, ◌==◌, ltb, leb,
  if◌then◌else◌, pos, is_zero, add32, sub32, Rc, success, failure, einval, ebusy, erestartsys,
}
use ht_drivers.Vme.Types.{VmeMapping}
use ht_drivers.Vme.Am
use ht_drivers.Vme.Window.State.{
  Window, Bridge, Kernel, with_lock, unlock_window, window_index, num_out_windows,
}
use ht_drivers.Vme.Window.Mappings.{add_mapping, remove_mapping}
use ht_drivers.Vme.Window.Create.{Reply, vme_create_window, vme_destroy_window}

-- The `case` labels of an address space.
abbrev pub in_a16 : ℕ → Bool
in_a16 am = (am == Am.a16_user) || (am == Am.a16_lck) || (am == Am.a16_sup)

abbrev pub in_a24 : ℕ → Bool
in_a24 am =
    (am == Am.a24_user_mblt)
    || (am == Am.a24_user_data_sct)
    || (am == Am.a24_user_prg_sct)
    || (am == Am.a24_user_blt)
    || (am == Am.a24_sup_mblt)
    || (am == Am.a24_sup_data_sct)
    || (am == Am.a24_sup_prg_sct)
    || (am == Am.a24_sup_blt)

abbrev pub in_a32 : ℕ → Bool
in_a32 am =
    (am == Am.a32_lck)
    || (am == Am.a32_user_mblt)
    || (am == Am.a32_user_data_sct)
    || (am == Am.a32_user_prg_sct)
    || (am == Am.a32_user_blt)
    || (am == Am.a32_sup_mblt)
    || (am == Am.a32_sup_data_sct)
    || (am == Am.a32_sup_prg_sct)
    || (am == Am.a32_sup_blt)

abbrev pub in_a40 : ℕ → Bool
in_a40 am = (am == Am.a40_sct) || (am == Am.a40_lck) || (am == Am.a40_blt)

-- The size that a window of the space is made for; 0 where it stays as asked.
unfoldable pub optimal_size : ℕ → ℕ
optimal_size am = if in_a24 am then 0x1000000 else if in_a16 am then 0x10000 else 0

unfoldable pub vme_optimize_window_size : VmeMapping → VmeMapping
unfolding optimal_size
vme_optimize_window_size desc =
    let resize = optimal_size desc.am in
    if resize == 0
    then desc
    else record desc { sizeu = 0; sizel = resize; vme_addru = 0; vme_addrl = 0 }

-- `x & ~0xff…` is zero for x below the power of two.
unfoldable pub vme_mapping_sanity_check : VmeMapping → Rc
vme_mapping_sanity_check m =
    let out_of_range =
      if in_a16 m.am
      then not (m.vme_addru == 0) || not (ltb m.vme_addrl 0x10000)
      else if in_a24 m.am
      then not (m.vme_addru == 0) || not (ltb m.vme_addrl 0x1000000)
      else if in_a32 m.am
      then not (m.vme_addru == 0)
      else if in_a40 m.am
      then not (ltb m.vme_addru 0x100)
      else false in
    if out_of_range then failure einval else success

-- The tests that a window must pass to take the mapping; sums are 32-bit.
unfoldable pub window_fits : VmeMapping → Window → Bool
window_fits m w =
    w.active
    && not (w.desc.window_enabled == 0)
    && (w.desc.vme_addru == 0)
    && (w.desc.sizeu == 0)
    && (w.desc.am == m.am)
    && (w.desc.data_width == m.data_width)
    && leb w.desc.vme_addrl m.vme_addrl
    && leb (add32 m.vme_addrl m.sizel) (add32 w.desc.vme_addrl w.desc.sizel)
    && (not (w.desc.am == Am.v2e6u) || (w.desc.v2esst_mode == m.v2esst_mode))

pub data Search : Type 0 where
  found : ℕ → Search
  exhausted : Search
  stopped : Search

-- The first loop, on the windows from `i` on. A window that is found stays locked.
unfoldable pub search_windows : Kernel → VmeMapping → (n i : ℕ) → Bridge → Bridge × Search
search_windows k m zero i b = (b, exhausted)
search_windows k m (suc n) i b =
    with_lock k i
      (λ b1.
        let rest = search_windows k m n (suc i) (unlock_window i b1) in
        if window_fits m (b1.window_table i) then (b1, found i) else rest)
      (λ b1. (b1, stopped)) b

-- The second loop, which takes no lock.
unfoldable pub first_unused : Bridge → (n i : ℕ) → Option ℕ
first_unused b zero i = none
first_unused b (suc n) i =
    let rest = first_unused b n (suc i) in if (b.window_table i).active then rest else some i

-- The mapping's addresses on window `i`.
unfoldable pub place_mapping : ℕ → Window → VmeMapping → VmeMapping
place_mapping i w m =
    let offset = sub32 m.vme_addrl w.desc.vme_addrl in
    record m {
      kernel_va = w.desc.kernel_va + offset;
      pci_addrl = add32 w.desc.pci_addrl offset;
      window_num = pos i;
    }

unfoldable pub attach : Kernel → ℕ → VmeMapping → ℕ → Bridge → Reply
attach k i m file b =
    let placed = place_mapping i (b.window_table i) m in
    let (b1, rc) = add_mapping k i placed file b in (b1, placed, rc)

-- The window is made; its number is the one that was asked for.
unfoldable pub attach_made : Kernel → ℕ → VmeMapping → ℕ → Reply → Reply
attach_made k i m file (b, wnd, failure e) = (b, m, failure e)
attach_made k i m file (b, wnd, success) = attach k i m file b

-- No window fits: make one, if the caller says so.
unfoldable pub create_for : Kernel → VmeMapping → ℕ → Bridge → Reply
create_for k m file b = elim (first_unused b num_out_windows 0) [
  | none ↦ (b, m, failure ebusy)
  | some i ↦
      attach_made k i m file
        (vme_create_window k (vme_optimize_window_size (record m { window_num = pos i })) b)
]

unfoldable pub unlock_reply : ℕ → Reply → Reply
unlock_reply i (b, m, rc) = (unlock_window i b, m, rc)

-- What follows the search.
unfoldable pub search_done : Kernel → VmeMapping → (force file : ℕ) → Bridge × Search → Reply
unfolding unlock_reply
search_done k m force file (b, stopped) = (b, m, failure erestartsys)
search_done k m force file (b, found i) = unlock_reply i (attach k i m file b)
search_done k m force file (b, exhausted) =
    if force == 0 then (b, m, failure ebusy) else create_for k m file b

unfoldable pub find_window : Kernel → VmeMapping → (force file : ℕ) → Bridge → Reply
find_window k m force file b = search_done k m force file (search_windows k m num_out_windows 0 b)

unfoldable pub sane : Kernel → VmeMapping → (force file : ℕ) → Bridge → Rc → Reply
sane k m force file b (failure e) = (b, m, failure e)
sane k m force file b success = find_window k m force file b

-- `__vme_find_mapping`.
unfoldable pub find_mapping_for : Kernel → VmeMapping → (force file : ℕ) → Bridge → Reply
unfolding sane
find_mapping_for k m force file b = sane k m force file b (vme_mapping_sanity_check m)

unfoldable pub removed : Kernel → ℕ → (force : ℕ) → Bridge × Rc → Bridge × Rc
removed k i force (b, failure e) = (unlock_window i b, failure e)
removed k i force (b, success) =
    if is_zero (b.window_table i).users && not (force == 0)
    then vme_destroy_window k (pos i) (unlock_window i b)
    else (unlock_window i b, success)

unfoldable pub release_locked : Kernel → ℕ → VmeMapping → (force file : ℕ) → Bridge → Bridge × Rc
unfolding removed
release_locked k i desc force file b = removed k i force (remove_mapping i desc file b)

-- `__vme_release_mapping`.
unfoldable pub release_mapping_for : Kernel → VmeMapping → (force file : ℕ) → Bridge → Bridge × Rc
release_mapping_for k desc force file b = elim (window_index desc.window_num) [
  | none ↦ (b, failure einval)
  | some i ↦
      with_lock k i
        (λ b1.
          if (b1.window_table i).active
          then release_locked k i desc force file b1
          else (unlock_window i b1, failure einval))
        (λ b1. (b1, failure erestartsys)) b
]

-- The entry points of other drivers, which have no file.
unfoldable pub vme_find_mapping : Kernel → VmeMapping → ℕ → Bridge → Reply
vme_find_mapping k m force b = find_mapping_for k m force 0 b

unfoldable pub vme_release_mapping : Kernel → VmeMapping → ℕ → Bridge → Bridge × Rc
vme_release_mapping k desc force b = release_mapping_for k desc force 0 b
