-- ===== src/Vme/Window/Create.antt =====
-- vmebridge/driver/vme_window.c: creating and destroying hardware windows.
use ht_drivers.Base.{
  ℕ, true, false, none, some, ◌==◌, if◌then◌else◌, ℤ, pos, [], add32, sub32, is_positive, low16,
  clear16, update, remove_first, Rc, success, failure, Result, ok, err, einval, enomem, ebusy,
  erestartsys, ◌∷◌, zero, suc,
}
use ht_drivers.Vme.Types.{VmeMapping}
use ht_drivers.Vme.Chip.Window.{
  Otrans, tsi148_create_window, tsi148_remove_window, tsi148_get_window_attr,
}
use ht_drivers.Vme.Window.State.{
  Window, Bridge, Kernel, Resource, no_resource, tick, put_window, with_lock, unlock_window,
  window_index, num_out_windows,
}
use ht_drivers.Vme.Window.Mappings.{free_mappings}

abbrev pub Reply : Type 0
Reply = Bridge × VmeMapping × Rc

unfoldable pub vme_get_window_attr : Kernel → VmeMapping → Bridge → Reply
vme_get_window_attr k desc b = elim (window_index desc.window_num) [
  | none ↦ (b, desc, failure einval)
  | some i ↦
      with_lock k i
        (λ b1. (
          unlock_window i b1,
          tsi148_get_window_attr (b1.otrans i) (b1.window_table i).desc,
          success,
        ))
        (λ b1. (b1, desc, failure erestartsys)) b
]

-- The address is rounded down to 64 KB. The size grows by what the address has lost, read off the
-- descriptor after the address was written there.
unfoldable pub align_address : VmeMapping → VmeMapping
align_address desc =
    let lowaddr = clear16 desc.vme_addrl in
    let moved = record desc { vme_addrl = lowaddr } in
    if low16 desc.vme_addrl == 0
    then desc
    else record moved { sizel = add32 moved.sizel (sub32 moved.vme_addrl lowaddr) }

unfoldable pub round_size : VmeMapping → VmeMapping
round_size desc =
    if low16 desc.sizel == 0
    then desc
    else record desc { sizel = clear16 (add32 desc.sizel 0x10000) }

-- The labels that undo a creation. Each falls through to the one above it.
unfoldable pub out_free : ℕ → Bridge → Bridge
unfolding unlock_window
out_free i b = unlock_window i (put_window i (record (b.window_table i) { rsrc = no_resource }) b)

unfoldable pub out_release : ℕ → Bridge → Bridge
unfolding out_free
out_release i b =
    out_free i (record b { resources = remove_first (b.window_table i).rsrc.start b.resources })

unfoldable pub out_unmap : ℕ → ℕ → Bridge → Bridge
unfolding out_release
out_unmap i kernel_va b = out_release i (record b { iomaps = remove_first kernel_va b.iomaps })

-- The chip is set up last, and then the window is in use.
unfoldable pub chip_done : ℕ → Bridge → Otrans × VmeMapping × Rc → Reply
chip_done i b (regs, desc, failure e) =
    (out_unmap i desc.kernel_va (record b { otrans = update b.otrans i regs }), desc, failure e)
chip_done i b (regs, desc, success) = (
  unlock_window i (
      put_window i (record (b.window_table i) { desc = desc; active = true })
        (record b { otrans = update b.otrans i regs })),
  desc,
  success,
)

unfoldable pub create_chip : ℕ → VmeMapping → Bridge → Reply
unfolding chip_done
create_chip i desc b = chip_done i b (tsi148_create_window desc (b.otrans i))

unfoldable pub create_map : Kernel → ℕ → VmeMapping → Bridge → Reply
create_map k i desc b =
    let start = (b.window_table i).rsrc.start in
    let va = k.ioremap b.calls start desc.sizel in
    let mapped = record desc { kernel_va = va } in
    if va == 0
    then (out_release i (tick b), mapped, failure enomem)
    else create_chip i (record mapped { pci_addrl = start })
        (record (tick b) { iomaps = va ∷ b.iomaps })

unfoldable pub resource_done : Kernel → ℕ → VmeMapping → Bridge → Result ℕ → Reply
resource_done k i desc b (err e) = (out_free i b, desc, failure e)
resource_done k i desc b (ok start) =
    let w = b.window_table i in
    create_map k i desc (
      put_window i (record w { rsrc = record (w.rsrc) { start = start } })
        (record b { resources = start ∷ b.resources }))

-- The name of the resource may fail to be allocated, which is not fatal.
unfoldable pub create_resource : Kernel → ℕ → VmeMapping → Bridge → Reply
unfolding resource_done
create_resource k i desc b =
    let w = b.window_table i in
    let named : Resource = record { name = k.allocated b.calls; start = 0; end = desc.sizel } in
    let b1 = tick (put_window i (record w { rsrc = named }) b) in
    resource_done k i desc (tick b1) (k.bus_resource b1.calls desc.sizel)

unfoldable pub create_locked : Kernel → ℕ → VmeMapping → Bridge → Reply
create_locked k i desc b =
    with_lock k i
      (λ b1.
        if (b1.window_table i).active
        then (unlock_window i b1, desc, failure ebusy)
        else create_resource k i desc b1)
      (λ b1. (b1, desc, failure erestartsys)) b

unfoldable pub vme_create_window : Kernel → VmeMapping → Bridge → Reply
vme_create_window k desc b = elim (window_index desc.window_num) [
  | none ↦ (b, desc, failure einval)
  | some i ↦
      if desc.sizel == 0
      then (b, desc, failure einval)
      else create_locked k i (round_size (align_address desc)) b
]

unfoldable pub free_all : Window → Window
unfolding free_mappings
free_all w = if is_positive w.users then free_mappings (λ _. true) w else w

unfoldable pub destroy_active : ℕ → Bridge → Bridge
unfolding tsi148_remove_window
destroy_active i b =
    let w = free_all (b.window_table i) in
    let (regs, desc') = tsi148_remove_window (record (w.desc) { kernel_va = 0 }) in
    put_window i (record w { active = false; desc = desc'; rsrc = no_resource })
      (record b {
        iomaps = remove_first w.desc.kernel_va b.iomaps;
        otrans = update b.otrans i regs;
        resources = remove_first w.rsrc.start b.resources;
      })

unfoldable pub destroy_locked : Kernel → ℕ → Bridge → Bridge × Rc
destroy_locked k i b =
    with_lock k i
      (λ b1.
        if (b1.window_table i).active
        then (unlock_window i (destroy_active i b1), success)
        else (unlock_window i b1, failure einval))
      (λ b1. (b1, failure erestartsys)) b

unfoldable pub vme_destroy_window : Kernel → ℤ → Bridge → Bridge × Rc
vme_destroy_window k n b = elim (window_index n) [
  | none ↦ (b, failure einval)
  | some i ↦ destroy_locked k i b
]

-- `vme_window_init` on the windows from `i` on.
unfoldable pub init_windows : (n i : ℕ) → (ℕ → Window) → ℕ → Window
init_windows zero i table = table
init_windows (suc n) i table =
    init_windows n (suc i)
      (update table i (record (table i) { mappings = []; lock = false; active = false }))

unfoldable pub vme_window_init : Bridge → Bridge
vme_window_init b = record b { window_table = init_windows num_out_windows 0 b.window_table }

-- `vme_window_exit` on the windows from `i` on.
unfoldable pub exit_windows : Kernel → (n i : ℕ) → Bridge → Bridge
exit_windows k zero i b = b
exit_windows k (suc n) i b =
    exit_windows k n (suc i)
      (if (b.window_table i).active then (vme_destroy_window k (pos i) b).0 else b)

unfoldable pub vme_window_exit : Kernel → Bridge → Bridge
vme_window_exit k b = exit_windows k num_out_windows 0 b
