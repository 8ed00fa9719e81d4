-- ===== src/Vme/Window/Mappings.antt =====
-- vmebridge/driver/vme_window.c: the list of mappings on a window.
use ht_drivers.Base.{
  ℕ, zero, suc, ◌%◌, ◌^◌, erestartsys, Bool, ◌&&◌, ◌||◌, List, [], ◌∷◌, ◌++◌, Option, none, some,
  ◌==◌, if◌then◌else◌, ℤ, incr, decr, Rc, success, failure, einval, enomem, drop_if,
}
use ht_drivers.Vme.Types.{VmeMapping}
use ht_drivers.Vme.Window.State.{
  Window, Bridge, Kernel, Mapping, TaskInfo, tick, put_window, with_lock, unlock_window,
  num_out_windows,
}

-- Fills in the owner; a kernel client has no file.
unfoldable pub task_info : Kernel → ℕ → TaskInfo
task_info k file =
    if file == 0
    then record { pid_nr = 0; name = "kernel"; file = 0 }
    else record { pid_nr = k.current_pid; name = k.current_comm; file = file }

unfoldable pub new_mapping : Kernel → VmeMapping → ℕ → Mapping
unfolding task_info
new_mapping k desc file = record { desc = desc; client = task_info k file }

-- `window` is the entry `i` of the table.
unfoldable pub add_mapping : Kernel → ℕ → VmeMapping → ℕ → Bridge → Bridge × Rc
add_mapping k i desc file b =
    let w = b.window_table i in
    if k.allocated b.calls
    then (
      put_window i
          (record w { mappings = w.mappings ++ new_mapping k desc file ∷ []; users = incr w.users })
          (tick b),
      success,
    )
    else (tick b, failure enomem)

-- The test of `remove_mapping`: VME address, size, virtual address, and the owner if one is named.
unfoldable pub same_mapping : VmeMapping → ℕ → Mapping → Bool
same_mapping desc file m =
    (m.desc.vme_addru == desc.vme_addru)
    && (m.desc.vme_addrl == desc.vme_addrl)
    && (m.desc.sizeu == desc.sizeu)
    && (m.desc.sizel == desc.sizel)
    && (m.desc.kernel_va == desc.kernel_va)
    && ((file == 0) || (m.client.file == file))

-- The list without its first mapping that passes the test; `none` if none does.
unfoldable pub unlink_first : (Mapping → Bool) → List Mapping → Option (List Mapping)
unlink_first p [] = none
unlink_first p (m ∷ ms) =
    let rest = unlink_first p ms in
    if p m then some ms else elim rest [ none ↦ none | some ms' ↦ some (m ∷ ms') ]

unfoldable pub remove_mapping : ℕ → VmeMapping → ℕ → Bridge → Bridge × Rc
unfolding unlink_first same_mapping
remove_mapping i desc file b =
    let w = b.window_table i in
    elim (unlink_first (same_mapping desc file) w.mappings) [
      | none ↦ (b, failure einval)
      | some rest ↦ (put_window i (record w { mappings = rest; users = decr w.users }) b, success)
    ]

-- The loops that free every mapping that passes a test, each with `users--`.
unfoldable pub users_after : (Mapping → Bool) → List Mapping → ℤ → ℤ
users_after p [] users = users
users_after p (m ∷ ms) users = users_after p ms (if p m then decr users else users)

unfoldable pub free_mappings : (Mapping → Bool) → Window → Window
unfolding users_after
free_mappings p w = record w {
  mappings = drop_if p w.mappings;
  users = users_after p w.mappings w.users;
}

unfoldable pub free_owned : (file i : ℕ) → Bridge → Bridge
unfolding free_mappings
free_owned file i b =
    let w = b.window_table i in
    if w.active then put_window i (free_mappings (λ m. m.client.file == file) w) b else b

-- `vme_window_release` on the windows from `i` on, `n` of them: a file that is closed gives up its
-- mappings. A signal ends it early.
unfoldable pub release_windows : Kernel → ℕ → (n i : ℕ) → Bridge → Bridge × Rc
unfolding free_owned
release_windows k file zero i b = (b, success)
release_windows k file (suc n) i b =
    with_lock k i (λ b1. release_windows k file n (suc i) (unlock_window i (free_owned file i b1)))
      (λ b1. (b1, failure erestartsys)) b

unfoldable pub vme_window_release : Kernel → ℕ → Bridge → Bridge × Rc
unfolding release_windows
vme_window_release k file b = release_windows k file num_out_windows 0 b

-- The address of the first mapping found at a logical address, on the windows from `i` on.
unfoldable pub find_at : ℕ → List Mapping → Option VmeMapping
find_at logaddr [] = none
find_at logaddr (m ∷ ms) =
    if m.desc.kernel_va % 2 ^ 32 == logaddr then some m.desc else find_at logaddr ms

unfoldable pub find_from_addr : Kernel → ℕ → (n i : ℕ) → Bridge → Bridge × Option VmeMapping
find_from_addr k logaddr zero i b = (b, none)
find_from_addr k logaddr (suc n) i b =
    with_lock k i
      (λ b1. elim (find_at logaddr (b1.window_table i).mappings) [
        | none ↦ find_from_addr k logaddr n (suc i) (unlock_window i b1)
        | some d ↦ (unlock_window i b1, some d)
      ])
      (λ b1. (b1, none)) b

unfoldable pub find_vme_mapping_from_addr : Kernel → ℕ → Bridge → Bridge × Option VmeMapping
unfolding find_from_addr find_at
find_vme_mapping_from_addr k logaddr b = find_from_addr k logaddr num_out_windows 0 b
