-- ===== src/Vme/Window/Ioctl.antt =====
-- vmebridge/driver/vme_window.c: the ioctl and mmap entry points of the window device.
-- A user buffer is a value; what is copied back to it is part of the answer. PAGE_SIZE is 4096.
use ht_drivers.Base.{
  ℕ, ◌-◌, ◌*◌, ◌%◌, zero, suc, Bool, true, false, ◌&&◌, ◌||◌, ◌==◌, ltb, List, [], ◌∷◌,
  if◌then◌else◌, ℤ, add32, sub32, Rc, success, failure, einval, efault, enoioctlcmd, erestartsys,
}
use ht_drivers.Vme.Types.{VmeMapping}
use ht_drivers.Vme.Berr.{BusErrorDesc, bus_error_chk, bus_error_check_clear}
use ht_drivers.Vme.Window.State.{
  Bridge, Kernel, Mapping, tick, with_lock, unlock_window, num_out_windows,
}
use ht_drivers.Vme.Window.Create.{Reply, vme_get_window_attr, vme_create_window, vme_destroy_window}
use ht_drivers.Vme.Window.Find.{find_mapping_for, release_mapping_for}

-- The commands, each with the user's buffer where the driver reads it.
pub data Command : Type 0 where
  get_window_attr create_window find_mapping release_mapping : VmeMapping → Command
  destroy_window : ℤ → Command
  get_create_on_find_fail get_destroy_on_remove get_bus_error : Command
  set_create_on_find_fail set_destroy_on_remove : ℕ → Command
  check_clear_bus_error : BusErrorDesc → Command
  unknown : Command

-- What is written to the user's buffer.
pub data Copied : Type 0 where
  nothing : Copied
  mapping : VmeMapping → Copied
  number : ℕ → Copied
  bus_error : BusErrorDesc → Copied

abbrev pub Answer : Type 0
Answer = Bridge × Copied × Rc

-- `copy_from_user` and `get_user`.
unfoldable pub from_user : Kernel → (Bridge → Answer) → Bridge → Answer
from_user k next b =
    if k.user_copied b.calls then next (tick b) else (tick b, nothing, failure efault)

-- `copy_to_user` and `put_user`.
unfoldable pub to_user : Kernel → Copied → Bridge → Answer
to_user k c b =
    if k.user_copied b.calls then (tick b, c, success) else (tick b, nothing, failure efault)

-- The descriptor goes back if the call succeeded.
unfoldable pub copy_back : Kernel → Reply → Answer
copy_back k (b, desc, success) = to_user k (mapping desc) b
copy_back k (b, desc, failure e) = (b, nothing, failure e)

abbrev no_copy : Bridge × Rc → Answer
no_copy (b, rc) = (b, nothing, rc)

abbrev flag : Bool → ℕ
flag true = 1
flag false = 0

unfoldable pub check_clear_ioctl : Kernel → BusErrorDesc → Bridge → Answer
check_clear_ioctl k d b =
    let (verr, cleared) = bus_error_check_clear d.error b.verr in
    to_user k (bus_error (record d { valid = cleared })) (record b { verr = verr })

unfoldable pub vme_window_ioctl : Kernel → (file : ℕ) → Command → Bridge → Answer
vme_window_ioctl k file (get_window_attr d) b =
    from_user k (λ b. copy_back k (vme_get_window_attr k d b)) b
vme_window_ioctl k file (create_window d) b =
    from_user k (λ b. copy_back k (vme_create_window k d b)) b
vme_window_ioctl k file (destroy_window n) b =
    from_user k (λ b. no_copy (vme_destroy_window k n b)) b
vme_window_ioctl k file (find_mapping d) b =
    from_user k (λ b. copy_back k (find_mapping_for k d b.vme_create_on_find_fail file b)) b
vme_window_ioctl k file (release_mapping d) b =
    from_user k (λ b. no_copy (release_mapping_for k d b.vme_destroy_on_remove file b)) b
vme_window_ioctl k file get_create_on_find_fail b = to_user k (number b.vme_create_on_find_fail) b
vme_window_ioctl k file (set_create_on_find_fail n) b =
    from_user k (λ b. (record b { vme_create_on_find_fail = n }, nothing, success)) b
vme_window_ioctl k file get_destroy_on_remove b = to_user k (number b.vme_destroy_on_remove) b
vme_window_ioctl k file (set_destroy_on_remove n) b =
    from_user k (λ b. (record b { vme_destroy_on_remove = n }, nothing, success)) b
vme_window_ioctl k file get_bus_error b =
    let (verr, seen) = bus_error_chk true b.verr in
    to_user k (number (flag seen)) (record b { verr = verr })
vme_window_ioctl k file (check_clear_bus_error d) b = from_user k (check_clear_ioctl k d) b
vme_window_ioctl k file unknown b = (b, nothing, failure enoioctlcmd)

abbrev pub page_size : ℕ
page_size = 4096

-- `x & PAGE_MASK`.
abbrev pub page_start : ℕ → ℕ
page_start x = x - x % page_size

-- Whether a region is the whole pages of a mapping, and inside the window; sums are 32-bit.
unfoldable pub check_mmap_region : VmeMapping → VmeMapping → (addr size : ℕ) → Bool
check_mmap_region window m addr size =
    let end = add32 m.pci_addrl m.sizel in
    let aligned_end = if end % page_size == 0 then end else add32 (page_start end) page_size in
    if ltb addr window.pci_addrl || ltb (add32 window.pci_addrl window.sizel) (add32 addr size)
    then false
    else (page_start m.pci_addrl == addr) && (aligned_end == add32 addr size)

unfoldable pub find_region : VmeMapping → (file addr size : ℕ) → List Mapping → Bool
find_region window file addr size [] = false
find_region window file addr size (m ∷ ms) =
    let rest = find_region window file addr size ms in
    if (m.client.file == file) && check_mmap_region window m.desc addr size then true else rest

-- `struct vm_area_struct`; the kernel has `vm_start` not after `vm_end`.
pub record VmArea : Type 0 where
  pub vm_pgoff : ℕ
  pub vm_start : ℕ
  pub vm_end : ℕ

-- The page and the length go to the kernel as they are, `unsigned long`s.
unfoldable pub remap_pfn_range : Kernel → (file : ℕ) → VmArea → Bridge → Bridge × Rc
remap_pfn_range k file vma b = (
  record (tick b) {
    remaps =
        record { file = file; page = vma.vm_pgoff; size = vma.vm_end - vma.vm_start } ∷ b.remaps;
  },
  k.remap_pfn_range b.calls,
)

-- The loop of `vme_window_mmap` on the windows from `i` on, with the address and the size of 32 bits.
unfoldable pub mmap_windows :
    Kernel → (file : ℕ) → VmArea → (addr size : ℕ) → (n i : ℕ) → Bridge → Bridge × Rc
mmap_windows k file vma addr size zero i b = (b, failure einval)
mmap_windows k file vma addr size (suc n) i b =
    with_lock k i
      (λ b1.
        let w = b1.window_table i in
        let rest = mmap_windows k file vma addr size n (suc i) (unlock_window i b1) in
        let (b2, rc) = remap_pfn_range k file vma b1 in
        if w.active && find_region w.desc file addr size w.mappings
        then (unlock_window i b2, rc)
        else rest)
      (λ b1. (b1, failure erestartsys)) b

unfoldable pub vme_window_mmap : Kernel → (file : ℕ) → VmArea → Bridge → Bridge × Rc
vme_window_mmap k file vma b =
    mmap_windows k file vma (vma.vm_pgoff * page_size % 4294967296)
      (sub32 (vma.vm_end % 4294967296) (vma.vm_start % 4294967296)) num_out_windows 0 b
