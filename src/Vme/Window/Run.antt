-- ===== src/Vme/Window/Run.antt =====
-- Sequences of calls of the window driver: from initialisation on, in any order, with any answers of
-- the kernel and any interruptions by signals.
use ht_drivers.Base.{
  ℕ, suc, zero, ◌+◌, ◌<◌, ◌≤◌, ◌≡◌, refl, true, false, List, [], ◌∷◌, Option, none, some, arith, ℤ,
  pos, Rc, success, failure, if_cases, ◌==◌, update,
}
use ht_drivers.Vme.Types.{VmeMapping}
use ht_drivers.Vme.Window.State.{Window, Bridge, Kernel, tick, unlock_window}
use ht_drivers.Vme.Berr.{BusErrorDesc, bus_error_chk, bus_error_check_clear}
use ht_drivers.Vme.Window.Mappings.{
  vme_window_release, find_vme_mapping_from_addr, find_from_addr, find_at,
}
use ht_drivers.Vme.Window.Create.{
  Reply, vme_get_window_attr, vme_create_window, vme_destroy_window, vme_window_init, init_windows,
  vme_window_exit, exit_windows,
}
use ht_drivers.Vme.Window.Find.{vme_find_mapping, vme_release_mapping}
use ht_drivers.Vme.Window.Ioctl.{
  Command, get_window_attr, create_window, find_mapping, release_mapping, destroy_window,
  get_create_on_find_fail, get_destroy_on_remove, get_bus_error, set_create_on_find_fail,
  set_destroy_on_remove, check_clear_bus_error, unknown, Copied, Answer, from_user, to_user,
  copy_back, check_clear_ioctl, vme_window_ioctl, VmArea, vme_window_mmap, mmap_windows,
  remap_pfn_range,
}
use ht_drivers.Vme.Window.Invariant.{WindowInv, Inv, Holding-unlock, lock_rule}
use ht_drivers.Vme.Window.Steps.{release_windows-Inv}
use ht_drivers.Vme.Window.CreateSteps.{
  vme_create_window-Inv, vme_destroy_window-Inv, vme_get_window_attr-Inv,
}
use ht_drivers.Vme.Window.FindSteps.{find_mapping_for-Inv, release_mapping_for-Inv}

to_user-Inv : (k : Kernel) (c : Copied) (b : Bridge) → Inv b → Inv (to_user k c b).0
unfolding to_user
to_user-Inv k c b v = if_cases (λ (a : Answer). Inv a.0) (k.user_copied b.calls) (λ _. v) (λ _. v)

copy_back-Inv : (k : Kernel) (r : Reply) → Inv r.0 → Inv (copy_back k r).0
unfolding copy_back
copy_back-Inv k (b, d, success) v = to_user-Inv k _ b v
copy_back-Inv k (b, d, failure e) v = v

from_user-Inv :
    (k : Kernel) (next : Bridge → Answer) (b : Bridge)
    → Inv b
    → ((c : Bridge) → Inv c → Inv (next c).0)
    → Inv (from_user k next b).0
unfolding from_user
from_user-Inv k next b v keep =
    if_cases (λ (a : Answer). Inv a.0) (k.user_copied b.calls) (λ _. keep (tick b) v) (λ _. v)

check_clear_ioctl-Inv :
    (k : Kernel) (d : BusErrorDesc) (b : Bridge) → Inv b → Inv (check_clear_ioctl k d b).0
unfolding check_clear_ioctl
check_clear_ioctl-Inv k d b v =
    to_user-Inv k _ (record b { verr = (bus_error_check_clear d.error b.verr).0 }) v

vme_window_ioctl-Inv :
    (k : Kernel) (file : ℕ) (c : Command) (b : Bridge) → Inv b → Inv (vme_window_ioctl k file c b).0
unfolding vme_window_ioctl
vme_window_ioctl-Inv k file (get_window_attr d) b v =
    from_user-Inv k _ b v λ c w. copy_back-Inv k _ (vme_get_window_attr-Inv k d c w)
vme_window_ioctl-Inv k file (create_window d) b v =
    from_user-Inv k _ b v λ c w. copy_back-Inv k _ (vme_create_window-Inv k d c w)
vme_window_ioctl-Inv k file (destroy_window n) b v =
    from_user-Inv k _ b v λ c w. vme_destroy_window-Inv k n c w
vme_window_ioctl-Inv k file (find_mapping d) b v =
    from_user-Inv k _ b v
      λ c w. copy_back-Inv k _ (find_mapping_for-Inv k d c.vme_create_on_find_fail file c w)
vme_window_ioctl-Inv k file (release_mapping d) b v =
    from_user-Inv k _ b v λ c w. release_mapping_for-Inv k d c.vme_destroy_on_remove file c w
vme_window_ioctl-Inv k file get_create_on_find_fail b v = to_user-Inv k _ b v
vme_window_ioctl-Inv k file (set_create_on_find_fail n) b v = from_user-Inv k _ b v λ c w. w
vme_window_ioctl-Inv k file get_destroy_on_remove b v = to_user-Inv k _ b v
vme_window_ioctl-Inv k file (set_destroy_on_remove n) b v = from_user-Inv k _ b v λ c w. w
vme_window_ioctl-Inv k file get_bus_error b v =
    to_user-Inv k _ (record b { verr = (bus_error_chk true b.verr).0 }) v
vme_window_ioctl-Inv k file (check_clear_bus_error d) b v =
    from_user-Inv k _ b v λ c w. check_clear_ioctl-Inv k d c w
vme_window_ioctl-Inv k file unknown b v = v

mmap_windows-Inv :
    (k : Kernel) (file : ℕ) (vma : VmArea) (addr size n i : ℕ) (b : Bridge)
    → i + n ≤ 8
    → Inv b
    → Inv (mmap_windows k file vma addr size n i b).0
unfolding mmap_windows remap_pfn_range
mmap_windows-Inv k file vma addr size zero i b le v = v
mmap_windows-Inv k file vma addr size (suc n) i b le v =
    lock_rule (λ (r : Bridge × Rc). Inv r.0) k i _ _ b (omega arith) v
      (λ b1 h.
        if_cases (λ (r : Bridge × Rc). Inv r.0) _
          (λ _. Holding-unlock i (remap_pfn_range k file vma b1).0 h)
          (λ _.
            mmap_windows-Inv k file vma addr size n (suc i) (unlock_window i b1) (omega arith)
              (Holding-unlock i b1 h)))
      (λ b1 v1. v1)

find_from_addr-Inv :
    (k : Kernel) (logaddr n i : ℕ) (b : Bridge)
    → i + n ≤ 8
    → Inv b
    → Inv (find_from_addr k logaddr n i b).0
unfolding find_from_addr
find_from_addr-Inv k logaddr zero i b le v = v
find_from_addr-Inv k logaddr (suc n) i b le v =
    lock_rule (λ (r : Bridge × Option VmeMapping). Inv r.0) k i _ _ b (omega arith) v
      (λ b1 h.
        elim (find_at logaddr (b1.window_table i).mappings)
          as (λ o.
            Inv
              (elim o as (λ _. Bridge × Option VmeMapping) [
                | none ↦ find_from_addr k logaddr n (suc i) (unlock_window i b1)
                | some d ↦ (unlock_window i b1, some d)
              ]).0) [
                | none ↦
                    find_from_addr-Inv k logaddr n (suc i) _ (omega arith) (Holding-unlock i b1 h)
                | some d ↦ Holding-unlock i b1 h
              ])
      (λ b1 v1. v1)

exit_windows-Inv : (k : Kernel) (n i : ℕ) (b : Bridge) → Inv b → Inv (exit_windows k n i b)
unfolding exit_windows
exit_windows-Inv k zero i b v = v
exit_windows-Inv k (suc n) i b v = exit_windows-Inv k n (suc i) _ (
    if_cases (λ (c : Bridge). Inv c) (b.window_table i).active
      (λ _. vme_destroy_window-Inv k (pos i) b v) (λ _. v))

-- The entry points: of files, of other drivers, and of the module's exit.
pub data Call : Type 0 where
  ioctl : (file : ℕ) → Command → Call
  mmap : (file : ℕ) → VmArea → Call
  close : (file : ℕ) → Call
  find_from : (logaddr : ℕ) → Call
  create_by_driver get_attr_by_driver : VmeMapping → Call
  destroy_by_driver : ℤ → Call
  find_by_driver release_by_driver : VmeMapping → (force : ℕ) → Call
  exit : Call

pub step : Kernel → Call → Bridge → Bridge
step k (ioctl file c) b = (vme_window_ioctl k file c b).0
step k (mmap file a) b = (vme_window_mmap k file a b).0
step k (close file) b = (vme_window_release k file b).0
step k (find_from logaddr) b = (find_vme_mapping_from_addr k logaddr b).0
step k (create_by_driver d) b = (vme_create_window k d b).0
step k (get_attr_by_driver d) b = (vme_get_window_attr k d b).0
step k (destroy_by_driver n) b = (vme_destroy_window k n b).0
step k (find_by_driver d force) b = (vme_find_mapping k d force b).0
step k (release_by_driver d force) b = (vme_release_mapping k d force b).0
step k exit b = vme_window_exit k b

pub run : List (Kernel × Call) → Bridge → Bridge
run [] b = b
run ((k, c) ∷ cs) b = run cs (step k c b)

step-Inv : (k : Kernel) (c : Call) (b : Bridge) → Inv b → Inv (step k c b)
unfolding step vme_window_mmap vme_window_release find_vme_mapping_from_addr vme_window_exit
    vme_find_mapping vme_release_mapping
step-Inv k (ioctl file c) b v = vme_window_ioctl-Inv k file c b v
step-Inv k (mmap file a) b v = mmap_windows-Inv k file a _ _ 8 0 b (omega arith) v
step-Inv k (close file) b v = release_windows-Inv k file 8 0 b (omega arith) v
step-Inv k (find_from logaddr) b v = find_from_addr-Inv k logaddr 8 0 b (omega arith) v
step-Inv k (create_by_driver d) b v = vme_create_window-Inv k d b v
step-Inv k (get_attr_by_driver d) b v = vme_get_window_attr-Inv k d b v
step-Inv k (destroy_by_driver n) b v = vme_destroy_window-Inv k n b v
step-Inv k (find_by_driver d force) b v = find_mapping_for-Inv k d force 0 b v
step-Inv k (release_by_driver d force) b v = release_mapping_for-Inv k d force 0 b v
step-Inv k exit b v = exit_windows-Inv k 8 0 b v

run-Inv : (cs : List (Kernel × Call)) (b : Bridge) → Inv b → Inv (run cs b)
unfolding run
run-Inv [] b v = v
run-Inv ((k, c) ∷ cs) b v = run-Inv cs (step k c b) (step-Inv k c b v)

-- The window table is zeroed static memory when the module is loaded.
abbrev pub IsZeroed : Bridge → Type 0
IsZeroed b = (i : ℕ) → i < 8 → (b.window_table i).users ≡ pos 0

fresh-WindowInv :
    (i : ℕ) (w : Window)
    → w.users ≡ pos 0
    → WindowInv false i (record w { mappings = []; lock = false; active = false })
fresh-WindowInv i w z = record {
  lock = refl;
  counted = z;
  idle = λ _. refl;
  numbered = λ e. cc;
  enabled = λ e. cc;
}

init_below :
    (n i j : ℕ) (t : ℕ → Window)
    → (j < i → WindowInv false j (t j))
    → (t j).users ≡ pos 0
    → j < i + n
    → WindowInv false j (init_windows n i t j)
unfolding init_windows
init_below zero i j t below users lt = below (omega arith)
init_below (suc n) i j t below users lt =
    init_below n (suc i) j
      (update t i (record (t i) { mappings = []; lock = false; active = false }))
      (λ le.
        if_cases (WindowInv false j) (j == i) (λ e. fresh-WindowInv j (t i) (ground arith))
          (λ e. below (ground arith)))
      (ground arith) (omega arith)

vme_window_init-Inv : (b : Bridge) → IsZeroed b → Inv (vme_window_init b)
unfolding vme_window_init
vme_window_init-Inv b z i hi =
    init_below 8 0 i b.window_table (λ h. absurd (omega arith)) (z i hi) (omega arith)

-- From zeroed memory on, after initialisation and any calls, every mutex is free, `users` counts the
-- mappings of each window, a window that is not in use has none, and one in use carries its number
-- and is enabled.
pub run-init-Inv :
    (cs : List (Kernel × Call)) (b : Bridge) → IsZeroed b → Inv (run cs (vme_window_init b))
run-init-Inv cs b z = run-Inv cs _ (vme_window_init-Inv b z)
