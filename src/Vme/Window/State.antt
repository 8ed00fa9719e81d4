-- ===== src/Vme/Window/State.antt =====
-- vmebridge/driver/vme_window.c: the window table, and what the kernel answers.
-- `Bridge` is the driver's state with the chip's window registers and the resources that it holds.
-- Each call of a kernel service that can fail reads the answer off `Kernel` at the number of such
-- calls made before it, `calls`, and adds one.
use ht_drivers.Base.{
  ℕ, suc, Bool, true, false, ◌||◌, List, if◌then◌else◌, update, ℤ, pos, negsuc, Result, Rc, ltb,
  Option, none, some,
}
use ht_drivers.Vme.Types.{VmeMapping}
use ht_drivers.Vme.Chip.Window.{Otrans}
use ht_drivers.Vme.Berr.{Verr}
use Prim.Native.String.{String}

-- `struct vme_taskinfo`; 0 is a NULL file.
pub record TaskInfo : Type 0 where
  pub pid_nr : ℕ
  pub name : String
  pub file : ℕ

-- `struct mapping`.
pub record Mapping : Type 0 where
  pub desc : VmeMapping
  pub client : TaskInfo

-- `struct resource`: whether the name is allocated, and the range.
pub record Resource : Type 0 where
  pub name : Bool
  pub start : ℕ
  pub end : ℕ

-- `struct window`; `lock` says whether the mutex is held.
pub record Window : Type 0 where
  pub lock : Bool
  pub active : Bool
  pub rsrc : Resource
  pub desc : VmeMapping
  pub mappings : List Mapping
  pub users : ℤ

-- The file, the first physical page and the number of bytes that `vme_remap_pfn_range` is called for.
pub record Remap : Type 0 where
  pub file : ℕ
  pub page : ℕ
  pub size : ℕ

pub record Bridge : Type 0 where
  pub window_table : ℕ → Window
  pub otrans : ℕ → Otrans
  -- `ioremap`ped addresses and allocated PCI bus ranges, by their start
  pub iomaps : List ℕ
  pub resources : List ℕ
  -- calls of `io_remap_pfn_range`, latest first
  pub remaps : List Remap
  pub verr : Verr
  pub vme_create_on_find_fail : ℕ
  pub vme_destroy_on_remove : ℕ
  pub calls : ℕ

-- The kernel's answers, and the task that calls the driver.
pub record Kernel : Type 0 where
  pub interrupted : ℕ → Bool
  pub allocated : ℕ → Bool
  pub bus_resource : ℕ → (size : ℕ) → Result ℕ
  pub ioremap : ℕ → (start size : ℕ) → ℕ
  pub remap_pfn_range : ℕ → Rc
  pub user_copied : ℕ → Bool
  pub current_pid : ℕ
  pub current_comm : String

-- TSI148_NUM_OUT_WINDOWS.
abbrev pub num_out_windows : ℕ
num_out_windows = 8

-- The table index that an `int` window number stands for, if it is in bounds.
abbrev pub window_index : ℤ → Option ℕ
window_index (pos n) = if ltb n num_out_windows then some n else none
window_index (negsuc n) = none

abbrev pub tick : Bridge → Bridge
tick b = record b { calls = suc b.calls }

abbrev pub put_window : ℕ → Window → Bridge → Bridge
put_window i w b = record b { window_table = update b.window_table i w }

-- `mutex_lock_interruptible`: a signal ends the wait, and so it does for a mutex that the caller
-- holds itself.
unfoldable pub lock_window : Kernel → ℕ → Bridge → Bridge × Bool
lock_window k i b =
    if (b.window_table i).lock || k.interrupted b.calls
    then (tick b, false)
    else (put_window i (record (b.window_table i) { lock = true }) (tick b), true)

unfoldable pub unlock_window : ℕ → Bridge → Bridge
unlock_window i b = put_window i (record (b.window_table i) { lock = false }) b

-- What follows `mutex_lock_interruptible`, with the mutex and without.
unfoldable pub with_lock {ℓ} : {A : Type ℓ} → Kernel → ℕ → (Bridge → A) → (Bridge → A) → Bridge → A
unfolding lock_window
with_lock k i granted refused b =
    let (b1, got) = lock_window k i b in if got then granted b1 else refused b1

abbrev pub no_resource : Resource
no_resource = record { name = false; start = 0; end = 0 }
