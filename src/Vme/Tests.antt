-- ===== src/Vme/Tests.antt =====
-- Tests of the bridge driver's model on a small machine.
mod Chip
mod Dma
mod Ces
use ht_drivers.Base.{
  ℕ, suc, zero, ◌+◌, ◌<◌, ◌≡◌, ◌≢◌, ◌↔◌, refl, Bool, true, false, List, [], ◌∷◌, ◌++◌, some, none,
  arith, ℤ, pos, Rc, success, failure, enomem, remove_first, ◌-◌, ◌*◌, ◌%◌, ◌^◌, ◌≤◌, Result, ok,
  err, inl, inr, low16, sub32, ◌⊎◌,
}
use ht_drivers.Vme.Types.{VmeMapping, d16, d32}
use ht_drivers.Vme.Am
use ht_drivers.Vme.Berr.{
  BusError, BusErrorDesc, BerrHandler, Verr, bus_error_chk, bus_error_check_clear,
  register_berr_handler, unregister_berr_handler, berr_match, chip_handle_vme_error,
  handle_vme_error,
}
use ht_drivers.Vme.Chip.Am.{Attrs, am_to_attr, attr_to_am, sub64hi, add64hi}
use ht_drivers.Vme.Chip.Window.{
  Otrans, tsi148_create_window, tsi148_get_window_attr, tsi148_remove_window, round_window,
  setup_window_attributes, am_bits, mode_bits, user_bits, data_bits, size_bits, prefetch_bits,
  write_window,
}
use ht_drivers.Vme.Window.State.{
  Window, Bridge, Kernel, Mapping, Resource, TaskInfo, no_resource, window_index, with_lock,
  lock_window, unlock_window,
}
use ht_drivers.Vme.Window.Mappings.{vme_window_release, new_mapping, add_mapping}
use ht_drivers.Vme.Window.Create.{
  align_address, round_size, create_locked, create_resource, resource_done, create_map, create_chip,
  chip_done, out_unmap, out_release, out_free, vme_create_window, vme_destroy_window,
  vme_window_init,
}
use ht_drivers.Vme.Window.Find.{
  find_mapping_for, place_mapping, vme_mapping_sanity_check, window_fits, sane, find_window,
  search_done, search_windows, unlock_reply, attach, create_for,
}
use ht_drivers.Vme.Window.Ioctl.{
  create_window, find_mapping, release_mapping, VmArea, vme_window_mmap, check_mmap_region,
  page_start,
}
use ht_drivers.Vme.Window.Invariant.{Inv}
use ht_drivers.Vme.Window.Run.{Call, ioctl, mmap, close, run, IsZeroed, run-init-Inv}
use ht_drivers.Vme.Window.Owners.{KeepsOthers, close-KeepsOthers}
use ht_drivers.Vme.Window.Ledger.{
  vme_create_window-failed, vme_create_window-made, wiped, vme_destroy_window-frees, destroy-create,
  CanDestroy,
}
use ht_drivers.Vme.Window.Found.{find_mapping_for-placed}
use ht_drivers.Vme.Window.Align.{Covers, rounded-Covers, place_mapping-Covers}
use ht_drivers.Vme.Window.Mmap.{Mapped, check_mmap_region_iff, vme_window_mmap-Mapped}

-- A request for 1 MB at 0x08000000 of the A32 space, on window 2.
abbrev request : VmeMapping
request = record {
  window_num = pos 2;
  kernel_va = 0;
  user_va = 0;
  fd = pos 0;
  window_enabled = 0;
  data_width = d32;
  am = Am.a32_user_data_sct;
  read_prefetch_enabled = 0;
  read_prefetch_size = 0;
  v2esst_mode = 0;
  bcast_select = 0;
  pci_addru = 0;
  pci_addrl = 0;
  sizeu = 0;
  sizel = 0x100000;
  vme_addru = 0;
  vme_addrl = 0x8000000;
}

-- 4 KB of it.
abbrev part : VmeMapping
part = record request { vme_addrl = 0x8003000; sizel = 0x1000 }

abbrev empty_window : Window
empty_window = record {
  lock = false;
  active = false;
  rsrc = no_resource;
  desc = request;
  mappings = [];
  users = pos 0;
}

abbrev zero_regs : Otrans
zero_regs = record {
  otsau = 0;
  otsal = 0;
  oteau = 0;
  oteal = 0;
  otofu = 0;
  otofl = 0;
  otbs = 0;
  otat = 0;
}

-- A bus error at 0x8000010 with modifier 9 has been recorded by the chip.
abbrev error_at : BusError
error_at = record { address = 0x8000010; am = 9 }

abbrev handler : BerrHandler
handler = record { id = 1; error = record { address = 0x8000000; am = 9 }; size = 0x100; func = 7 }

abbrev verr : Verr
verr = record {
  desc = record { error = error_at; valid = false };
  h_list = handler ∷ [];
  veau = 0;
  veal = 0x8000010;
  veat = 0x80000900;
  notified = [];
}

abbrev machine : Bridge
machine = record {
  window_table = λ _. empty_window;
  otrans = λ _. zero_regs;
  iomaps = [];
  resources = [];
  remaps = [];
  verr = verr;
  vme_create_on_find_fail = 1;
  vme_destroy_on_remove = 1;
  calls = 0;
}

-- A kernel that grants all, and one that maps no addresses.
abbrev pub kernel : Kernel
kernel = record {
  interrupted = λ _. false;
  allocated = λ _. true;
  bus_resource = λ _ _. ok 0x80000000;
  ioremap = λ _ _ _. 0xf0000000;
  remap_pfn_range = λ _. success;
  user_copied = λ _. true;
  current_pid = 42;
  current_comm = "daq";
}

abbrev no_ioremap : Kernel
no_ioremap = record kernel { ioremap = λ _ _ _. 0 }

abbrev calls : List (Kernel × Call)
calls =
    (kernel, ioctl 5 (create_window request))
    ∷ (kernel, ioctl 5 (find_mapping part))
    ∷ (kernel, mmap 5 (record { vm_pgoff = 0x80003; vm_start = 0x1000; vm_end = 0x2000 }))
    ∷ (kernel, close 5)
    ∷ []

zeroed : IsZeroed machine
zeroed i h = refl

run-init-Inv_example : Inv (run calls (vme_window_init machine))
run-init-Inv_example = run-init-Inv calls machine zeroed

fails : (vme_create_window no_ioremap request machine).2 ≡ failure enomem
unfolding vme_create_window create_locked with_lock lock_window create_resource resource_done
    create_map create_chip chip_done tsi148_create_window round_window setup_window_attributes
    am_bits mode_bits user_bits data_bits size_bits am_to_attr prefetch_bits write_window out_unmap
    out_release out_free unlock_window align_address round_size add64hi sub64hi
fails = refl

vme_create_window-failed_example :
    ((vme_create_window no_ioremap request machine).0.iomaps ≡ [])
    × ((vme_create_window no_ioremap request machine).0.resources ≡ [])
vme_create_window-failed_example =
    vme_create_window-failed no_ioremap request machine 2 refl enomem fails

abbrev pub created : Bridge
created = (vme_create_window kernel request machine).0

makes : (vme_create_window kernel request machine).2 ≡ success
unfolding vme_create_window create_locked with_lock lock_window create_resource resource_done
    create_map create_chip chip_done tsi148_create_window round_window setup_window_attributes
    am_bits mode_bits user_bits data_bits size_bits am_to_attr prefetch_bits write_window out_unmap
    out_release out_free unlock_window align_address round_size add64hi sub64hi
makes = refl

vme_create_window-made_example :
    ((created.window_table 2).active ≡ true)
    × (created.iomaps ≡ (created.window_table 2).desc.kernel_va ∷ [])
    × (created.resources ≡ (created.window_table 2).rsrc.start ∷ [])
vme_create_window-made_example = vme_create_window-made kernel request machine 2 refl makes

can_destroy : CanDestroy kernel 2 created
unfolding vme_create_window create_locked with_lock lock_window create_resource resource_done
    create_map create_chip chip_done tsi148_create_window round_window setup_window_attributes
    am_bits mode_bits user_bits data_bits size_bits am_to_attr prefetch_bits write_window out_unmap
    out_release out_free unlock_window align_address round_size add64hi sub64hi
can_destroy = (refl, refl, refl)

vme_destroy_window-frees_example :
    let w = created.window_table 2 in
    let (c, rc) = vme_destroy_window kernel (pos 2) created in
    (rc ≡ success)
    × (c.iomaps ≡ remove_first w.desc.kernel_va created.iomaps)
    × (c.resources ≡ remove_first w.rsrc.start created.resources)
    × ((c.window_table 2).active ≡ false)
    × ((c.window_table 2).desc.window_enabled ≡ 0)
    × (c.otrans 2 ≡ wiped)
vme_destroy_window-frees_example =
    vme_destroy_window-frees kernel (pos 2) created 2 refl can_destroy

destroy-create_example :
    let (c, rc) = vme_destroy_window kernel (pos 2) created in
    (rc ≡ success) × (c.iomaps ≡ []) × (c.resources ≡ [])
destroy-create_example = destroy-create kernel request machine 2 refl makes can_destroy

finds : (find_mapping_for kernel part 1 5 created).2 ≡ success
unfolding vme_create_window create_locked with_lock lock_window create_resource resource_done
    create_map create_chip chip_done tsi148_create_window round_window setup_window_attributes
    am_bits mode_bits user_bits data_bits size_bits am_to_attr prefetch_bits write_window out_unmap
    out_release out_free unlock_window align_address round_size add64hi sub64hi find_mapping_for
    sane vme_mapping_sanity_check find_window search_done search_windows window_fits unlock_reply
    attach add_mapping create_for
finds = refl

find_mapping_for-placed_example :
    let (c, m', rc) = find_mapping_for kernel part 1 5 created in
    (i : ℕ) × (before : List Mapping) × (m' ≡ place_mapping i (c.window_table i) part)
    × ((c.window_table i).mappings ≡ before ++ new_mapping kernel m' 5 ∷ [])
find_mapping_for-placed_example = find_mapping_for-placed kernel part 1 5 created finds

-- A window at the request, as it is mapped.
abbrev window : Window
window = record empty_window {
  active = true;
  desc = record request { kernel_va = 0xf0000000; pci_addrl = 0x80000000; window_enabled = 1 };
}

fits : window_fits part window ≡ true
unfolding window_fits
fits = refl

place_mapping-Covers_example :
    let p = place_mapping 2 window part in
    Covers window.desc part
    × (p.kernel_va + 0x8000000 ≡ 0xf0000000 + 0x8003000)
    × (p.pci_addrl + 0x8000000 ≡ 0x80000000 + 0x8003000)
    × (p.kernel_va + 0x1000 ≤ 0xf0000000 + 0x100000)
place_mapping-Covers_example =
    place_mapping-Covers 2 window part fits (omega arith) (omega arith) (omega arith) (omega arith)

rounded-Covers_example :
    let d' = round_size (align_address part) in
    (low16 d'.vme_addrl ≡ 0)
    × (low16 d'.sizel ≡ 0)
    × (0 < d'.sizel)
    × (Covers d' part ↔ (low16 part.vme_addrl + (part.sizel - 1) % 65536 < 65536))
rounded-Covers_example = rounded-Covers part (omega arith) (omega arith) (omega arith)

close-KeepsOthers_example : KeepsOthers 5 created (vme_window_release kernel 5 created).0
close-KeepsOthers_example = close-KeepsOthers kernel 5 created

abbrev area : VmArea
area = record { vm_pgoff = 0x80003; vm_start = 0x1000; vm_end = 0x2000 }

vme_window_mmap-Mapped_example :
    Mapped 5 area 0x80003000 0x1000
      (run calls machine).remaps
      (vme_window_mmap kernel 5 area (run calls machine))
vme_window_mmap-Mapped_example =
    vme_window_mmap-Mapped kernel 5 area (run calls machine) (omega arith) (omega arith)
      (omega arith)

check_mmap_region_iff_example :
    let m = record part { pci_addrl = 0x80003000 } in
    (check_mmap_region window.desc m 0x80003000 0x1000 ≡ true) ↔ (
      (0x80000000 ≤ 0x80003000)
      × (0x80003000 + 0x1000 ≤ 0x80000000 + 0x100000)
      × (0x80003000 ≡ page_start 0x80003000)
      × ((0x80003000 + 0x1000) % 4096 ≡ 0)
      × (0x80003000 + 0x1000 ≤ 0x80003000 + 0x1000)
      × (0x80003000 + 0x1000 < 0x80003000 + 0x1000 + 4096))
check_mmap_region_iff_example =
    check_mmap_region_iff window.desc (record part { pci_addrl = 0x80003000 }) 0x80003000 0x1000
      (omega arith) (omega arith) (omega arith)
