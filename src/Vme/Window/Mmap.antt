-- ===== src/Vme/Window/Mmap.antt =====
-- What the mmap entry point maps into a user's address space.
use ht_drivers.Base.{
  ◌-◌, ℕ, suc, zero, ◌+◌, ◌*◌, ◌%◌, ◌^◌, ◌≤◌, ◌<◌, ◌≡◌, refl, ◌↔◌, inl, inr, true, ◌&&◌, List, [],
  ◌∷◌, ◌++◌, arith, Rc, if_cases, ◌==◌, ap, sub32, Bool-cases,
}
use ht_drivers.Vme.Types.{VmeMapping}
use ht_drivers.Vme.Window.State.{
  Window, Bridge, Kernel, Mapping, Remap, put_window, tick, unlock_window,
}
use ht_drivers.Vme.Window.Ioctl.{
  page_start, check_mmap_region, find_region, remap_pfn_range, mmap_windows, VmArea,
  vme_window_mmap,
}
use ht_drivers.Vme.Window.Invariant.{lock_cases}

-- For sums below 2^32, a region is accepted exactly if it lies in the window, starts at the page that
-- the mapping starts in, and ends at the first page bound at or after the mapping's end.
pub check_mmap_region_iff :
    (window m : VmeMapping) (addr size : ℕ)
    → window.pci_addrl + window.sizel < 2 ^ 32
    → m.pci_addrl + m.sizel + 4096 < 2 ^ 32
    → addr + size < 2 ^ 32
    → (check_mmap_region window m addr size ≡ true) ↔ (
        (window.pci_addrl ≤ addr)
        × (addr + size ≤ window.pci_addrl + window.sizel)
        × (addr ≡ page_start m.pci_addrl)
        × ((addr + size) % 4096 ≡ 0)
        × (m.pci_addrl + m.sizel ≤ addr + size)
        × (addr + size < m.pci_addrl + m.sizel + 4096))
unfolding check_mmap_region
check_mmap_region_iff window m addr size hw hm ha = ground arith

-- The region is made of a mapping of this file on a window in use.
pub record IsMappedBy (file addr size : ℕ) (w : Window) : Type 0 where
  pub active : w.active ≡ true
  pub m : Mapping
  pub before : List Mapping
  pub after : List Mapping
  pub listed : w.mappings ≡ before ++ m ∷ after
  pub owner : m.client.file ≡ file
  pub region : check_mmap_region w.desc m.desc addr size ≡ true

find_region-found :
    (d : VmeMapping) (file addr size : ℕ) (ms : List Mapping)
    → find_region d file addr size ms ≡ true
    → (m : Mapping) × (before after : List Mapping) × (ms ≡ before ++ m ∷ after)
      × (m.client.file ≡ file)
      × (check_mmap_region d m.desc addr size ≡ true)
unfolding find_region
find_region-found d file addr size [] e = cc
find_region-found d file addr size (m ∷ ms) e =
    elim (Bool-cases ((m.client.file == file) && check_mmap_region d m.desc addr size)) [
      | inl q ↦ (m, [], ms, refl, ground arith, ground arith)
      | inr q ↦
          let (m', before, after, l, o, r) = find_region-found d file addr size ms (ground arith) in
          (m', m ∷ before, after, ap (λ xs. m ∷ xs) l, o, r)
    ]

-- A call maps nothing, or it maps the pages of the area once, and the region from `addr` on is made of a
-- mapping of this file.
pub data Mapped (file : ℕ) (vma : VmArea) (addr size : ℕ) (old : List Remap)
    : Bridge × Rc → Type 0 where
  untouched : {r : Bridge × Rc} → r.0.remaps ≡ old → Mapped file vma addr size old r
  once :
      {r : Bridge × Rc} (i : ℕ)
      → r.0.remaps
        ≡ record { file = file; page = vma.vm_pgoff; size = vma.vm_end - vma.vm_start } ∷ old
      → IsMappedBy file addr size (r.0.window_table i)
      → Mapped file vma addr size old r

mapped_by :
    (file addr size : ℕ) (w : Window)
    → (w.active && find_region w.desc file addr size w.mappings) ≡ true
    → IsMappedBy file addr size w
mapped_by file addr size w e =
    let (m, before, after, l, o, r) =
      find_region-found w.desc file addr size w.mappings (ground arith) in
    record {
      active = ground arith;
      m = m;
      before = before;
      after = after;
      listed = l;
      owner = o;
      region = r;
    }

unlocked-IsMappedBy :
    (file addr size i : ℕ) (b : Bridge)
    → IsMappedBy file addr size (b.window_table i)
    → IsMappedBy file addr size ((unlock_window i b).window_table i)
unfolding unlock_window
unlocked-IsMappedBy file addr size i b h = record {
  active = ground (arith, h.active);
  m = h.m;
  before = h.before;
  after = h.after;
  listed = ground (arith, h.listed);
  owner = h.owner;
  region = ground (arith, h.region);
}

mmap_windows-Mapped :
    (k : Kernel) (file : ℕ) (vma : VmArea) (addr size n i : ℕ) (b : Bridge)
    → Mapped file vma addr size b.remaps (mmap_windows k file vma addr size n i b)
unfolding mmap_windows remap_pfn_range unlock_window
mmap_windows-Mapped k file vma addr size zero i b = untouched refl
mmap_windows-Mapped k file vma addr size (suc n) i b =
    let b1 = put_window i (record (b.window_table i) { lock = true }) (tick b) in
    let b2 = (remap_pfn_range k file vma b1).0 in
    lock_cases (Mapped file vma addr size b.remaps) k i _ _ b
      (λ _.
        if_cases (Mapped file vma addr size b.remaps) _
          (λ e. once i refl (
            unlocked-IsMappedBy file addr size i b2
              (mapped_by file addr size (b1.window_table i) e)))
          (λ _. mmap_windows-Mapped k file vma addr size n (suc i) (unlock_window i b1)))
      (untouched refl)

-- For an area that does not end before it starts, whose first page is below the address 2^32 and whose
-- length is below 2^32: a call of mmap asks the kernel for the area's own pages, once at most, and only
-- where the region from its first page on, of its length, is made of a mapping on a window in use that
-- belongs to the calling file.
pub vme_window_mmap-Mapped :
    (k : Kernel) (file : ℕ) (vma : VmArea) (b : Bridge)
    → vma.vm_pgoff < 2 ^ 20
    → vma.vm_start ≤ vma.vm_end
    → vma.vm_end - vma.vm_start < 2 ^ 32
    → Mapped file vma
        (vma.vm_pgoff * 4096)
        (vma.vm_end - vma.vm_start)
        b.remaps
        (vme_window_mmap k file vma b)
unfolding vme_window_mmap
vme_window_mmap-Mapped k file vma b low up short =
    let addr : vma.vm_pgoff * 4096 % 4294967296 ≡ vma.vm_pgoff * 4096 = omega arith in
    let size : sub32 (vma.vm_end % 4294967296) (vma.vm_start % 4294967296)
        ≡ vma.vm_end - vma.vm_start =
      omega arith in
    rw (addr, size)
      (mmap_windows-Mapped k file vma (vma.vm_pgoff * 4096) (vma.vm_end - vma.vm_start) 8 0 b)
