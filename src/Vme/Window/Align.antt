-- ===== src/Vme/Window/Align.antt =====
-- What the rounding of a window's address and size to 64 KB does to the range that was asked for.
use ht_drivers.Base.{ℕ, ◌+◌, ◌-◌, ◌%◌, ◌^◌, ◌≤◌, ◌<◌, ◌≡◌, ◌↔◌, arith, low16}
use ht_drivers.Vme.Types.{VmeMapping}
use ht_drivers.Vme.Window.State.{Window}
use ht_drivers.Vme.Window.Create.{align_address, round_size}
use ht_drivers.Vme.Window.Find.{window_fits, place_mapping}
use ht_drivers.Base.{true}

-- The range of a descriptor lies in the range of another.
abbrev pub Covers : VmeMapping → VmeMapping → Type 0
Covers d' d = (d'.vme_addrl ≤ d.vme_addrl) × (d.vme_addrl + d.sizel ≤ d'.vme_addrl + d'.sizel)

module _ (d : VmeMapping) where
  -- For a size up to 0xffff0000, the rounded window starts and ends on 64 KB bounds, its size is not
  -- zero, and it covers the request exactly if the address's offset in its 64 KB block and the
  -- size's part of a block fit in one block.
  pub rounded-Covers :
      d.vme_addrl < 2 ^ 32
      → 0 < d.sizel
      → d.sizel ≤ 4294901760
      → let d' = round_size (align_address d) in
        (low16 d'.vme_addrl ≡ 0)
        × (low16 d'.sizel ≡ 0)
        × (0 < d'.sizel)
        × (Covers d' d ↔ (low16 d.vme_addrl + (d.sizel - 1) % 65536 < 65536))
  unfolding round_size align_address
  rounded-Covers ha hz hs = ground arith

-- For a mapping that is not empty, where the VME addresses of the ends of the mapping and of the window
-- are below 2^32, and the PCI address of the window's end is 2^32 at most: a mapping that fits in a
-- window is placed inside it: the virtual address has the same offset from
-- the window's as the VME address has, the PCI address too, and its end is inside the window.
pub place_mapping-Covers :
    (i : ℕ) (w : Window) (m : VmeMapping)
    → window_fits m w ≡ true
    → m.vme_addrl + m.sizel < 2 ^ 32
    → w.desc.vme_addrl + w.desc.sizel < 2 ^ 32
    → w.desc.pci_addrl + w.desc.sizel ≤ 2 ^ 32
    → 0 < m.sizel
    → let p = place_mapping i w m in
      Covers w.desc m
      × (p.kernel_va + w.desc.vme_addrl ≡ w.desc.kernel_va + m.vme_addrl)
      × (p.pci_addrl + w.desc.vme_addrl ≡ w.desc.pci_addrl + m.vme_addrl)
      × (p.kernel_va + m.sizel ≤ w.desc.kernel_va + w.desc.sizel)
unfolding window_fits place_mapping
place_mapping-Covers i w m f hm hw hp hz = ground arith
