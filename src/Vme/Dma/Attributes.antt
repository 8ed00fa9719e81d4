-- ===== src/Vme/Dma/Attributes.antt =====
-- vmebridge/driver/tsi148.c: the attribute and control words of a transfer. `none` is -EINVAL.
use ht_drivers.Base.{
  ℕ, ◌*◌, ◌^◌, ◌||◌, Option, none, some, bit_and, bit_or, ◌==◌, ltb, if◌then◌else◌,
}
use ht_drivers.Vme.Types.{d16, d32}
use ht_drivers.Vme.Am
use ht_drivers.Vme.Chip.Codes
use ht_drivers.Vme.Chip.Window.{am_bits}
use ht_drivers.Vme.Dma.Types.{VmeDma, DmaCtrl, to_device, from_device}

-- The checks on the address modifier and the bits that they add are those of the window attributes.
unfoldable pub setup_dma_attributes : (v2esst_mode data_width am : ℕ) → Option ℕ
setup_dma_attributes v2esst_mode data_width am =
    let word = bit_and (v2esst_mode * 2 ^ 11) 0x1800 in
    if ltb v2esst_mode 3
    then if data_width == d16
      then am_bits am (bit_or word (bit_and (Codes.dw_16 * 2 ^ 6) 0xc0))
      else if data_width == d32
      then am_bits am (bit_or word (bit_and (Codes.dw_32 * 2 ^ 6) 0xc0))
      else none
    else none

-- DSAT_TYP_VME and DDAT_TYP_VME; the codes of PCI are 0.
abbrev pub typ_vme : ℕ
typ_vme = 0x10000000

abbrev vme_side : Option ℕ → Option ℕ
vme_side none = none
vme_side (some word) = some (bit_or word typ_vme)

unfoldable pub dma_setup_src : VmeDma → Option ℕ
dma_setup_src d =
    if d.dir == to_device
    then some 0
    else if d.dir == from_device
    then vme_side (setup_dma_attributes d.src.v2esst_mode d.src.data_width d.src.am)
    else none

unfoldable pub dma_setup_dst : VmeDma → Option ℕ
dma_setup_dst d =
    if d.dir == to_device
    then vme_side (setup_dma_attributes d.dst.v2esst_mode d.dst.data_width d.dst.am)
    else if d.dir == from_device
    then some 0
    else none

-- The fields are `unsigned`, and so the lower bounds hold.
unfoldable pub dma_setup_ctl : DmaCtrl → Option ℕ
dma_setup_ctl c =
    if ltb 7 c.vme_block_size
      || ltb 7 c.vme_backoff_time
      || ltb 7 c.pci_block_size
      || ltb 7 c.pci_backoff_time
    then none
    else some (
        bit_or
          (bit_or
            (bit_or (bit_and (c.vme_block_size * 2 ^ 12) 0x7000)
              (bit_and (c.vme_backoff_time * 2 ^ 8) 0x700))
            (bit_and (c.pci_block_size * 2 ^ 4) 0x70))
          (bit_and c.pci_backoff_time 7))

-- A block transfer must not cross a bound of 2 ^ this many bytes; 0 if it may.
unfoldable pub am_bshift : ℕ → ℕ
am_bshift am =
    if (am == Am.a64_mblt)
      || (am == Am.a32_user_mblt)
      || (am == Am.a32_sup_mblt)
      || (am == Am.a24_user_mblt)
      || (am == Am.a24_sup_mblt)
    then 11
    else if (am == Am.a64_blt)
        || (am == Am.a32_user_blt)
        || (am == Am.a32_sup_blt)
        || (am == Am.a40_blt)
        || (am == Am.a24_user_blt)
        || (am == Am.a24_sup_blt)
    then 8
    else 0

unfoldable pub get_bshift : VmeDma → ℕ
unfolding am_bshift
get_bshift d = am_bshift (if d.dir == from_device then d.src.am else d.dst.am)
