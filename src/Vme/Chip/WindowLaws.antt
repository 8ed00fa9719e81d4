-- ===== src/Vme/Chip/WindowLaws.antt =====
-- What the window registers say after `tsi148_create_window`, and what is read back from them.
use ht_drivers.Base.{
  ℕ, ◌%◌, ◌^◌, ◌≤◌, ◌<◌, ◌≡◌, refl, Bool, true, false, ◌&&◌, none, some, arith, success, ◌==◌,
  passes_under, passes_under-lt, if◌then◌else◌, ◌⊎◌, inl, inr, Option-cases, sub32,
}
use ht_drivers.Vme.Types.{VmeMapping, d16, d32}
use ht_drivers.Vme.Chip.Am.{am_to_attr}
use ht_drivers.Vme.Chip.Window.{
  Otrans, tsi148_create_window, write_window, round_window, tsi148_get_window_attr,
  setup_window_attributes, am_bits, prefetch_bits, read_am, read_width, otat_en, otat_mrpfd,
}
use Prim.Native.Nat.{bit_and, ◌/◌}

-- An attribute word is read back as the attributes that it was made of.
abbrev Reads : (width v2esst_mode am enabled size word : ℕ) → Type 0
Reads width v2esst_mode am enabled size word =
    (read_am word ≡ am)
    × (bit_and word 0xc0 / 2 ^ 6 ≡ (if width == d16 then 0 else 1))
    × (bit_and word 0x3800 / 2 ^ 11 ≡ v2esst_mode)
    × ((bit_and word otat_en == 0) ≡ false)
    × ((bit_and word otat_mrpfd == 0) ≡ (if enabled == 0 then false else true))
    × ((enabled == 0) ≡ false → bit_and word 0x30000 / 2 ^ 16 ≡ size)

reads : (width v2esst_mode am enabled size word : ℕ) → Bool
reads width v2esst_mode am enabled size word =
    (read_am word == am)
    && (bit_and word 0xc0 / 2 ^ 6 == (if width == d16 then 0 else 1))
    && (bit_and word 0x3800 / 2 ^ 11 == v2esst_mode)
    && (if bit_and word otat_en == 0 then false else true)
    && (if bit_and word otat_mrpfd == 0
        then (if enabled == 0 then false else true)
        else (if enabled == 0 then true else false))
    && (if enabled == 0 then true else bit_and word 0x30000 / 2 ^ 16 == size)

reads-Reads :
    (width v2esst_mode am enabled size word : ℕ)
    → reads width v2esst_mode am enabled size word ≡ true
    → Reads width v2esst_mode am enabled size word
unfolding reads
reads-Reads width v2esst_mode am enabled size word h = ground arith

reads_back : (width v2esst_mode am enabled size : ℕ) → Bool
unfolding reads
reads_back width v2esst_mode am enabled size = elim (setup_window_attributes v2esst_mode width am) [
  | none ↦ true
  | some word ↦ reads width v2esst_mode am enabled size (prefetch_bits enabled size word)
]

-- The word of each combination is read back, one test for each field that varies.
sizes_back : (width v am e : ℕ) → Bool
unfolding reads_back passes_under
sizes_back width v am e = passes_under (reads_back width v am e) 4

flags_back : (width v am : ℕ) → Bool
unfolding sizes_back passes_under
flags_back width v am = passes_under (sizes_back width v am) 2

ams_back : (width v : ℕ) → Bool
unfolding flags_back passes_under
ams_back width v = passes_under (flags_back width v) 64

all_read_back : ℕ → Bool
unfolding ams_back passes_under
all_read_back width = passes_under (ams_back width) 3

all_read_back-d16 : all_read_back d16 ≡ true
unfolding all_read_back setup_window_attributes am_bits prefetch_bits read_am
all_read_back-d16 = refl

all_read_back-d32 : all_read_back d32 ≡ true
unfolding all_read_back setup_window_attributes am_bits prefetch_bits read_am
all_read_back-d32 = refl

reads_back_table :
    (width v am e s : ℕ)
    → all_read_back width ≡ true
    → v < 3
    → am < 64
    → e < 2
    → s < 4
    → reads_back width v am e s ≡ true
unfolding all_read_back ams_back flags_back sizes_back
reads_back_table width v am e s t hv ha he hs = passes_under-lt (reads_back width v am e) 4 hs (
    passes_under-lt (sizes_back width v am) 2 he
      (passes_under-lt (flags_back width v) 64 ha (passes_under-lt (ams_back width) 3 hv t)))

prefetch_bits_flag :
    (enabled size word : ℕ)
    → prefetch_bits enabled size word ≡ prefetch_bits (if enabled == 0 then 0 else 1) size word
unfolding prefetch_bits
prefetch_bits_flag enabled size word = ground arith

am_to_attr-lt : (am : ℕ) → 64 ≤ am → am_to_attr am ≡ none
unfolding am_to_attr
am_to_attr-lt am h = ground arith

am_bits-lt : (am word : ℕ) {bits : ℕ} → am_bits am word ≡ some bits → am < 64
unfolding am_bits
am_bits-lt am word h = ground (arith, am_to_attr-lt am)

pub setup-valid :
    (v width am : ℕ) {word : ℕ}
    → setup_window_attributes v width am ≡ some word
    → (v < 3) × ((width ≡ d16) ⊎ (width ≡ d32)) × (am < 64)
unfolding setup_window_attributes
setup-valid v width am {word} h = grind (arith, am_bits-lt)

setup-Reads_flag :
    (v width am e s : ℕ) {word : ℕ}
    → e < 2
    → s < 4
    → setup_window_attributes v width am ≡ some word
    → Reads width v am e s (prefetch_bits e s word)
unfolding reads_back
setup-Reads_flag v width am e s {word} he hs h =
    reads-Reads width v am e s (prefetch_bits e s word) (rw (h, reads_back) at table)
  where
    valid : (v < 3) × ((width ≡ d16) ⊎ (width ≡ d32)) × (am < 64)
    valid = setup-valid v width am h

    read_back : (width ≡ d16) ⊎ (width ≡ d32) → all_read_back width ≡ true
    read_back (inl p) = rw p all_read_back-d16
    read_back (inr p) = rw p all_read_back-d32

    table : reads_back width v am e s ≡ true
    table = reads_back_table width v am e s (read_back valid.1) valid.0 valid.2 he hs

pub setup-Reads :
    (v width am e s : ℕ) {word : ℕ}
    → s < 4
    → setup_window_attributes v width am ≡ some word
    → Reads width v am e s (prefetch_bits e s word)
setup-Reads v width am e s {word} hs h =
    let flagged = setup-Reads_flag v width am (if e == 0 then 0 else 1) s (ground arith) hs h in
    rw (prefetch_bits_flag e s word) (ground arith)

-- The fields that are `unsigned int`, or an `enum` of four values, stay in their range.
pub record IsBounded (d : VmeMapping) : Type 0 where
  pub start : d.vme_addrl < 2 ^ 32
  pub size : d.sizel < 2 ^ 32
  pub pci : d.pci_addrl < 2 ^ 32
  pub prefetch : d.read_prefetch_size < 4

-- What a successful set-up wrote and returned.
pub record IsCreated (d : VmeMapping) (regs : Otrans) (d' : VmeMapping) : Type 0 where
  pub word : ℕ
  pub setup : setup_window_attributes d.v2esst_mode d.data_width d.am ≡ some word
  pub pci : d.pci_addrl % 65536 ≡ 0
  pub written :
      regs
      ≡ write_window
          (round_window d)
          (prefetch_bits d.read_prefetch_enabled d.read_prefetch_size word)
  pub returned : d' ≡ record (round_window d) { window_enabled = 1 }

pub create-IsCreated :
    (d : VmeMapping) (old regs : Otrans) (d' : VmeMapping)
    → tsi148_create_window d old ≡ (regs, d', success)
    → IsCreated d regs d'
unfolding tsi148_create_window round_window
create-IsCreated d old regs d' h =
    elim (Option-cases (setup_window_attributes d.v2esst_mode d.data_width d.am)) [
      | inl e ↦ absurd (ground arith)
      | inr (word, e) ↦ record {
        word = word;
        setup = e;
        pci = ground arith;
        written = ground arith;
        returned = ground arith;
      }
    ]

module _ {d : VmeMapping} {regs : Otrans} {d' : VmeMapping} (x : VmeMapping) where
  -- A window that was set up, from a descriptor with its fields in range, is read back, over whatever
  -- descriptor, with its address modifier, 2eSST mode, PCI and VME address, and as enabled.
  pub get-IsCreated :
      IsBounded d
      → IsCreated d regs d'
      → let g = tsi148_get_window_attr regs x in
        (g.am ≡ d'.am)
        × (g.v2esst_mode ≡ d'.v2esst_mode)
        × (g.window_enabled ≡ 1)
        × (g.pci_addrl ≡ d'.pci_addrl)
        × (g.vme_addrl ≡ d'.vme_addrl)
  unfolding tsi148_get_window_attr write_window round_window
  get-IsCreated b c =
      let r =
        setup-Reads d.v2esst_mode d.data_width d.am d.read_prefetch_enabled d.read_prefetch_size
          b.prefetch c.setup in
      ground arith

  -- For a descriptor with its fields in range, the size is read back 64 KB short: the end register names the last 64 KB block, and the
  -- subtraction does not add it back.
  pub get-size :
      IsBounded d
      → IsCreated d regs d'
      → (tsi148_get_window_attr regs x).sizel ≡ sub32 d'.sizel 65536
  unfolding tsi148_get_window_attr write_window round_window
  get-size b c = ground arith

  -- For a descriptor with its fields in range, the data width is read back for 16-bit windows only: the field is compared with a constant that
  -- is still shifted, so for a 32-bit window the descriptor keeps the width that it had.
  pub get-width :
      IsBounded d
      → IsCreated d regs d'
      → (tsi148_get_window_attr regs x).data_width
        ≡ (if d.data_width == d16 then d16 else x.data_width)
  unfolding tsi148_get_window_attr write_window round_window read_width
  get-width b c =
      let r =
        setup-Reads d.v2esst_mode d.data_width d.am d.read_prefetch_enabled d.read_prefetch_size
          b.prefetch c.setup in
      ground arith
