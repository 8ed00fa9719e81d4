-- ===== src/Vme/Chip/Window.antt =====
-- vmebridge/driver/tsi148.c: the registers of one outbound window, and the functions that set it up,
-- read it back and clear it. A call writes the window's registers and its argument's descriptor.
use ht_drivers.Base.{
  ℕ, ◌-◌, ◌*◌, ◌/◌, ◌%◌, ◌^◌, ◌||◌, ◌&&◌, Option, none, some, bit_and, bit_or, ◌==◌, ltb, leb,
  if◌then◌else◌, add32, sub32, low16, clear16, Rc, success, failure, einval,
}
use ht_drivers.Vme.Types.{VmeMapping, d16, d32}
use ht_drivers.Vme.Chip.Codes
use ht_drivers.Vme.Chip.Am.{Attrs, am_to_attr, attr_to_am, sub64hi, add64hi}

-- `struct tsi148_otrans`.
pub record Otrans : Type 0 where
  pub otsau : ℕ
  pub otsal : ℕ
  pub oteau : ℕ
  pub oteal : ℕ
  pub otofu : ℕ
  pub otofl : ℕ
  pub otbs : ℕ
  pub otat : ℕ

abbrev pub otat_en : ℕ
otat_en = 0x80000000

abbrev pub otat_mrpfd : ℕ
otat_mrpfd = 0x40000

abbrev pub otat_sup : ℕ
otat_sup = 0x20

abbrev pub otat_pgm : ℕ
otat_pgm = 0x10

-- The checks on the four fields that `am_to_attr` fills in, each with the bits that it adds.
unfoldable pub size_bits : Attrs → ℕ → Option ℕ
size_bits a word =
    if ltb a.addr_size 3
      || (a.addr_size == Codes.a64)
      || (a.addr_size == Codes.crcsr)
      || (leb Codes.user1 a.addr_size && leb a.addr_size Codes.user4)
    then some (bit_or word (bit_and a.addr_size 0xf))
    else none

unfoldable pub data_bits : Attrs → ℕ → Option ℕ
unfolding size_bits
data_bits a word =
    if a.data_access == Codes.prog
    then size_bits a (bit_or word otat_pgm)
    else if a.data_access == Codes.data_cycle
    then size_bits a word
    else none

unfoldable pub user_bits : Attrs → ℕ → Option ℕ
unfolding data_bits
user_bits a word =
    if a.user_access == Codes.super
    then data_bits a (bit_or word otat_sup)
    else if a.user_access == Codes.user
    then data_bits a word
    else none

unfoldable pub mode_bits : Attrs → ℕ → Option ℕ
unfolding user_bits
mode_bits a word =
    if ltb a.transfer_mode 6
    then user_bits a (bit_or word (bit_and (a.transfer_mode * 2 ^ 8) 0x700))
    else none

unfoldable pub am_bits : ℕ → ℕ → Option ℕ
unfolding mode_bits am_to_attr
am_bits am word = elim (am_to_attr am) [ none ↦ none | some a ↦ mode_bits a word ]

-- The attribute word, or `none` for -EINVAL.
unfoldable pub setup_window_attributes : (v2esst_mode data_width am : ℕ) → Option ℕ
setup_window_attributes v2esst_mode data_width am =
    let word = bit_and (v2esst_mode * 2 ^ 11) 0x3800 in
    if ltb v2esst_mode 3
    then if data_width == d16
      then am_bits am (bit_or word (bit_and (Codes.dw_16 * 2 ^ 6) 0xc0))
      else if data_width == d32
      then am_bits am (bit_or word (bit_and (Codes.dw_32 * 2 ^ 6) 0xc0))
      else none
    else none

-- The word with the enable bit and the read prefetch settings.
unfoldable pub prefetch_bits : (enabled size word : ℕ) → ℕ
prefetch_bits enabled size word =
    let word = bit_or word otat_en in
    if enabled == 0
    then bit_or word otat_mrpfd
    else bit_or (bit_and word (0xffffffff - otat_mrpfd)) (bit_and (size * 2 ^ 16) 0x30000)

-- The window's own rounding of the VME address and the size.
unfoldable pub round_window : VmeMapping → VmeMapping
round_window desc = record desc {
  vme_addrl = if low16 desc.vme_addrl == 0 then desc.vme_addrl else clear16 desc.vme_addrl;
  sizel =
      if low16 desc.sizel == 0
      then desc.sizel
      else clear16 (add32 (add32 desc.vme_addrl desc.sizel) 0x10000);
}

-- The register writes, for an attribute word.
unfoldable pub write_window : VmeMapping → ℕ → Otrans
write_window desc word = record {
  otsau = desc.pci_addru;
  otsal = clear16 desc.pci_addrl;
  oteau = add64hi desc.pci_addrl desc.pci_addru desc.sizel desc.sizeu;
  oteal = clear16 (sub32 (add32 desc.pci_addrl desc.sizel) 1);
  otofu = sub64hi desc.vme_addrl desc.vme_addru desc.pci_addrl desc.pci_addru;
  otofl = sub32 desc.vme_addrl desc.pci_addrl;
  otbs = desc.bcast_select % 2 ^ 20;
  otat = word;
}

unfoldable pub tsi148_create_window : VmeMapping → Otrans → Otrans × VmeMapping × Rc
tsi148_create_window d regs =
    let desc = round_window d in
    if low16 desc.pci_addrl == 0
    then elim (setup_window_attributes desc.v2esst_mode desc.data_width desc.am) [
      | none ↦ (regs, desc, failure einval)
      | some word ↦ (
        write_window desc (prefetch_bits desc.read_prefetch_enabled desc.read_prefetch_size word),
        record desc { window_enabled = 1 },
        success,
      )
    ]
    else (regs, desc, failure einval)

unfoldable pub tsi148_remove_window : VmeMapping → Otrans × VmeMapping
tsi148_remove_window desc = (
  record { otsau = 0; otsal = 0; oteau = 0; oteal = 0; otofu = 0; otofl = 0; otbs = 0; otat = 0 },
  record desc { window_enabled = 0 },
)

-- The four fields that encode the address modifier.
unfoldable pub read_attrs : ℕ → Attrs
read_attrs word = record {
  addr_size = bit_and word 0xf;
  transfer_mode = bit_and word 0x700 / 2 ^ 8;
  user_access = if bit_and word otat_sup == 0 then Codes.user else Codes.super;
  data_access = if bit_and word otat_pgm == 0 then Codes.data_cycle else Codes.prog;
}

-- `int am = -1`, read as an `enum` where no branch sets it.
unfoldable pub read_am : ℕ → ℕ
unfolding read_attrs attr_to_am
read_am word = elim (attr_to_am (read_attrs word)) [ none ↦ 0xffffffff | some am ↦ am ]

-- The `switch` compares the shifted field with the unshifted constants 0 << 6 and 1 << 6.
unfoldable pub read_width : ℕ → ℕ → ℕ
read_width word old =
    let field = bit_and word 0xc0 / 2 ^ 6 in
    if field == 0 then d16 else if field == 64 then d32 else old

unfoldable pub tsi148_get_window_attr : Otrans → VmeMapping → VmeMapping
tsi148_get_window_attr regs desc = record desc {
  window_enabled = if bit_and regs.otat otat_en == 0 then desc.window_enabled else 1;
  read_prefetch_enabled =
      if bit_and regs.otat otat_mrpfd == 0 then 1 else desc.read_prefetch_enabled;
  read_prefetch_size = bit_and regs.otat 0x30000 / 2 ^ 16;
  v2esst_mode = bit_and regs.otat 0x3800 / 2 ^ 11;
  data_width = read_width regs.otat desc.data_width;
  bcast_select = regs.otbs;
  am = read_am regs.otat;
  pci_addrl = regs.otsal;
  pci_addru = regs.otsau;
  sizel = sub32 regs.oteal regs.otsal;
  sizeu = sub64hi regs.oteal regs.oteau regs.otsal regs.otsau;
  vme_addrl = add32 regs.otofl regs.otsal;
  vme_addru =
      if (read_attrs regs.otat).addr_size == Codes.a64
      then add64hi regs.otofl regs.otofu regs.otsal regs.otsau
      else 0;
}
