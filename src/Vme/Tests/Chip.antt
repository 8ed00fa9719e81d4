-- ===== src/Vme/Tests/Chip.antt =====
-- Tests of the chip's window registers and of the delivery of bus errors.
use ht_drivers.Base.{
  ◌+◌, ◌*◌, ◌^◌, ℕ, ◌≡◌, refl, true, false, [], ◌∷◌, some, arith, success, sub32, pos, ◌==◌,
  if◌then◌else◌,
}
use ht_drivers.Vme.Raise.{
  Vicr, IsOutcome, tsi148_generate_interrupt, tsi148_generate_interrupt-IsOutcome,
}
use ht_drivers.Vme.Types.{VmeMapping, d16, d32}
use ht_drivers.Vme.Berr.{bus_error_chk, chip_handle_vme_error, handle_vme_error}
use ht_drivers.Vme.BerrLaws.{handle_vme_error-matching, Notifies}
use ht_drivers.Vme.Chip.Codes
use ht_drivers.Vme.Chip.Am.{Attrs, attrs, am_to_attr}
use ht_drivers.Vme.Chip.Window.{
  Otrans, tsi148_create_window, tsi148_get_window_attr, round_window, setup_window_attributes,
  am_bits, mode_bits, user_bits, data_bits, size_bits, prefetch_bits, write_window,
}
use ht_drivers.Vme.Chip.WindowLaws.{
  IsBounded, IsCreated, create-IsCreated, get-IsCreated, get-size, get-width,
}
use ht_drivers.Vme.Tests.{request, zero_regs, verr, handler}

-- The request with the bus range that it was given.
abbrev placed : VmeMapping
placed = record request { pci_addrl = 0x80000000 }

abbrev chip_regs : Otrans
chip_regs = (tsi148_create_window placed zero_regs).0

abbrev set_up : VmeMapping
set_up = (tsi148_create_window placed zero_regs).1

bounded : IsBounded placed
bounded = record {
  start = omega arith;
  size = omega arith;
  pci = omega arith;
  prefetch = omega arith;
}

sets_up : tsi148_create_window placed zero_regs ≡ (chip_regs, set_up, success)
unfolding tsi148_create_window round_window setup_window_attributes am_bits mode_bits user_bits
    data_bits size_bits am_to_attr prefetch_bits write_window
sets_up = refl

created : IsCreated placed chip_regs set_up
created = create-IsCreated placed zero_regs chip_regs set_up sets_up

get-IsCreated_example :
    let g = tsi148_get_window_attr chip_regs request in
    (g.am ≡ set_up.am)
    × (g.v2esst_mode ≡ set_up.v2esst_mode)
    × (g.window_enabled ≡ 1)
    × (g.pci_addrl ≡ set_up.pci_addrl)
    × (g.vme_addrl ≡ set_up.vme_addrl)
get-IsCreated_example = get-IsCreated request bounded created

get-size_example : (tsi148_get_window_attr chip_regs request).sizel ≡ sub32 set_up.sizel 65536
get-size_example = get-size request bounded created

get-width_example :
    (tsi148_get_window_attr chip_regs request).data_width ≡ (if d32 == d16 then d16 else d32)
get-width_example = get-width request bounded created

abbrev a32_data : Attrs
a32_data = attrs Codes.a32 Codes.sct Codes.data_cycle Codes.user

supported : am_to_attr 9 ≡ some a32_data
unfolding am_to_attr
supported = refl

handle_vme_error-matching_example :
    let (v1, e) = chip_handle_vme_error verr in
    let v2 = handle_vme_error verr in
    Notifies e (handler ∷ []) [] v2.notified
    × (e.address ≡ verr.veau * 2 ^ 32 + verr.veal)
    × (v2.desc ≡ record { error = e; valid = true })
    × (v2.h_list ≡ handler ∷ [])
    × ((bus_error_chk true v2).1 ≡ false)
handle_vme_error-matching_example = handle_vme_error-matching verr (omega arith, tt)

abbrev modifier : ℕ
modifier = 9

-- Level 3 and vector 0x40, acknowledged in the second of three rounds.
abbrev acknowledged : Vicr
acknowledged = record {
  before = 0;
  polls =
      record { vicr = 0x800; left = 1 }
      ∷ record { vicr = 0; left = 0 }
      ∷ record { vicr = 0; left = 0 }
      ∷ [];
  after = 0;
  last = 0;
}

raises : tsi148_generate_interrupt (pos 3) (pos 0x40) acknowledged ≡ some (success, 0x340 ∷ [])
unfolding tsi148_generate_interrupt
raises = refl

tsi148_generate_interrupt-IsOutcome_example :
    IsOutcome
      (pos 3)
      (pos 0x40)
      acknowledged
      (tsi148_generate_interrupt (pos 3) (pos 0x40) acknowledged)
tsi148_generate_interrupt-IsOutcome_example =
    tsi148_generate_interrupt-IsOutcome (pos 3) (pos 0x40) acknowledged
