-- ===== src/Vme/Tests/Ces.antt =====
-- A test of the CES interface on a window that is there.
use ht_drivers.Base.{◌≡◌, refl, true, some}
use ht_drivers.Vme.Am
use ht_drivers.Vme.Tests.{kernel, created}
use ht_drivers.Vme.Window.Create.{
  vme_create_window, create_locked, create_resource, resource_done, create_map, create_chip,
  chip_done, out_unmap, out_release, out_free, align_address, round_size,
}
use ht_drivers.Vme.Window.State.{with_lock, lock_window, unlock_window}
use ht_drivers.Vme.Window.Mappings.{add_mapping}
use ht_drivers.Vme.Window.Find.{
  find_mapping_for, vme_find_mapping, place_mapping, vme_mapping_sanity_check, sane, find_window,
  search_done, search_windows, window_fits, unlock_reply, attach, create_for,
}
use ht_drivers.Vme.Chip.Am.{am_to_attr, sub64hi, add64hi}
use ht_drivers.Vme.Chip.Window.{
  tsi148_create_window, round_window, setup_window_attributes, am_bits, mode_bits, user_bits,
  data_bits, size_bits, prefetch_bits, write_window,
}
use ht_drivers.Vme.Ces.{Ces, Request, IsServed, find_controller, find_controller-placed}

abbrev client : Ces
client = record { bridge = created; descriptors = 0 }

abbrev wanted : Request
wanted = record {
  vmeaddr = 0x8003000;
  len = 0x1000;
  am = Am.a32_user_data_sct;
  size = 4;
  rdpref = 0;
}

maps : (find_controller kernel true wanted client).1 ≡ some 0xf0003000
unfolding find_controller vme_find_mapping vme_create_window create_locked with_lock lock_window
    create_resource resource_done create_map create_chip chip_done tsi148_create_window round_window
    setup_window_attributes am_bits mode_bits user_bits data_bits size_bits am_to_attr prefetch_bits
    write_window out_unmap out_release out_free unlock_window align_address round_size add64hi
    sub64hi find_mapping_for sane vme_mapping_sanity_check find_window search_done search_windows
    window_fits unlock_reply attach add_mapping create_for place_mapping
maps = refl

find_controller-placed_example :
    IsServed kernel wanted (find_controller kernel true wanted client).0.bridge 0xf0003000
find_controller-placed_example = find_controller-placed kernel true wanted client 0xf0003000 maps
