-- ===== src/Vme/Types.antt =====
-- vmebridge/driver/vmebus.h: the descriptor that users and the driver share.
use ht_drivers.Base.{ℕ, ℤ}

abbrev pub d16 : ℕ
d16 = 16

abbrev pub d32 : ℕ
d32 = 32

-- `struct vme_mapping`, for a hardware window and for a mapping on top of one. Pointers are numbers,
-- 0 is NULL. Each `unsigned int` field is below 2 ^ 32.
pub record VmeMapping : Type 0 where
  pub window_num : ℤ
  pub kernel_va : ℕ
  pub user_va : ℕ
  pub fd : ℤ
  pub window_enabled : ℕ
  pub data_width : ℕ
  pub am : ℕ
  pub read_prefetch_enabled : ℕ
  pub read_prefetch_size : ℕ
  pub v2esst_mode : ℕ
  pub bcast_select : ℕ
  pub pci_addru : ℕ
  pub pci_addrl : ℕ
  pub sizeu : ℕ
  pub sizel : ℕ
  pub vme_addru : ℕ
  pub vme_addrl : ℕ
