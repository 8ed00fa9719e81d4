-- ===== src/Vme/Am.antt =====
-- vmebridge/driver/vmebus.h, `enum vme_address_modifier`: plain numbers, as a C `enum` holds any.
use ht_drivers.Base.{ℕ}

abbrev pub a64_mblt : ℕ
a64_mblt = 0x00

abbrev pub a64_sct : ℕ
a64_sct = 0x01

abbrev pub a64_blt : ℕ
a64_blt = 0x03

abbrev pub a64_lck : ℕ
a64_lck = 0x04

abbrev pub a32_lck : ℕ
a32_lck = 0x05

abbrev pub a32_user_mblt : ℕ
a32_user_mblt = 0x08

abbrev pub a32_user_data_sct : ℕ
a32_user_data_sct = 0x09

abbrev pub a32_user_prg_sct : ℕ
a32_user_prg_sct = 0x0a

abbrev pub a32_user_blt : ℕ
a32_user_blt = 0x0b

abbrev pub a32_sup_mblt : ℕ
a32_sup_mblt = 0x0c

abbrev pub a32_sup_data_sct : ℕ
a32_sup_data_sct = 0x0d

abbrev pub a32_sup_prg_sct : ℕ
a32_sup_prg_sct = 0x0e

abbrev pub a32_sup_blt : ℕ
a32_sup_blt = 0x0f

abbrev pub v2e6u : ℕ
v2e6u = 0x20

abbrev pub v2e3u : ℕ
v2e3u = 0x21

abbrev pub a16_user : ℕ
a16_user = 0x29

abbrev pub a16_lck : ℕ
a16_lck = 0x2c

abbrev pub a16_sup : ℕ
a16_sup = 0x2d

abbrev pub cr_csr : ℕ
cr_csr = 0x2f

abbrev pub a40_sct : ℕ
a40_sct = 0x34

abbrev pub a40_lck : ℕ
a40_lck = 0x35

abbrev pub a40_blt : ℕ
a40_blt = 0x37

abbrev pub a24_user_mblt : ℕ
a24_user_mblt = 0x38

abbrev pub a24_user_data_sct : ℕ
a24_user_data_sct = 0x39

abbrev pub a24_user_prg_sct : ℕ
a24_user_prg_sct = 0x3a

abbrev pub a24_user_blt : ℕ
a24_user_blt = 0x3b

abbrev pub a24_sup_mblt : ℕ
a24_sup_mblt = 0x3c

abbrev pub a24_sup_data_sct : ℕ
a24_sup_data_sct = 0x3d

abbrev pub a24_sup_prg_sct : ℕ
a24_sup_prg_sct = 0x3e

abbrev pub a24_sup_blt : ℕ
a24_sup_blt = 0x3f
