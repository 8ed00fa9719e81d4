-- ===== src/Vme/Chip/Am.antt =====
-- vmebridge/driver/tsi148.c: address modifiers against the chip's address size, transfer mode, user
-- and data access; the upper words of 64-bit sums and differences.
use ht_drivers.Base.{ℕ, Option, none, some, ◌==◌, ltb, add32, sub32, if◌then◌else◌}
use ht_drivers.Vme.Am
use ht_drivers.Vme.Chip.Codes

pub record Attrs : Type 0 where
  pub addr_size : ℕ
  pub transfer_mode : ℕ
  pub user_access : ℕ
  pub data_access : ℕ

abbrev pub attrs : ℕ → ℕ → ℕ → ℕ → Attrs
attrs size mode data_access user_access = record {
  addr_size = size;
  transfer_mode = mode;
  user_access = user_access;
  data_access = data_access;
}

-- `none` is the return value -1.
unfoldable pub am_to_attr : ℕ → Option Attrs
am_to_attr am =
    if am == Am.a16_user
    then some (attrs Codes.a16 Codes.sct Codes.data_cycle Codes.user)
    else if am == Am.a16_sup
    then some (attrs Codes.a16 Codes.sct Codes.data_cycle Codes.super)
    else if am == Am.a24_user_mblt
    then some (attrs Codes.a24 Codes.mblt Codes.data_cycle Codes.user)
    else if am == Am.a24_user_data_sct
    then some (attrs Codes.a24 Codes.sct Codes.data_cycle Codes.user)
    else if am == Am.a24_user_prg_sct
    then some (attrs Codes.a24 Codes.sct Codes.prog Codes.user)
    else if am == Am.a24_user_blt
    then some (attrs Codes.a24 Codes.blt Codes.data_cycle Codes.user)
    else if am == Am.a24_sup_mblt
    then some (attrs Codes.a24 Codes.mblt Codes.data_cycle Codes.super)
    else if am == Am.a24_sup_data_sct
    then some (attrs Codes.a24 Codes.sct Codes.data_cycle Codes.super)
    else if am == Am.a24_sup_prg_sct
    then some (attrs Codes.a24 Codes.sct Codes.prog Codes.super)
    else if am == Am.a24_sup_blt
    then some (attrs Codes.a24 Codes.blt Codes.data_cycle Codes.super)
    else if am == Am.a32_user_mblt
    then some (attrs Codes.a32 Codes.mblt Codes.data_cycle Codes.user)
    else if am == Am.a32_user_data_sct
    then some (attrs Codes.a32 Codes.sct Codes.data_cycle Codes.user)
    else if am == Am.a32_user_prg_sct
    then some (attrs Codes.a32 Codes.sct Codes.prog Codes.user)
    else if am == Am.a32_user_blt
    then some (attrs Codes.a32 Codes.blt Codes.data_cycle Codes.user)
    else if am == Am.a32_sup_mblt
    then some (attrs Codes.a32 Codes.mblt Codes.data_cycle Codes.super)
    else if am == Am.a32_sup_data_sct
    then some (attrs Codes.a32 Codes.sct Codes.data_cycle Codes.super)
    else if am == Am.a32_sup_prg_sct
    then some (attrs Codes.a32 Codes.sct Codes.prog Codes.super)
    else if am == Am.a32_sup_blt
    then some (attrs Codes.a32 Codes.blt Codes.data_cycle Codes.super)
    else if am == Am.a64_sct
    then some (attrs Codes.a64 Codes.sct Codes.data_cycle Codes.super)
    else if am == Am.a64_blt
    then some (attrs Codes.a64 Codes.blt Codes.data_cycle Codes.super)
    else if am == Am.a64_mblt
    then some (attrs Codes.a64 Codes.mblt Codes.data_cycle Codes.super)
    else if am == Am.cr_csr
    then some (attrs Codes.crcsr Codes.sct Codes.data_cycle Codes.user)
    else none

-- What a user's or a supervisor's single, block or multiplexed transfer is called in a space.
abbrev pick_am : Attrs → (data_sct prg_sct blt mblt : ℕ) → Option ℕ
pick_am a data_sct prg_sct blt mblt =
    if a.transfer_mode == Codes.sct
    then some (if a.data_access == Codes.data_cycle then data_sct else prg_sct)
    else if a.transfer_mode == Codes.blt
    then some blt
    else if a.transfer_mode == Codes.mblt
    then some mblt
    else none

-- `none` leaves the caller's variable as it was.
unfoldable pub attr_to_am : Attrs → Option ℕ
attr_to_am a =
    if a.addr_size == Codes.a16
    then some (if a.user_access == Codes.user then Am.a16_user else Am.a16_sup)
    else if a.addr_size == Codes.a24
    then if a.user_access == Codes.user
      then pick_am a Am.a24_user_data_sct Am.a24_user_prg_sct Am.a24_user_blt Am.a24_user_mblt
      else if a.user_access == Codes.super
      then pick_am a Am.a24_sup_data_sct Am.a24_sup_prg_sct Am.a24_sup_blt Am.a24_sup_mblt
      else none
    else if a.addr_size == Codes.a32
    then if a.user_access == Codes.user
      then pick_am a Am.a32_user_data_sct Am.a32_user_prg_sct Am.a32_user_blt Am.a32_user_mblt
      else if a.user_access == Codes.super
      then pick_am a Am.a32_sup_data_sct Am.a32_sup_prg_sct Am.a32_sup_blt Am.a32_sup_mblt
      else none
    else if a.addr_size == Codes.a64
    then if a.transfer_mode == Codes.sct
      then some Am.a64_sct
      else if a.transfer_mode == Codes.blt
      then some Am.a64_blt
      else if a.transfer_mode == Codes.mblt
      then some Am.a64_mblt
      else none
    else if a.addr_size == Codes.crcsr
    then some Am.cr_csr
    else none

-- The upper word of hi0:lo0 - hi1:lo1 and of hi0:lo0 + hi1:lo1.
unfoldable pub sub64hi : (lo0 hi0 lo1 hi1 : ℕ) → ℕ
sub64hi lo0 hi0 lo1 hi1 = if ltb lo0 lo1 then sub32 (sub32 hi0 hi1) 1 else sub32 hi0 hi1

unfoldable pub add64hi : (lo0 hi0 lo1 hi1 : ℕ) → ℕ
add64hi lo0 hi0 lo1 hi1 = if ltb (add32 lo0 lo1) lo1 then add32 (add32 hi0 hi1) 1 else add32 hi0 hi1
