-- ===== src/Vme/Chip/AmLaws.antt =====
-- The conversions between address modifiers and chip attributes.
use ht_drivers.Base.{ℕ, ◌+◌, ◌*◌, ◌%◌, ◌^◌, ◌<◌, ◌≡◌, some, arith, add32, sub32}
use ht_drivers.Vme.Chip.Am.{Attrs, am_to_attr, attr_to_am, sub64hi, add64hi}

-- An address modifier that the chip supports is recovered from its attributes.
attr_to_am-am_to_attr : (am : ℕ) (a : Attrs) → am_to_attr am ≡ some a → attr_to_am a ≡ some am
unfolding am_to_attr attr_to_am
attr_to_am-am_to_attr am a h = ground arith

-- For four words below 2^32, the upper word and the 32-bit sum of the lower ones are the sum modulo
-- 2^64.
add64hi-add :
    (lo0 hi0 lo1 hi1 : ℕ)
    → lo0 < 2 ^ 32
    → hi0 < 2 ^ 32
    → lo1 < 2 ^ 32
    → hi1 < 2 ^ 32
    → add64hi lo0 hi0 lo1 hi1 * 2 ^ 32 + add32 lo0 lo1
      ≡ (hi0 * 2 ^ 32 + lo0 + (hi1 * 2 ^ 32 + lo1)) % 2 ^ 64
unfolding add64hi
add64hi-add lo0 hi0 lo1 hi1 p q r s = ground arith

-- For four words below 2^32, the upper word and the 32-bit difference of the lower ones give the first
-- number back when the second is added, modulo 2^64.
pub sub64hi-sub :
    (lo0 hi0 lo1 hi1 : ℕ)
    → lo0 < 2 ^ 32
    → hi0 < 2 ^ 32
    → lo1 < 2 ^ 32
    → hi1 < 2 ^ 32
    → (sub64hi lo0 hi0 lo1 hi1 * 2 ^ 32 + sub32 lo0 lo1 + (hi1 * 2 ^ 32 + lo1)) % 2 ^ 64
      ≡ hi0 * 2 ^ 32 + lo0
unfolding sub64hi
sub64hi-sub lo0 hi0 lo1 hi1 p q r s = ground arith
