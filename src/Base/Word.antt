-- ===== src/Base/Word.antt =====
-- 32-bit unsigned arithmetic with its wrap-around, the C `int`, and error codes.
use Prim.Native.Nat.{ℕ, zero, suc, ◌+◌, ◌-◌, ◌%◌}
use mathlib.Core.Bool.{Bool, true, false}

-- `unsigned int` sums and differences.
abbrev pub add32 : ℕ → ℕ → ℕ
add32 a b = (a + b) % 4294967296

abbrev pub sub32 : ℕ → ℕ → ℕ
sub32 a b = (a + 4294967296 - b) % 4294967296

-- `x & 0xffff` and `x & ~0xffff`.
abbrev pub low16 : ℕ → ℕ
low16 x = x % 65536

abbrev pub clear16 : ℕ → ℕ
clear16 x = x - x % 65536

-- A C `int` whose overflow the code does not reach: `negsuc n` is -(n + 1).
pub data ℤ : Type 0 where
  pos : ℕ → ℤ
  negsuc : ℕ → ℤ

abbrev pub incr : ℤ → ℤ
incr (pos n) = pos (suc n)
incr (negsuc zero) = pos 0
incr (negsuc (suc n)) = negsuc n

abbrev pub decr : ℤ → ℤ
decr (pos zero) = negsuc 0
decr (pos (suc n)) = pos n
decr (negsuc n) = negsuc (suc n)

abbrev pub is_positive : ℤ → Bool
is_positive (pos zero) = false
is_positive (pos (suc n)) = true
is_positive (negsuc n) = false

abbrev pub is_zero : ℤ → Bool
is_zero (pos zero) = true
is_zero (pos (suc n)) = false
is_zero (negsuc n) = false

-- The negative error codes that the drivers return; `other` is one that a callee hands up.
pub data Errno : Type 0 where
  einval enomem ebusy erestartsys efault enoioctlcmd edeadlk etime eagain : Errno
  other : ℕ → Errno

-- A return code: zero, or an error.
pub data Rc : Type 0 where
  success : Rc
  failure : Errno → Rc

pub data Result {ℓ} (A : Type ℓ) : Type ℓ where
  ok : A → Result A
  err : Errno → Result A
