-- ===== src/Cvorg/Clkgen/Int.antt =====
-- C `int` arithmetic of the clock generator: `%`, `&` and rounded division of signed values.
use ht_drivers.Base.{
  ℕ, suc, ◌+◌, ◌-◌, ◌/◌, ◌%◌, ◌^◌, Bool, true, false, not, ◌==◌, leb, ltb, if◌then◌else◌, ℤ, pos,
  negsuc,
}

abbrev pub flag : Bool → ℕ
flag b = if b then 1 else 0

-- a - b of two numbers that are not negative.
abbrev pub diff : ℕ → ℕ → ℤ
diff a b = if leb b a then pos (a - b) else negsuc (b - a - 1)

abbrev pub neg : ℕ → ℤ
neg n = diff 0 n

-- `x == n`, for a constant.
abbrev pub equals : ℤ → ℕ → Bool
equals (pos a) n = a == n
equals (negsuc a) n = false

-- `x > y`.
abbrev pub gtz : ℤ → ℤ → Bool
gtz (pos a) (pos b) = ltb b a
gtz (pos a) (negsuc b) = true
gtz (negsuc a) (pos b) = false
gtz (negsuc a) (negsuc b) = ltb a b

-- `x % 2` as a truth value.
abbrev pub is_odd : ℤ → Bool
is_odd (pos a) = a % 2 == 1
is_odd (negsuc a) = a % 2 == 0

-- The `w` lowest bits in two's complement.
abbrev pub low_bits : ℕ → ℤ → ℕ
low_bits w (pos a) = a % 2 ^ w
low_bits w (negsuc a) = 2 ^ w - 1 - a % 2 ^ w

-- `x / n + !!(x % n)`, where division goes towards zero.
abbrev pub div_up : ℤ → ℕ → ℤ
div_up (pos a) n = pos (a / n + flag (not (a % n == 0)))
div_up (negsuc a) n = diff (flag (not (suc a % n == 0))) (suc a / n)
