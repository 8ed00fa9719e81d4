-- ===== src/Cvorg/Clkgen/Pll.antt =====
-- cvorg/include/ad9516.h and cvorg/driver/clkgen.c: the PLL's parameters and the checks on them.
use ht_drivers.Base.{◌&&◌, ◌||◌, not, if◌then◌else◌, ℤ, pos, Rc, success, failure, einval}
use ht_drivers.Cvorg.Clkgen.Int.{equals, gtz, is_odd}

-- `struct ad9516_pll`.
pub record Pll : Type 0 where
  pub a : ℤ
  pub b : ℤ
  pub p : ℤ
  pub r : ℤ
  pub dvco : ℤ
  pub d1 : ℤ
  pub d2 : ℤ
  pub external : ℤ

-- A divider of 1 is written as 0, which stands for a bypass.
abbrev pub bypass_one : ℤ → ℤ
bypass_one x = if equals x 1 then pos 0 else x

unfoldable pub swap_dividers : Pll → Pll
swap_dividers pll = record pll { d1 = pll.d2; d2 = pll.d1 }

-- The order of the two dividers, after the bypasses are zero.
unfoldable pub order_dividers : Pll → Pll
unfolding swap_dividers
order_dividers pll =
    if equals pll.d1 0
    then (if equals pll.d2 0 then pll else record pll { d1 = pll.d2; d2 = pos 0 })
    else if is_odd pll.d1 && not (is_odd pll.d2)
    then swap_dividers pll
    else pll

unfoldable pub check_pll_dividers : Pll → Pll
unfolding order_dividers
check_pll_dividers pll = order_dividers (record pll {
  r = bypass_one pll.r;
  dvco = bypass_one pll.dvco;
  d1 = bypass_one pll.d1;
  d2 = bypass_one pll.d2;
})

-- -EINVAL stands for `pseterr(EINVAL)` with the return value 1.
unfoldable pub clkgen_check_pll : Pll → Rc
clkgen_check_pll pll =
    if gtz pll.a pll.b
      || gtz pll.a (pos 63)
      || (not (equals pll.p 16) && not (equals pll.p 32))
      || not (gtz pll.b (pos 0))
      || gtz pll.b (pos 8191)
      || not (gtz pll.r (pos 0))
      || gtz pll.r (pos 16383)
    then failure einval
    else success
