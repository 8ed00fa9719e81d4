-- ===== src/Cvorg/Clkgen/Calibration.antt =====
-- The time that the driver waits for the VCO's calibration.
use ht_drivers.Base.{ℕ, ◌+◌, ◌*◌, ◌/◌, ◌%◌, ◌≤◌, ◌<◌, ◌≡◌, not, ◌==◌, pos, arith}
use ht_drivers.Cvorg.Clkgen.Int.{flag}
use ht_drivers.Cvorg.Clkgen.Pll.{Pll, check_pll_dividers, order_dividers, swap_dividers}
use ht_drivers.Cvorg.Clkgen.Chip.{calib_interval, times_int}

-- For R = `r` that is not negative and the board's oscillator of 40 MHz, 40000 cycles a ms, the wait
-- of some tens of ms is long enough for 4400 calibration cycles of 2 * R reference cycles each, and
-- by less than 11 ms too long.
calib_interval-enough :
    (r : ℕ)
    → (t : ℕ) × (calib_interval (pos r) 40000000 ≡ pos t)
      × (8800 * r ≤ 40000 * (10 * t))
      × (40000 * (10 * t) < 8800 * r + 40000 * 11)
unfolding calib_interval times_int
calib_interval-enough r =
    let ms = 8800 * r / 40000 + flag (not (8800 * r % 40000 == 0)) in
    (ms / 10 + flag (not (ms % 10 == 0)), ground arith, ground arith, ground arith)

-- With R = 1 the wait is computed for the 0 that stands for a bypass, and no tens of ms are waited.
calib_interval-bypass :
    (pll : Pll) → pll.r ≡ pos 1 → calib_interval (check_pll_dividers pll).r 40000000 ≡ pos 0
unfolding check_pll_dividers order_dividers swap_dividers calib_interval times_int
calib_interval-bypass pll e = rw e (ground arith)
