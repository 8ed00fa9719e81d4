-- ===== src/Cvorg/Clkgen/Chip.antt =====
-- cvorg/driver/clkgen.c: reading and writing the PLL's parameters, and the set-up sequences.
use ht_drivers.Base.{
  ℕ, suc, ◌+◌, ◌-◌, ◌*◌, ◌/◌, ◌%◌, Bool, ◌&&◌, not, ◌∷◌, ◌==◌, leb, if◌then◌else◌, ℤ, pos, negsuc,
  bit_and,
}
use ht_drivers.Cvorg.Clkgen.Int.{flag, neg, equals, low_bits, div_up}
use ht_drivers.Cvorg.Clkgen.Reg
use ht_drivers.Cvorg.Clkgen.Pll.{Pll}
use ht_drivers.Cvorg.Clkgen.Spi.{Board, Clkgen, clkgen_rd, clkgen_wr, clkgen_or, clkgen_and}

-- 4400 * R * 2 calibration cycles in tens of ms, for a reference in Hz.
unfoldable pub times_int : ℕ → ℤ → ℤ
times_int n (pos a) = pos (n * a)
times_int n (negsuc a) = neg (n * suc a)

unfoldable pub calib_interval : ℤ → ℕ → ℤ
unfolding times_int
calib_interval r freqref =
    let cycles_per_ms = freqref / 1000 + flag (not (freqref % 1000 == 0)) in
    div_up (div_up (times_int 8800 r) cycles_per_ms) 10

abbrev pub suc_int : ℤ → ℤ
suc_int (pos a) = pos (suc a)
suc_int (negsuc a) = neg a

unfoldable pub calib_vco_sleep : Board → ℤ → ℕ → Clkgen → Clkgen × Bool
unfolding calib_interval
calib_vco_sleep board r freqref c =
    let ticks = suc_int (calib_interval r freqref) in
    let (c1, val) = clkgen_rd board Reg.pllreadback (record c { slept = ticks ∷ c.slept }) in
    (c1, not (val / 64 % 2 == 0))

unfoldable pub clkgen_read_dvco : Board → Clkgen → Clkgen × ℕ
clkgen_read_dvco board c =
    let (c1, dvco) = clkgen_rd board Reg.vco_divider c in
    let (c2, inputclks) = clkgen_rd board Reg.input_clks c1 in
    let retval = dvco % 8 + 2 in
    (c2, if not (inputclks % 2 == 0) then 1 else if leb 7 retval then 1 else retval)

-- `nr` is 1 or 2, else it is set to 1.
unfoldable pub clkgen_read_d : Board → (offset nr : ℕ) → Clkgen → Clkgen × ℕ
clkgen_read_d board offset nr c =
    let (c1, bypass) = clkgen_rd board (offset + 3) c in
    let nr = if leb 1 nr && leb nr 2 then nr else 1 in
    let (c2, val) = clkgen_rd board (offset + (nr - 1)) c1 in
    let bypassed = if nr == 1 then bit_and bypass 16 else bit_and bypass 32 in
    (c2, if bypassed == 0 then val / 16 % 16 + val % 16 + 2 else 1)

unfoldable pub clkgen_read_a : Board → Clkgen → Clkgen × ℕ
clkgen_read_a board c = let (c1, val) = clkgen_rd board Reg.acount c in (c1, val % 64)

unfoldable pub clkgen_read_b : Board → Clkgen → Clkgen × ℕ
clkgen_read_b board c =
    let (c1, lsb) = clkgen_rd board Reg.bcount_lsb c in
    let (c2, msb) = clkgen_rd board Reg.bcount_msb c1 in (c2, lsb + msb % 32 * 256)

unfoldable pub clkgen_read_r : Board → Clkgen → Clkgen × ℕ
clkgen_read_r board c =
    let (c1, lsb) = clkgen_rd board Reg.rcount_lsb c in
    let (c2, msb) = clkgen_rd board Reg.rcount_msb c1 in (c2, lsb + msb % 64 * 256)

unfoldable pub clkgen_read_p : Board → Clkgen → Clkgen × ℕ
clkgen_read_p board c =
    let (c1, val) = clkgen_rd board Reg.pll1 c in
    let prescaler = val % 8 in (c1, if prescaler == 5 then 16 else if prescaler == 6 then 32 else 1)

-- The descriptor keeps its `external` field.
unfoldable pub get_pll_conf : Board → Pll → Clkgen → Clkgen × Pll
unfolding clkgen_read_a clkgen_read_b clkgen_read_r clkgen_read_p clkgen_read_dvco clkgen_read_d
get_pll_conf board pll c =
    let (c1, a) = clkgen_read_a board c in
    let (c2, b) = clkgen_read_b board c1 in
    let (c3, r) = clkgen_read_r board c2 in
    let (c4, p) = clkgen_read_p board c3 in
    let (c5, dvco) = clkgen_read_dvco board c4 in
    let (c6, d1) = clkgen_read_d board Reg.cmosdiv3_1 1 c5 in
    let (c7, d2) = clkgen_read_d board Reg.cmosdiv3_1 2 c6 in
    (
      c7,
      record pll {
        a = pos a;
        b = pos b;
        r = pos r;
        p = pos p;
        dvco = pos dvco;
        d1 = pos d1;
        d2 = pos d2;
      },
    )

unfoldable pub clkgen_write_a : Board → ℤ → Clkgen → Clkgen
clkgen_write_a board a c = clkgen_wr board Reg.acount (low_bits 6 a) c

-- `b & 0xff` and `(b >> 8) & 0x3f`.
unfoldable pub clkgen_write_b : Board → ℤ → Clkgen → Clkgen
clkgen_write_b board b c =
    clkgen_wr board Reg.bcount_msb (low_bits 14 b / 256)
      (clkgen_wr board Reg.bcount_lsb (low_bits 8 b) c)

unfoldable pub clkgen_write_r : Board → ℤ → Clkgen → Clkgen
clkgen_write_r board r c =
    clkgen_wr board Reg.rcount_msb (low_bits 14 r / 256)
      (clkgen_wr board Reg.rcount_lsb (low_bits 8 r) c)

unfoldable pub clkgen_write_p : Board → ℤ → Clkgen → Clkgen
clkgen_write_p board p c =
    clkgen_or board Reg.pll1 (if equals p 16 then 5 else 6) (clkgen_and board Reg.pll1 0xf8 c)

-- A VCO divider that is out of range is written as 2, and so is a bypass of the internal clock.
abbrev pub vco_value : ℤ → ℕ
vco_value (pos a) = if leb 2 a && leb a 6 then a else 2
vco_value (negsuc a) = 2

unfoldable pub write_vco : Board → Pll → Clkgen → Clkgen × Pll
write_vco board pll c = (
  clkgen_and board Reg.input_clks 0xfe
      (clkgen_wr board Reg.vco_divider ((vco_value pll.dvco - 2) % 8) c),
  record pll { dvco = pos (vco_value pll.dvco) },
)

unfoldable pub clkgen_write_dvco : Board → Pll → Clkgen → Clkgen × Pll
unfolding write_vco
clkgen_write_dvco board pll c =
    if equals pll.dvco 0 && not (equals pll.external 0)
    then (clkgen_or board Reg.input_clks 1 c, pll)
    else write_vco board pll c
