-- ===== src/Cvorg/Clkgen/Setup.antt =====
-- cvorg/driver/clkgen.c: the channel dividers, and the two sequences that set the chip up.
use ht_drivers.Base.{
  ℕ, suc, ◌+◌, ◌-◌, ◌*◌, ◌/◌, ◌%◌, ◌&&◌, List, [], ◌∷◌, ◌==◌, leb, if◌then◌else◌, ℤ, pos, negsuc,
  Rc, success, failure, eagain,
}
use ht_drivers.Cvorg.Clkgen.Int.{diff, neg, equals, low_bits}
use ht_drivers.Cvorg.Clkgen.Reg
use ht_drivers.Cvorg.Clkgen.Pll.{Pll, check_pll_dividers}
use ht_drivers.Cvorg.Clkgen.Spi.{Board, Clkgen, clkgen_wr, clkgen_or, clkgen_and}
use ht_drivers.Cvorg.Clkgen.Chip.{
  calib_vco_sleep, clkgen_write_a, clkgen_write_b, clkgen_write_r, clkgen_write_p,
  clkgen_write_dvco,
}

-- d - 2, and a half of it rounded away from zero and towards zero.
abbrev pub minus_two : ℤ → ℤ
minus_two (pos a) = diff a 2
minus_two (negsuc a) = negsuc (suc (suc a))

abbrev pub half_up : ℤ → ℤ
half_up (pos a) = pos (a / 2 + a % 2)
half_up (negsuc a) = neg (suc a / 2 + suc a % 2)

abbrev pub half : ℤ → ℤ
half (pos a) = pos (a / 2)
half (negsuc a) = neg (suc a / 2)

abbrev pub divider_byte : ℤ → ℕ
divider_byte d = low_bits 4 (half_up (minus_two d)) * 16 + low_bits 4 (half (minus_two d))

abbrev pub divider_addr : (divider nr : ℕ) → ℕ
divider_addr divider nr =
    if divider == 3
    then (if nr == 1 then Reg.cmosdiv3_1 else Reg.cmosdiv3_2)
    else (if nr == 1 then Reg.cmosdiv4_1 else Reg.cmosdiv4_2)

abbrev pub bypass_addr : ℕ → ℕ
bypass_addr divider = if divider == 3 then Reg.cmosdiv3_bypass else Reg.cmosdiv4_bypass

abbrev pub bypass_mask : ℕ → ℕ
bypass_mask nr = if nr == 1 then 0x10 else 0x20

unfoldable pub clkgen_write_d : Board → (divider nr : ℕ) → ℤ → Clkgen → Clkgen
clkgen_write_d board divider nr d c =
    if leb 3 divider && leb divider 4 && leb 1 nr && leb nr 2
    then if equals d 0
      then clkgen_or board (bypass_addr divider) (bypass_mask nr) c
      else clkgen_and board (bypass_addr divider) (255 - bypass_mask nr)
          (clkgen_wr board (divider_addr divider nr) (divider_byte d) c)
    else c

-- Writes in the order of the list, each an address and a byte.
unfoldable pub write_all : Board → List (ℕ × ℕ) → Clkgen → Clkgen
write_all board [] c = c
write_all board ((addr, byte) ∷ rest) c = write_all board rest (clkgen_wr board addr byte c)

unfoldable pub write_dividers : Board → Pll → Clkgen → Clkgen
unfolding clkgen_write_d
write_dividers board pll c =
    let c1 = clkgen_write_d board 3 1 pll.d1 c in
    let c2 = clkgen_write_d board 3 2 pll.d2 c1 in
    let c3 = clkgen_write_d board 4 1 pll.d1 c2 in clkgen_write_d board 4 2 pll.d2 c3

unfoldable pub write_counters : Board → Pll → Clkgen → Clkgen
write_counters board pll c =
    clkgen_write_p board pll.p
      (clkgen_write_r board pll.r (clkgen_write_b board pll.b (clkgen_write_a board pll.a c)))

-- AD9516_OSCILLATOR_FREQ, in Hz.
abbrev pub oscillator_freq : ℕ
oscillator_freq = 40000000

-- The board's copy of the parameters is changed too. -EAGAIN stands for `pseterr(EAGAIN)`.
unfoldable pub clkgen_apply_pll_conf : Board → Pll → Clkgen → Clkgen × Pll × Rc
unfolding write_dividers write_counters write_all
clkgen_apply_pll_conf board conf c =
    let pll = check_pll_dividers conf in
    let c1 = clkgen_wr board Reg.input_clks (if equals pll.external 0 then 2 else 9) c in
    let (c2, pll') = clkgen_write_dvco board pll (write_counters board pll c1) in
    let c3 = write_dividers board pll' c2 in
    let updates = (Reg.pll3, 0) ∷ (Reg.update_all, 1) ∷ (Reg.pll3, 1) ∷ (Reg.update_all, 1) ∷ [] in
    let (c4, done) = calib_vco_sleep board pll'.r oscillator_freq (write_all board updates c3) in
    (c4, pll', if done then success else failure eagain)

abbrev pub startup_values : List (ℕ × ℕ)
startup_values =
    (Reg.pdf_cp, 0x7c)
    ∷ (Reg.pll1, 0x05)
    ∷ (Reg.pll2, 0x04)
    ∷ (Reg.pll4, 0x00)
    ∷ (Reg.pll5, 0x00)
    ∷ (Reg.pll6, 0xab)
    ∷ (Reg.pll7, 0x07)
    ∷ (Reg.pll8, 0x00)
    ∷ (Reg.pll3, 0x00)
    ∷ (Reg.lvpecl_out0, 0x0b)
    ∷ (Reg.lvpecl_out1, 0x0b)
    ∷ (Reg.lvpecl_out2, 0x0b)
    ∷ (Reg.lvpecl_out3, 0x0b)
    ∷ (Reg.lvpecl_out4, 0x0b)
    ∷ (Reg.lvpecl_out5, 0x0b)
    ∷ (Reg.lvcmos_out6, 0x42)
    ∷ (Reg.lvcmos_out7, 0x42)
    ∷ (Reg.lvcmos_out8, 0x48)
    ∷ (Reg.lvcmos_out9, 0x48)
    ∷ []

unfoldable pub clkgen_startup : Board → Clkgen → Clkgen
unfolding write_all
clkgen_startup board c = write_all board startup_values c
