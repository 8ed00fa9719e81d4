-- ===== src/Cvorg/Clkgen/Reg.antt =====
-- cvorg/driver/ad9516_priv.h: the AD9516's register addresses that the driver uses.
use ht_drivers.Base.{ℕ}

abbrev pub pdf_cp : ℕ
pdf_cp = 0x10

abbrev pub rcount_lsb : ℕ
rcount_lsb = 0x11

abbrev pub rcount_msb : ℕ
rcount_msb = 0x12

abbrev pub acount : ℕ
acount = 0x13

abbrev pub bcount_lsb : ℕ
bcount_lsb = 0x14

abbrev pub bcount_msb : ℕ
bcount_msb = 0x15

abbrev pub pll1 : ℕ
pll1 = 0x16

abbrev pub pll2 : ℕ
pll2 = 0x17

abbrev pub pll3 : ℕ
pll3 = 0x18

abbrev pub pll4 : ℕ
pll4 = 0x19

abbrev pub pll5 : ℕ
pll5 = 0x1a

abbrev pub pll6 : ℕ
pll6 = 0x1b

abbrev pub pll7 : ℕ
pll7 = 0x1c

abbrev pub pll8 : ℕ
pll8 = 0x1d

abbrev pub pllreadback : ℕ
pllreadback = 0x1f

abbrev pub lvpecl_out0 : ℕ
lvpecl_out0 = 0xf0

abbrev pub lvpecl_out1 : ℕ
lvpecl_out1 = 0xf1

abbrev pub lvpecl_out2 : ℕ
lvpecl_out2 = 0xf2

abbrev pub lvpecl_out3 : ℕ
lvpecl_out3 = 0xf3

abbrev pub lvpecl_out4 : ℕ
lvpecl_out4 = 0xf4

abbrev pub lvpecl_out5 : ℕ
lvpecl_out5 = 0xf5

abbrev pub lvcmos_out6 : ℕ
lvcmos_out6 = 0x140

abbrev pub lvcmos_out7 : ℕ
lvcmos_out7 = 0x141

abbrev pub lvcmos_out8 : ℕ
lvcmos_out8 = 0x142

abbrev pub lvcmos_out9 : ℕ
lvcmos_out9 = 0x143

abbrev pub cmosdiv3_1 : ℕ
cmosdiv3_1 = 0x199

abbrev pub cmosdiv3_2 : ℕ
cmosdiv3_2 = 0x19b

abbrev pub cmosdiv3_bypass : ℕ
cmosdiv3_bypass = 0x19c

abbrev pub cmosdiv4_1 : ℕ
cmosdiv4_1 = 0x19e

abbrev pub cmosdiv4_2 : ℕ
cmosdiv4_2 = 0x1a0

abbrev pub cmosdiv4_bypass : ℕ
cmosdiv4_bypass = 0x1a1

abbrev pub vco_divider : ℕ
vco_divider = 0x1e0

abbrev pub input_clks : ℕ
input_clks = 0x1e1

abbrev pub update_all : ℕ
update_all = 0x232
