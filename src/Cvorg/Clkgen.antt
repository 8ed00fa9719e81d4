-- ===== src/Cvorg/Clkgen.antt =====
-- cvorg/driver/clkgen.c: the AD9516 clock generator behind the board's CLKCTL register.
pub mod Int
pub mod Spi
pub mod Pll
pub mod PllLaws
pub mod Reg
pub mod Chip
pub mod Setup
pub mod Registers
pub mod Roundtrip
pub mod Dividers
pub mod Calibration
