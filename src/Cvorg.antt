-- ===== src/Cvorg.antt =====
-- cvorg/driver: the waveform generator's driver, as far as its clock generator.
pub mod Clkgen
mod Tests
