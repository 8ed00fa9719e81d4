-- ===== src/Mttn/Emu.antt =====
-- mttn/tools/emu.c
pub mod Machine
pub mod Status
pub mod Safe
pub mod Compare
pub mod Wait
