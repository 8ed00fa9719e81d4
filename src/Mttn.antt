-- ===== src/Mttn.antt =====
-- mttn: the timing task assembler and emulator.
pub mod Types
pub mod Text
pub mod Object
pub mod Regs
pub mod Asm
pub mod Emu
mod Tests
