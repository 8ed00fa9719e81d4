-- ===== src/Mttn/Asm.antt =====
-- mttn/tools/asm.c: the assembler.
pub mod Expression
pub mod Stack
pub mod Atom
pub mod Assemble
pub mod Names
pub mod Source
pub mod Fixups
pub mod Invariant
pub mod Labels
pub mod Writes
pub mod Arguments
pub mod Lines
pub mod Confirm
pub mod Start
pub mod TwoPass
