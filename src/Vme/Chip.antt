-- ===== src/Vme/Chip.antt =====
-- vmebridge/driver/tsi148.c: the chip's outbound windows.
pub mod Codes
pub mod Am
pub mod AmLaws
pub mod Window
pub mod WindowLaws
