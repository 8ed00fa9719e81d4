-- ===== src/Vme.antt =====
-- vmebridge/driver: the PCI-VME bridge driver over the TSI148 chip.
pub mod Am
pub mod Types
pub mod Chip
pub mod Berr
pub mod BerrLaws
pub mod Window
pub mod Irq
pub mod IrqLaws
pub mod IrqLoop
pub mod IrqTable
pub mod Raise
pub mod Ces
pub mod Dma
mod Tests
