-- ===== src/Vme/Dma.antt =====
-- vmebridge/driver/vme_dma.c and the DMA part of tsi148.c: block transfers between memory and the bus.
pub mod Types
pub mod Attributes
pub mod Chain
pub mod Setup
pub mod Pieces
pub mod Build
pub mod Loop
pub mod Entries
pub mod Whole
pub mod Ends
pub mod Pages
pub mod Transfer
pub mod Kept
pub mod Release
pub mod Channels
pub mod Holders
pub mod Progress
