-- ===== src/Vme/Window.antt =====
-- vmebridge/driver/vme_window.c: windows of the VME bus and the mappings on them.
pub mod State
pub mod Mappings
pub mod Create
pub mod Find
pub mod Ioctl
pub mod Invariant
pub mod Steps
pub mod CreateSteps
pub mod FindSteps
pub mod Run
pub mod Owners
pub mod Found
pub mod Mmap
pub mod Sanity
pub mod Ledger
pub mod Align
