-- ===== src/Skel.antt =====
-- skel/driver: the frame that drivers of modules are written in.
pub mod Queue
pub mod Fifo
pub mod Ring
pub mod Refines
mod Tests
