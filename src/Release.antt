-- ===== src/Release.antt =====
-- release.h: which pages of a region hold only free blocks, and how they are given back to the system.
pub mod Pool
pub mod PageMap
pub mod Tracker
pub mod Context
pub mod Scan
pub mod Safety
mod Tests
