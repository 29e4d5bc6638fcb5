-- ===== src/Wrapper.antt =====
-- The package `wrapper` (Go package `w`).
pub mod Queue
pub mod Slice
pub mod Values
pub mod Maps
