-- ===== src/Capacity.antt =====
-- The package `capacity`: sizes in bytes with their units, printed and parsed.
pub mod Print
pub mod Parse
pub mod Codec
mod Tests
