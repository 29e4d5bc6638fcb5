-- ===== src/Crypto.antt =====
-- The package `crypto`, and the parts of Go's standard library that it shares with `safe`.
pub mod Xor
pub mod Cbc
pub mod Padding
pub mod Outcome
pub mod Aes
pub mod Sample
mod Tests
