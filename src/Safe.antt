-- ===== src/Safe.antt =====
-- The package `safe`: texts kept encrypted.
pub mod Options
pub mod Encrypt
pub mod SafeString
pub mod Sample
pub mod Hash
