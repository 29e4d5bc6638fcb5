-- ===== src/Buffer.antt =====
-- The package `buffer`: a writer that stops after a number of bytes, and a reader that reads ahead.
pub mod Io
pub mod Limit
pub mod PreReader
mod Tests
