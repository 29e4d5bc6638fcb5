-- ===== src/Conv.antt =====
-- The package conv: times that remember the form in which they were given.
pub mod Time
pub mod RoundTrip
pub mod Tests
