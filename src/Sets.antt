-- ===== src/Sets.antt =====
-- The package `sets`: sets as Go maps, and sets in an array of fixed size.
pub mod Set
pub mod ArraySet
