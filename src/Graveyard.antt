-- ===== src/Graveyard.antt =====
-- slopd/src/journal.rs: reading the generations, the graveyard and the restore points.
pub mod Generations
pub mod Page
pub mod Order
pub mod Cursor
pub mod Select
