-- ===== src/Journal.antt =====
-- slopd/src/journal.rs: the lifecycle journal.
pub mod Event
pub mod Replay
pub mod Io
pub mod Writer
pub mod Synced
pub mod Distinct
pub mod Directory
pub mod Recording
pub mod Durable
pub mod Keyed
pub mod Opening
pub mod Calls
pub mod Unchanged
pub mod History
pub mod Switching
