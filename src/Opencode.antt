-- ===== src/Opencode.antt =====
-- The events of opencode's embedded server: slopd/src/opencode.rs and its driver in slopd/src/main.rs.
pub mod Status
pub mod Events
pub mod Agreement
pub mod Driver
pub mod Turn
pub mod Sse
pub mod Backstop
pub mod Subagents
