-- ===== src/Acp.antt =====
-- slopd-acp/src/adapter.rs: the ACP adapter's sessions, their panes and tags, and what it relays of a
-- transcript.
pub mod Gate
pub mod Tags
pub mod TagNames
pub mod Session
pub mod Eviction
pub mod Residency
pub mod Requests
pub mod Closing
pub mod Turns
pub mod Catalog
pub mod Victims
pub mod Room
pub mod Trim
mod Bounded
pub mod Serve
pub mod Served
pub mod Kept
pub mod Scan
pub mod Tools
pub mod ToolUpdates
pub mod Projection
pub mod Updates
pub mod Client
pub mod Chaining
pub mod Following
pub mod Quiet
pub mod Followed
pub mod Deltas
pub mod Emit
pub mod RunTurn
pub mod Running
pub mod TurnEnds
pub mod TurnSteps
pub mod Stops
pub mod Answered
