-- ===== src/Machine.antt =====
-- slopd/src/main.rs, codex.rs and grok.rs: what moves a pane from one state to another, and the
-- retries after a failure.
pub mod Codex
pub mod Grok
pub mod Reduce
pub mod Update
pub mod Changes
pub mod Retry
pub mod Backoff
