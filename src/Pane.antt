-- ===== src/Pane.antt =====
-- libslop/src/lib.rs: what slopd records of a pane; its states, its agent, and the part of it that a
-- restore consumes.
pub mod State
pub mod Agent
pub mod Info
pub mod Recovery
