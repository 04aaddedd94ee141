-- ===== src/Settings.antt =====
-- The hook entries of slopctl in an agent's settings file: libslop/src/lib.rs.
pub mod Command
pub mod Inject
pub mod Fields
pub mod Settled
pub mod Idempotent
pub mod Foreign
pub mod Removed
