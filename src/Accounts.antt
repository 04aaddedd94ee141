-- ===== src/Accounts.antt =====
-- libslop/src/lib.rs: which agent, executable and configuration directory an account stands for;
-- slopd/src/main.rs: what a restored pane falls back to.
pub mod Config
pub mod Resolve
pub mod Restore
pub mod Fits
pub mod Restored
