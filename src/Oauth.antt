-- ===== src/Oauth.antt =====
-- slopd-mcp/src/oauth.rs: the store of clients, authorization codes and access tokens.
pub mod File
pub mod Store
pub mod Tokens
pub mod Logged
pub mod Saved
pub mod Once
