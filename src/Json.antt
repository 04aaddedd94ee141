-- ===== src/Json.antt =====
-- The JSON values that hooks, transcripts and events carry (`serde_json::Value`), and the payload
-- paths of libslop/src/lib.rs.
pub mod Value
pub mod Record
pub mod Path
