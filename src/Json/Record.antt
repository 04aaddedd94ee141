-- ===== src/Json/Record.antt =====
-- libslop/src/lib.rs: `Record`, the envelope of events and transcript records.
use slopd.Base.{ℕ, String, Option}
use slopd.Json.Value.{Value}

pub record Record : Type 0 where
  pub cursor : Option ℕ
  pub source : String
  pub event_type : String
  pub pane_id : Option String
  pub payload : Value
