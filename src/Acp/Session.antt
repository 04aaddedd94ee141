-- ===== src/Acp/Session.antt =====
-- slopd-acp/src/adapter.rs: `Session`, `ActiveTurn`, `StartedPane` and the catalog of sessions.
use slopd.Base.{
  ℕ, ◌+◌, String, Bool, true, Option, [], ◌∷◌, Map, is_some, ◌==◌, string_eq, if◌then◌else◌,
}
use slopd.Pane.Agent.{Backend}

pub record ActiveTurn : Type 0 where
  pub id : ℕ
  pub cancelled : Bool

pub record Session : Type 0 where
  pub pane_id : Option String
  pub grave_id : Option String
  pub backend : Option Backend
  pub native_session_id : Option String
  pub cwd : String
  pub start_directory : String
  pub system_prompt : Option String
  pub system_prompt_delivered : Bool
  pub pending_resume_history : Bool
  pub active_turn : Option ActiveTurn
  pub last_used : ℕ
  pub last_touched_at : ℕ
  pub title : Option String

pub record StartedPane : Type 0 where
  pub pane_id : String
  pub backend : Backend
  pub native_session_id : Option String

-- The part of the adapter that changes, with the limit from its configuration.
pub record Adapter : Type 0 where
  pub max_sessions : ℕ
  pub sessions : Map String Session
  pub next_activity_id : ℕ

-- Why an operation fails; `panicked` is a failed `expect`.
pub data AdapterError : Type 0 where
  unreachable : AdapterError
  every_pane_active : AdapterError
  turn_is_active : AdapterError
  kill_failed : AdapterError
  start_failed : AdapterError
  not_tagged : AdapterError
  unknown_session : AdapterError
  releasing : AdapterError
  disappeared : AdapterError
  acquired_another : AdapterError
  invalid_params : AdapterError
  in_flight : AdapterError
  panicked : AdapterError

-- `get_mut(id)` and a change of the session that it gives.
unfoldable pub modify : String → (Session → Session) → Map String Session → Map String Session
modify id f [] = []
modify id f ((k, s) ∷ m) =
    let rest = modify id f m in if k == id then (k, f s) ∷ m else (k, s) ∷ rest

-- `values().filter(|session| session.pane_id.is_some()).count()`
unfoldable pub live_count : Map String Session → ℕ
live_count [] = 0
live_count ((k, s) ∷ m) = (if is_some s.pane_id then 1 else 0) + live_count m

abbrev pub cancel_turn : ActiveTurn → ActiveTurn
cancel_turn t = record t { cancelled = true }
