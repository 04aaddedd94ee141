-- ===== src/Acp/Requests.antt =====
-- slopd-acp/src/adapter.rs: the requests that open and resume a session.
use slopd.Base.{
  ℕ, ◌+◌, String, Bool, false, not, ◌&&◌, Option, none, some, get, insert, Result, ok, err,
  starts_with, ◌==◌, string_eq, if◌then◌else◌,
}
use slopd.Base.Suffix.{first_token}
use slopd.Acp.Session.{
  Session, StartedPane, Adapter, AdapterError, start_failed, not_tagged, unknown_session,
  invalid_params, modify,
}
use slopd.Acp.Eviction.{Outcome, make_live_pane_room}
use slopd.Acp.Residency.{ResidentReplies, then_do, ensure_session_resident}

pub data SystemPromptMode : Type 0 where
  prepend reject ignore : SystemPromptMode

-- `Path::is_absolute` on Unix.
unfoldable pub validate_session_cwd_and_mcp : String → (has_mcp_servers : Bool) → Bool
unfolding starts_with
validate_session_cwd_and_mcp cwd has_mcp_servers = starts_with cwd "/" && not has_mcp_servers

-- The prompt, unless it is all whitespace.
abbrev pub real_prompt : Option String → Option String
real_prompt none = none
real_prompt (some p) = if first_token p == "" then none else some p

abbrev pub prompt_by : SystemPromptMode → Option String → Result AdapterError (Option String)
prompt_by mode none = ok none
prompt_by reject (some p) = err invalid_params
prompt_by ignore (some p) = ok none
prompt_by prepend (some p) = ok (some p)

pub record SessionNew : Type 0 where
  pub cwd : String
  pub has_mcp_servers : Bool
  pub system_prompt : Option String

pub record AdapterConfig : Type 0 where
  pub system_prompt_mode : SystemPromptMode
  pub working_directory : Option String

abbrev pub new_session : AdapterConfig → SessionNew → Option String → StartedPane → ℕ → ℕ → Session
new_session config params prompt p activity now = record {
  pane_id = some p.pane_id;
  grave_id = none;
  backend = some p.backend;
  native_session_id = p.native_session_id;
  cwd = params.cwd;
  start_directory = elim config.working_directory [ none ↦ params.cwd | some d ↦ d ];
  system_prompt = prompt;
  system_prompt_delivered = false;
  pending_resume_history = false;
  active_turn = none;
  last_used = activity;
  last_touched_at = now;
  title = none;
}

abbrev pub insert_new :
    AdapterConfig
    → SessionNew
    → Option String
    → String
    → ℕ
    → Bool
    → Option StartedPane
    → Adapter
    → Outcome
insert_new config params prompt id now tagged none a = (err start_failed, a)
insert_new config params prompt id now tagged (some p) a =
    if tagged
    then (
      ok tt,
      record a {
        sessions = insert id (new_session config params prompt p a.next_activity_id now) a.sessions;
        next_activity_id = a.next_activity_id + 1;
      },
    )
    else (err not_tagged, a)

abbrev pub open_with :
    AdapterConfig
    → ResidentReplies
    → SessionNew
    → String
    → ℕ
    → Result AdapterError (Option String)
    → Adapter
    → Outcome
open_with config r params id now (err e) a = (err e, a)
open_with config r params id now (ok prompt) a =
    then_do (make_live_pane_room r.panes r.eviction a)
      (insert_new config params prompt id now r.tagged r.started)

-- `id` is the fresh id of the session.
unfoldable pub session_new :
    AdapterConfig → ResidentReplies → SessionNew → String → ℕ → Adapter → Outcome
unfolding validate_session_cwd_and_mcp make_live_pane_room insert first_token
session_new config r params id now a =
    if validate_session_cwd_and_mcp params.cwd params.has_mcp_servers
    then open_with config r params id now
        (prompt_by config.system_prompt_mode (real_prompt params.system_prompt)) a
    else (err invalid_params, a)

abbrev pub used : ℕ → ℕ → Session → Session
used activity now s = record s { last_used = activity; last_touched_at = now }

-- The activity counter moves only if the session is there.
abbrev pub touch_found : Option Session → String → ℕ → Adapter → Adapter
touch_found none id now a = a
touch_found (some s) id now a = record a {
  sessions = modify id (used a.next_activity_id now) a.sessions;
  next_activity_id = a.next_activity_id + 1;
}

abbrev pub resume_found : ResidentReplies → String → String → ℕ → Option Session → Adapter → Outcome
resume_found r id cwd now none a = (err unknown_session, a)
resume_found r id cwd now (some s) a =
    if s.cwd == cwd
    then then_do (ensure_session_resident r id a)
        (λ b. (ok tt, touch_found (get b.sessions id) id now b))
    else (err invalid_params, a)

unfoldable pub session_resume : ResidentReplies → String → String → Bool → ℕ → Adapter → Outcome
unfolding validate_session_cwd_and_mcp ensure_session_resident modify get
session_resume r id cwd has_mcp_servers now a =
    if validate_session_cwd_and_mcp cwd has_mcp_servers
    then resume_found r id cwd now (get a.sessions id) a
    else (err invalid_params, a)
