-- ===== src/Opencode/Driver.antt =====
-- slopd/src/main.rs: the driver of an opencode pane. `handle_event` is the body of the loop of
-- `read_opencode_sse`, and `poll` one round of the backstop of `run_opencode_driver`. What the embedded
-- server and tmux answer is an argument.
use slopd.Base.{
  ℕ, String, Bool, false, not, ◌||◌, Option, none, some, List, [], ◌∷◌, ◌++◌, Map, map_option,
  unwrap_or, ◌==◌, string_eq, if◌then◌else◌,
}
use slopd.Pane.State.{PaneDetailedState, detailed_eq}
use slopd.Json.Value.{Value, string, object, Fields, no_fields, field}
use slopd.Json.Record.{Record}
use slopd.Machine.Update.{Tracked, set_pane_detailed_state}
use slopd.Machine.Retry.{BackoffPolicy, PaneRetry}

-- `OpencodeState`, as far as the driver uses it.
pub record OpencodeState : Type 0 where
  pub session_id : String
  pub last_prompt : Option String
  pub pending_prompt : Option String

-- A pane with its driver: `oc` is its runtime when that is opencode's; `subagents` tells when each
-- child session was first seen.
pub record Driver : Type 0 where
  pub pane_id : String
  pub oc : Option OpencodeState
  pub noted_session_id : Option String
  pub retry : PaneRetry
  pub tracked : Tracked
  pub subagents : Map String ℕ
  pub sent : List Record

-- What is answered while one event or one round is handled: the session that `active_session` finds,
-- the status map, the state that the status request stands for, and whether tmux takes the options.
pub record Replies : Type 0 where
  pub now : ℕ
  pub active : Option String
  pub status_map : Option (String → Option Value)
  pub target : Option PaneDetailedState
  pub state_ok : Bool
  pub detailed_ok : Bool

pub record RunConfig : Type 0 where
  pub auto_continue_on_failure : Bool
  pub policy : BackoffPolicy

abbrev pub send : String → String → Value → Driver → Driver
send source kind payload d = record d {
  sent =
      d.sent
      ++ record {
        cursor = none;
        source = source;
        event_type = kind;
        pane_id = some d.pane_id;
        payload = payload;
      }
        ∷ [];
}

abbrev pub set_state : Replies → PaneDetailedState → Driver → Driver
set_state r new d = if detailed_eq new d.tracked.detailed_state then d else record d {
  tracked =
      set_pane_detailed_state new (some d.tracked.detailed_state) r.state_ok r.detailed_ok
        d.tracked;
}

abbrev pub set_target : Replies → Option PaneDetailedState → Driver → Driver
set_target r none d = d
set_target r (some new) d = set_state r new d

abbrev pub session_of : Driver → String → String
session_of d otherwise = unwrap_or (map_option (λ (o : OpencodeState). o.session_id) d.oc) otherwise

abbrev pub rebound : String → OpencodeState → Driver → Driver
rebound selected o d = record d {
  oc = some (record o { session_id = selected; last_prompt = none });
  noted_session_id = some selected;
  retry = record d.retry { retry_state = none };
  subagents = [];
}

abbrev pub follow_from : String → String → Option OpencodeState → Driver → Driver
follow_from expected selected none d = d
follow_from expected selected (some o) d =
    if not (o.session_id == expected) || selected == expected then d else rebound selected o d

unfoldable pub follow_opencode_session : String → String → Driver → Driver
follow_opencode_session expected selected d = follow_from expected selected d.oc d

abbrev pub follow_active : Option OpencodeState → Option String → Driver → Driver
follow_active none active d = d
follow_active (some o) none d = d
follow_active (some o) (some selected) d = follow_opencode_session o.session_id selected d

unfoldable pub reconcile_opencode_session : Replies → Driver → Driver
unfolding follow_opencode_session
reconcile_opencode_session r d = follow_active d.oc r.active d

abbrev pub is_elsewhere : String → Option OpencodeState → Bool
is_elsewhere session none = false
is_elsewhere session (some o) = not (o.session_id == session)

-- The answer is dropped when the pane has moved to another session.
unfoldable pub reconcile_opencode_status : String → Replies → Driver → Driver
unfolding set_pane_detailed_state detailed_eq
reconcile_opencode_status session r d =
    if is_elsewhere session d.oc then d else set_target r r.target d

-- The hook records of a child session.
abbrev pub child_fields : String → String → String → Fields → Fields
child_fields session name child rest =
    field "hook_event_name" (string name) (field "opencode_child_session" (string child) rest)

abbrev pub stop_record : String → String → Value
stop_record session child =
    object
      (child_fields session "SubagentStop" child (field "session_id" (string session) no_fields))

abbrev pub start_record : String → String → Value → Value
start_record session child properties = object (
    child_fields session "SubagentStart" child
      (field "properties" properties (field "session_id" (string session) no_fields)))
