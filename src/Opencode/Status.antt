-- ===== src/Opencode/Status.antt =====
-- slopd/src/opencode.rs: `status_to_detailed` and `status_is_working`.
use slopd.Base.{
  String, Bool, false, ◌||◌, Option, none, some, or_else, unwrap_or, and_then, map_option, ◌==◌,
  to_ascii_lowercase, if◌then◌else◌,
}
use slopd.Pane.State.{
  PaneDetailedState, busy_processing, busy_tool_use, busy_compacting, awaiting_input_permission,
  awaiting_input_elicitation,
}
use slopd.Json.Value.{Value, get_key, as_bool, str_at}

-- The word of a status, under the key that opencode uses or one of its aliases.
unfoldable pub status_word : Value → String
unfolding str_at to_ascii_lowercase
status_word status =
    unwrap_or
      (map_option to_ascii_lowercase
        (or_else (str_at status "type") (or_else (str_at status "status") (str_at status "state"))))
      ""

abbrev is_true : Option Bool → Bool
is_true none = false
is_true (some b) = b

-- `status.get(k).and_then(|v| v.as_bool()) == Some(true)`
unfoldable pub flag : Value → String → Bool
unfolding get_key as_bool
flag status k = is_true (and_then (get_key status k) as_bool)

unfoldable pub state_of_word : String → Option PaneDetailedState
state_of_word s =
    if s == "idle" || s == "ready" || s == "waiting" || s == "completed"
    then some PaneDetailedState.ready
    else if s == "busy" || s == "running" || s == "processing" || s == "streaming"
    then some busy_processing
    else if s == "retry"
    then some busy_processing
    else if s == "tool" || s == "tool_use" || s == "busy_tool_use"
    then some busy_tool_use
    else if s == "permission" || s == "awaiting_permission" || s == "awaiting_input_permission"
    then some awaiting_input_permission
    else if s == "compacting"
    then some busy_compacting
    else if s == "question"
    then some awaiting_input_elicitation
    else none

unfoldable pub status_to_detailed : Value → Option PaneDetailedState
unfolding status_word state_of_word flag
status_to_detailed status = or_else (state_of_word (status_word status)) (
    if flag status "busy"
    then some busy_processing
    else if flag status "awaitingPermission"
    then some awaiting_input_permission
    else none)

abbrev pub is_working_word : String → Bool
is_working_word s =
    s == "busy"
    || s == "running"
    || s == "processing"
    || s == "streaming"
    || s == "tool"
    || s == "tool_use"
    || s == "compacting"

unfoldable pub status_is_working : Value → Bool
unfolding status_word flag
status_is_working status = is_working_word (status_word status) || flag status "busy"
