-- ===== src/Machine/Codex.antt =====
-- slopd/src/codex.rs: `transcript_state`.
use slopd.Base.{String, ◌||◌, Option, none, some, [], ◌∷◌, and_then, ◌==◌, string_eq, if◌then◌else◌}
use slopd.Pane.State.{PaneDetailedState, busy_processing, busy_tool_use}
use slopd.Json.Value.{Value, pointer, as_str, str_at}

abbrev event_msg : String → Option PaneDetailedState
event_msg kind =
    if kind == "task_started"
    then some busy_processing
    else if kind == "task_complete" || kind == "turn_aborted" || kind == "error"
    then some PaneDetailedState.ready
    else none

abbrev response_item : String → Option PaneDetailedState
response_item kind =
    if kind == "function_call" || kind == "custom_tool_call"
    then some busy_tool_use
    else if kind == "function_call_output" || kind == "custom_tool_call_output"
    then some busy_processing
    else none

abbrev by_types : Option String → Option String → Option PaneDetailedState
by_types (some outer) (some kind) =
    if outer == "event_msg"
    then event_msg kind
    else if outer == "response_item"
    then response_item kind
    else none
by_types _ _ = none

unfoldable pub transcript_state : Value → Option PaneDetailedState
transcript_state record_ =
    by_types (str_at record_ "type") (and_then (pointer record_ ("payload" ∷ "type" ∷ [])) as_str)
