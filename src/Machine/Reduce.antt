-- ===== src/Machine/Reduce.antt =====
-- slopd/src/main.rs: `reduce_pane_state` and `reduce_hook_event`.
use slopd.Base.{
  String, Bool, true, false, ◌&&◌, ◌||◌, Option, none, some, and_then, is_some, ◌==◌, string_eq,
  option_beq, if◌then◌else◌,
}
use slopd.Pane.State.{
  PaneDetailedState, busy_processing, busy_tool_use, busy_subagent, busy_compacting,
  awaiting_input_permission, awaiting_input_elicitation,
}
use slopd.Pane.Agent.{Backend, claude, opencode, codex, grok}
use slopd.Json.Value.{Value, get_key, str_at}
use slopd.Machine.Codex
use slopd.Machine.Grok

-- What can move a pane to another state.
pub data PaneStateEvent : Type 0 where
  init : PaneStateEvent
  hook : (event : String) (notification_type : Option String) → PaneStateEvent
  transcript_record :
      Backend
      → (record_type : String) → Value
      → (active_prompt_id : Option String) → (grok_unbound_prompt_active : Bool) → PaneStateEvent

unfoldable pub reduce_hook_event : String → Option String → Option PaneDetailedState
reduce_hook_event event kind =
    if event == "SessionStart"
    then some PaneDetailedState.ready
    else if event == "UserPromptSubmit"
    then some busy_processing
    else if event == "Stop" || event == "StopFailure" || event == "StopCancelled"
    then some PaneDetailedState.ready
    else if event == "PreToolUse"
    then some busy_tool_use
    else if event == "PostToolUse" || event == "PostToolUseFailure"
    then some busy_processing
    else if event == "PermissionRequest"
    then some awaiting_input_permission
    else if event == "PermissionDenied"
    then some busy_processing
    else if event == "SubagentStart"
    then some busy_subagent
    else if event == "SubagentStop" || event == "ElicitationResult"
    then some busy_processing
    else if event == "PreCompact"
    then some busy_compacting
    else if event == "PostCompact"
    then some busy_processing
    else if event == "Elicitation"
    then some awaiting_input_elicitation
    else if event == "Notification" && option_beq kind (some "idle_prompt")
    then some PaneDetailedState.ready
    else if event == "Notification" && option_beq kind (some "permission_prompt")
    then some awaiting_input_permission
    else none

abbrev pub is_awaiting_input : PaneDetailedState → Bool
is_awaiting_input awaiting_input_permission = true
is_awaiting_input awaiting_input_elicitation = true
is_awaiting_input _ = false

-- The hook that a `progress` record replays.
abbrev progress_hook : Value → Option String
progress_hook d =
    if option_beq (str_at d "type") (some "hook_progress") then str_at d "hookEvent" else none

-- The records of Claude, and of any agent without records of its own.
unfoldable pub reduce_record : PaneDetailedState → String → Value → Option PaneDetailedState
unfolding reduce_hook_event
reduce_record current record_type r =
    if record_type == "progress"
    then and_then (and_then (get_key r "data") progress_hook) (λ e. reduce_hook_event e none)
    else if record_type == "system" && option_beq (str_at r "subtype") (some "turn_duration")
    then some PaneDetailedState.ready
    else if record_type == "user" && is_awaiting_input current
    then some PaneDetailedState.ready
    else none

-- Hooks are authoritative while Codex waits for the user.
unfoldable pub reduce_codex : PaneDetailedState → Value → Option PaneDetailedState
reduce_codex current r =
    let next = Codex.transcript_state r in
    if is_awaiting_input current && is_some next then none else next

unfoldable pub reduce_pane_state : PaneDetailedState → PaneStateEvent → Option PaneDetailedState
unfolding reduce_hook_event reduce_record reduce_codex
reduce_pane_state current init = some PaneDetailedState.booting_up
reduce_pane_state current (hook event kind) = reduce_hook_event event kind
reduce_pane_state current (transcript_record codex t r active unbound) = reduce_codex current r
reduce_pane_state current (transcript_record grok t r active unbound) =
    Grok.transcript_state r active unbound
reduce_pane_state current (transcript_record claude t r active unbound) = reduce_record current t r
reduce_pane_state current (transcript_record opencode t r active unbound) =
    reduce_record current t r
