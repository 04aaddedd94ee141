-- ===== src/Opencode/Events.antt =====
-- slopd/src/opencode.rs: what an event of the embedded server means for the pane's state, its hooks and
-- its transcript. A JSON object is written with its keys in the order of serde_json's `Map`.
use slopd.Base.{
  String, Bool, ◌&&◌, ◌||◌, Option, none, some, List, [], ◌∷◌, or_else, unwrap_or, and_then,
  map_option, ◌==◌, string_eq, option_beq, if◌then◌else◌,
}
use slopd.Pane.State.{
  PaneDetailedState, busy_processing, busy_tool_use, busy_compacting, awaiting_input_permission,
  awaiting_input_elicitation,
}
use slopd.Json.Value.{
  Value, null, string, array, object, empty, no_fields, field, get_key, as_str, str_at,
}
use slopd.Opencode.Status.{status_to_detailed}

abbrev pub properties_of : Value → Value
properties_of event = unwrap_or (get_key event "properties") null

unfoldable pub event_session_id : Value → Option String
unfolding get_key as_str
event_session_id event =
    and_then
      (and_then (get_key event "properties")
        (λ p. or_else (get_key p "sessionID") (get_key p "sessionId")))
      as_str

unfoldable pub event_type : Value → Option String
unfolding str_at
event_type event = str_at event "type"

abbrev pub is_type : Value → String → Bool
is_type event t = option_beq (event_type event) (some t)

unfoldable pub session_created_parent : Value → Option String
unfolding event_type get_key str_at option_beq
session_created_parent event =
    if is_type event "session.created"
    then and_then (and_then (get_key event "properties") (λ p. get_key p "info"))
        (λ i. str_at i "parentID")
    else none

unfoldable pub tui_selected_session : Value → Option String
unfolding event_type event_session_id option_beq
tui_selected_session event =
    if is_type event "tui.session.select" then event_session_id event else none

abbrev pub part_of : Value → Value
part_of props = unwrap_or (get_key props "part") null

abbrev pub is_tool_part : Value → Bool
is_tool_part part = option_beq (str_at part "type") (some "tool")

abbrev pub tool_of : Value → String
tool_of part = unwrap_or (str_at part "tool") ""

-- `part.state.status`, with its default.
abbrev pub part_status : Value → String
part_status part = unwrap_or (and_then (get_key part "state") (λ s. str_at s "status")) "running"

abbrev pub is_over : String → Bool
is_over status = status == "completed" || status == "error"

abbrev pub part_to_detailed : Value → PaneDetailedState
part_to_detailed part =
    if is_tool_part part
    then if tool_of part == "question"
      then if is_over (part_status part) then busy_processing else awaiting_input_elicitation
      else if is_over (part_status part)
      then busy_processing
      else busy_tool_use
    else busy_processing

abbrev pub detailed_of : String → Value → Option PaneDetailedState
detailed_of t props =
    if t == "session.idle"
    then some PaneDetailedState.ready
    else if t == "session.error"
    then some PaneDetailedState.ready
    else if t == "session.status"
    then and_then (get_key props "status") status_to_detailed
    else if t == "session.compacted"
    then some busy_compacting
    else if t == "permission.asked"
    then some awaiting_input_permission
    else if t == "message.part.updated"
    then some (part_to_detailed (part_of props))
    else if t == "message.updated" || t == "message.removed" || t == "message.part.removed"
    then some busy_processing
    else if t == "step-start" || t == "step-finish"
    then some busy_processing
    else none

unfoldable pub event_to_detailed : Value → Option PaneDetailedState
unfolding event_type get_key str_at option_beq
event_to_detailed event = and_then (event_type event) (λ t. detailed_of t (properties_of event))

-- `properties.info.role`
abbrev pub role_of : Value → Option String
role_of props = and_then (get_key props "info") (λ i. str_at i "role")

abbrev pub tool_hook : Value → String
tool_hook part =
    if tool_of part == "question"
    then if is_over (part_status part) then "ElicitationResult" else "Elicitation"
    else if is_over (part_status part)
    then "PostToolUse"
    else "PreToolUse"

abbrev part_input : Value → Value
part_input part = unwrap_or (and_then (get_key part "state") (λ s. get_key s "input")) null

abbrev pub tool_extra : Value → Value
tool_extra part =
    object
      (field "tool_input" (part_input part) (field "tool_name" (string (tool_of part)) no_fields))

abbrev pub hook_of : String → Value → Option (String × Value)
hook_of t props =
    if t == "session.idle"
    then some ("Stop", object no_fields)
    else if t == "session.error"
    then some ("StopFailure", object no_fields)
    else if t == "permission.asked"
    then some ("PermissionRequest", object no_fields)
    else if t == "session.compacted"
    then some ("PreCompact", object no_fields)
    else if t == "message.updated" && option_beq (role_of props) (some "user")
    then some ("UserPromptSubmit", object no_fields)
    else if t == "message.part.updated" && is_tool_part (part_of props)
    then some (tool_hook (part_of props), tool_extra (part_of props))
    else none

abbrev pub hook_payload : Value → String → String × Value → String × Value
hook_payload event t (name, extra) = (
  name,
  object (
      field "extra" extra (
        field "hook_event_name" (string name) (
          field "opencode_event" (string t) (
            field "properties" (properties_of event)
              (field "session_id" (string (unwrap_or (event_session_id event) "")) no_fields))))),
)

unfoldable pub event_to_hook : Value → Option (String × Value)
unfolding event_type event_session_id get_key str_at option_beq
event_to_hook event =
    and_then (event_type event)
      (λ t. map_option (hook_payload event t) (hook_of t (properties_of event)))

abbrev transcript_of : Value → String → Option (String × Value)
transcript_of props t =
    if t == "message.updated"
    then some (unwrap_or (role_of props) "user", props)
    else if t == "message.part.updated"
    then some (unwrap_or (and_then (get_key props "part") (λ p. str_at p "type")) "part", props)
    else none

unfoldable pub event_to_transcript : Value → Option (String × Value)
unfolding event_type get_key str_at
event_to_transcript event = and_then (event_type event) (transcript_of (properties_of event))

unfoldable pub event_is_failure : Value → Bool
unfolding event_type option_beq
event_is_failure event = is_type event "session.error"

abbrev message_record : Value → String × Value
message_record m = (
  unwrap_or (and_then (get_key m "info") (λ i. str_at i "role")) "assistant",
  object (
      field "info" (unwrap_or (get_key m "info") null)
        (field "parts" (unwrap_or (get_key m "parts") (array empty)) no_fields)),
)

unfoldable pub messages_to_records : List Value → List (String × Value)
unfolding get_key str_at
messages_to_records [] = []
messages_to_records (m ∷ messages) = message_record m ∷ messages_to_records messages
