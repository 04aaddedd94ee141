-- ===== src/Acp/Tools.antt =====
-- slopd-acp/src/adapter.rs: what an ACP client is told of a tool, a plan and a text. A JSON object is
-- written with its keys in the order of serde_json's `Map`.
use Prim.Native.String.{◌++◌ as join}
use slopd.Base.{
  String, Bool, not, ◌||◌, Option, none, some, List, [], ◌∷◌, or_else, unwrap_or, map_option,
  and_then, starts_with, to_ascii_lowercase, ◌==◌, if◌then◌else◌, find,
}
use slopd.Base.Decimal.{to_string}
use slopd.Json.Value.{
  Value, Values, null, string, array, object, empty, item, no_fields, field, get_key, as_str,
  as_array, str_at,
}
use slopd.Json.Record.{Record}
use slopd.Acp.Scan.{Json5, input_object}

-- The crates json5 and serde_json: reading a loose JSON text, and printing a value, each of which may fail.
pub record Codecs : Type 0 where
  pub json5 : Json5
  pub print : Value → Option String

abbrev pub text_content : String → Value
text_content text = object (field "text" (string text) (field "type" (string "text") no_fields))

abbrev pub text_chunk : String → String → Value
text_chunk kind text =
    object (field "content" (text_content text) (field "sessionUpdate" (string kind) no_fields))

unfoldable pub message_chunk : String → Value
message_chunk text = text_chunk "agent_message_chunk" text

unfoldable pub thought_chunk : String → Value
thought_chunk text = text_chunk "agent_thought_chunk" text

-- `str::contains`
unfoldable pub text_contains : String → String → Bool
unfolding starts_with
text_contains String.[] part = starts_with String.[] part
text_contains (String.◌∷◌ c s) part =
    let rest = text_contains s part in starts_with (String.◌∷◌ c s) part || rest

abbrev pub kind_of_name : String → String
kind_of_name name =
    if text_contains name "delete"
      || text_contains name "remove_file"
      || text_contains name "unlink"
    then "delete"
    else if text_contains name "move" || text_contains name "rename"
    then "move"
    else if text_contains name "patch"
        || text_contains name "edit"
        || text_contains name "write_file"
    then "edit"
    else if text_contains name "search" || text_contains name "grep" || text_contains name "glob"
    then "search"
    else if text_contains name "fetch" || text_contains name "web"
    then "fetch"
    else if text_contains name "read"
        || text_contains name "view"
        || text_contains name "load_skill"
    then "read"
    else if text_contains name "exec"
        || text_contains name "shell"
        || text_contains name "bash"
        || text_contains name "command"
        || name == "wait"
    then "execute"
    else if text_contains name "plan" || text_contains name "todo" || text_contains name "think"
    then "think"
    else if text_contains name "switch_mode"
    then "switch_mode"
    else "other"

unfoldable pub tool_kind : String → String → String
unfolding text_contains to_ascii_lowercase
tool_kind event_type name =
    if event_type == "commandExecution"
    then "execute"
    else if event_type == "fileChange"
    then "edit"
    else if event_type == "plan"
    then "think"
    else if event_type == "webSearch"
    then "search"
    else kind_of_name (to_ascii_lowercase name)

abbrev decoded_input : Codecs → Value → Value
decoded_input codecs (string input) = unwrap_or (codecs.json5 input) (input_object (string input))
decoded_input codecs input = input

unfoldable pub decoded_tool_input : Codecs → Option Value → Value
decoded_tool_input codecs none = null
decoded_tool_input codecs (some input) = decoded_input codecs input

-- A tool's title, kind and input.
pub record ProjectedTool : Type 0 where
  pub title : String
  pub kind : String
  pub raw_input : Value

abbrev kind_and_input : String → String × Value → ProjectedTool
kind_and_input event_type (name, input) = record {
  title = name;
  kind = tool_kind event_type name;
  raw_input = input;
}

abbrev command_of : Option Value → Value
command_of input =
    object (field "command" (string (unwrap_or (and_then input as_str) "")) no_fields)

unfoldable pub projected_tool :
    Codecs → String → String → Option Value → List (String × Value) → ProjectedTool
unfolding tool_kind decoded_tool_input as_str
projected_tool codecs event_type name input embedded = kind_and_input event_type (
    if name == "exec"
    then unwrap_or (find (λ (x : String × Value). not (x.0 == "update_plan")) embedded)
        ("exec_command", command_of input)
    else (name, decoded_tool_input codecs input))

abbrev status_of_step : Option String → String
status_of_step none = "pending"
status_of_step (some s) =
    if s == "completed"
    then "completed"
    else if s == "in_progress" || s == "running"
    then "in_progress"
    else "pending"

abbrev priority_of_step : Option String → String
priority_of_step none = "medium"
priority_of_step (some s) = if s == "high" then "high" else if s == "low" then "low" else "medium"

abbrev plan_entry : Value → Option Value
plan_entry entry =
    map_option
      (λ content. object (
        field "content" (string content) (
          field "priority" (string (priority_of_step (str_at entry "priority")))
            (field "status" (string (status_of_step (str_at entry "status"))) no_fields))))
      (and_then (or_else (get_key entry "step") (get_key entry "content")) as_str)

abbrev with_entry : Option Value → Values → Values
with_entry none vs = vs
with_entry (some v) vs = item v vs

unfoldable pub plan_entries : Values → Values
unfolding get_key as_str str_at
plan_entries empty = empty
plan_entries (item entry entries) = with_entry (plan_entry entry) (plan_entries entries)

abbrev pub plan_update : Values → Value
plan_update entries =
    object (field "entries" (array entries) (field "sessionUpdate" (string "plan") no_fields))

abbrev pub explained : Option String → List Value → List Value
explained none us = us
explained (some text) us = if text == "" then us else thought_chunk text ∷ us

abbrev pub plan_of : Option String → Values → Option (List Value)
plan_of explanation empty = none
plan_of explanation (item v vs) = some (explained explanation (plan_update (item v vs) ∷ []))

unfoldable pub plan_updates : Value → Option (List Value)
unfolding plan_entries thought_chunk get_key str_at as_str as_array
plan_updates input =
    and_then (and_then (get_key input "plan") as_array)
      (λ entries. plan_of (str_at input "explanation") (plan_entries entries))

unfoldable pub tool_id : Record → String → String
unfolding get_key as_str to_string
tool_id r name =
    unwrap_or (and_then (or_else (get_key r.payload "call_id") (get_key r.payload "id")) as_str) (
      join "slopd-" (
        join (unwrap_or r.pane_id "pane")
          (join "-" (join (to_string (unwrap_or r.cursor 0)) (join "-" name)))))

abbrev printed : Codecs → Value → String
printed codecs (string text) = text
printed codecs output = unwrap_or (codecs.print output) "<unavailable>"

unfoldable pub tool_completed : Codecs → String → Value → Value
tool_completed codecs id output = object (
    field "content"
      (array (
        item
          (object (
            field "content" (text_content (printed codecs output))
              (field "type" (string "content") no_fields)))
          empty))
      (field "rawOutput" output (
        field "sessionUpdate" (string "tool_call_update")
          (field "status" (string "completed") (field "toolCallId" (string id) no_fields)))))
