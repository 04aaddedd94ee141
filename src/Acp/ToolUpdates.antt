-- ===== src/Acp/ToolUpdates.antt =====
-- slopd-acp/src/adapter.rs: `tool_updates` and `finish_open_tools`. The open tools are a set as the list of
-- its members.
use slopd.Base.{
  String, Bool, true, false, not, ◌&&◌, ◌||◌, Option, none, some, List, [], ◌∷◌, ◌++◌, or_else,
  unwrap_or, map_option, and_then, contains, find, all, option_beq, filter, map, ◌==◌, string_eq,
  if◌then◌else◌,
}
use slopd.Json.Value.{
  Value, Values, null, string, object, empty, item, no_fields, field, get_key, as_str, as_array,
  str_at, pointer,
}
use slopd.Json.Record.{Record}
use slopd.Acp.Scan.{embedded_tool_calls}
use slopd.Acp.Tools.{
  Codecs, ProjectedTool, decoded_tool_input, projected_tool, plan_updates, tool_id, tool_completed,
}

-- The open tools and the updates so far.
abbrev pub Tools : Type 0
Tools = List String × List Value

abbrev pub push_update : Value → Tools → Tools
push_update update (tools, updates) = (tools, updates ++ update ∷ [])

abbrev pub without : String → List String → List String
without id = filter (λ x. not (x == id))

abbrev pub tool_call : String → ProjectedTool → String → Value
tool_call id t status = object (
    field "kind" (string t.kind) (
      field "rawInput" t.raw_input (
        field "sessionUpdate" (string "tool_call") (
          field "status" (string status)
            (field "title" (string t.title) (field "toolCallId" (string id) no_fields))))))

abbrev pub tool_update : String → String → Value
tool_update id status = object (
    field "sessionUpdate" (string "tool_call_update")
      (field "status" (string status) (field "toolCallId" (string id) no_fields)))

abbrev pub tool_failed : String → Value → Value
tool_failed id output = object (
    field "rawOutput" output (
      field "sessionUpdate" (string "tool_call_update")
        (field "status" (string "failed") (field "toolCallId" (string id) no_fields))))

-- `if self.open_tools.insert(id)`, with what is said of a tool that is open already.
abbrev pub open_tool : String → ProjectedTool → String → List Value → Tools → Tools
open_tool id t status again (tools, updates) =
    if contains tools id
    then (tools, updates ++ again)
    else (id ∷ tools, updates ++ tool_call id t status ∷ [])

abbrev pub close_tool : String → Value → Tools → Tools
close_tool id update (tools, updates) = (without id tools, updates ++ update ∷ [])

abbrev pub is_call_type : String → Bool
is_call_type t =
    t == "commandExecution"
    || t == "fileChange"
    || t == "plan"
    || t == "webSearch"
    || t == "mcpToolCall"
    || t == "toolCall"

abbrev pub embedded_in : Codecs → Record → String → List (String × Value)
embedded_in codecs r name =
    if name == "exec"
    then unwrap_or
        (map_option (embedded_tool_calls codecs.json5)
          (and_then (get_key r.payload "arguments") as_str))
        []
    else []

abbrev pub is_plan : String × Value → Bool
is_plan x = x.0 == "update_plan"

abbrev pub plan_input : Codecs → Record → String → List (String × Value) → Option Value
plan_input codecs r name embedded =
    if name == "update_plan" || r.event_type == "plan"
    then some (decoded_tool_input codecs (get_key r.payload "arguments"))
    else map_option (λ (x : String × Value). x.1) (find is_plan embedded)

-- A call with the updates of its plan, if it has one. The flag says that nothing else is in the record.
abbrev pub call_after :
    Codecs → Record → String → List (String × Value) → Option (List Value) → Tools → Bool × Tools
call_after codecs r name embedded none (tools, updates) = (
  false,
  open_tool (tool_id r name)
      (projected_tool codecs r.event_type name (get_key r.payload "arguments") embedded)
      "in_progress" [] (tools, updates),
)
call_after codecs r name embedded (some plan) (tools, updates) =
    if not (name == "exec") || all is_plan embedded then (true, (tools, updates ++ plan)) else (
      false,
      open_tool (tool_id r name)
          (projected_tool codecs r.event_type name (get_key r.payload "arguments") embedded)
          "in_progress" [] (tools, updates ++ plan),
    )

abbrev pub call_named : Codecs → Record → Option String → Tools → Bool × Tools
call_named codecs r none t = (false, t)
call_named codecs r (some name) t =
    let embedded = embedded_in codecs r name in
    if is_call_type r.event_type
    then call_after codecs r name embedded
        (and_then (plan_input codecs r name embedded) plan_updates) t
    else (false, t)

abbrev pub result_of : Codecs → Record → Option String → Tools → Tools
result_of codecs r none t = t
result_of codecs r (some id) (tools, updates) =
    if r.event_type == "toolResult" && contains tools id
    then close_tool id (tool_completed codecs id (unwrap_or (get_key r.payload "output") null))
        (tools, updates)
    else (tools, updates)

abbrev pub part_id_or : Record → Value → String → String
part_id_or r part name =
    unwrap_or (and_then (or_else (get_key part "callID") (get_key part "callId")) as_str)
      (tool_id r name)

abbrev pub part_with : Codecs → Value → ProjectedTool → String → String → Tools → Tools
part_with codecs part t id status tools =
    if status == "pending"
    then open_tool id t "pending" [] tools
    else if status == "running"
    then open_tool id t "in_progress" (tool_update id "in_progress" ∷ []) tools
    else if status == "completed"
    then close_tool id
        (tool_completed codecs id (unwrap_or (pointer part ("state" ∷ "output" ∷ [])) null)) tools
    else if status == "error" || status == "failed"
    then close_tool id (tool_failed id (unwrap_or (get_key part "state") null)) tools
    else tools

abbrev pub part_name : Value → String
part_name part = unwrap_or (str_at part "tool") "tool"

abbrev pub part_tool : Codecs → Record → Value → ProjectedTool
part_tool codecs r part =
    projected_tool codecs r.event_type (part_name part) (pointer part ("state" ∷ "input" ∷ [])) []

abbrev pub tool_status : Value → String
tool_status part =
    unwrap_or (and_then (pointer part ("state" ∷ "status" ∷ [])) as_str) "in_progress"

-- A tool part of OpenCode.
abbrev pub part_of : Codecs → Record → Option Value → Tools → Tools
part_of codecs r none tools = tools
part_of codecs r (some part) tools =
    if r.event_type == "tool"
    then part_with codecs part (part_tool codecs r part) (part_id_or r part (part_name part))
        (tool_status part) tools
    else tools

abbrev pub block_result : Codecs → Value → Option String → Tools → Tools
block_result codecs block none tools = tools
block_result codecs block (some id) tools =
    close_tool id (tool_completed codecs id (unwrap_or (get_key block "content") null)) tools

-- A content block of Claude.
abbrev pub block_of : Codecs → Record → Value → Tools → Tools
block_of codecs r block tools =
    let name = unwrap_or (str_at block "name") "tool" in
    if option_beq (str_at block "type") (some "tool_use")
    then open_tool (unwrap_or (str_at block "id") (tool_id r name))
        (projected_tool codecs r.event_type name (get_key block "input") []) "in_progress" [] tools
    else if option_beq (str_at block "type") (some "tool_result")
    then block_result codecs block
        (and_then (or_else (get_key block "tool_use_id") (get_key block "toolUseId")) as_str) tools
    else tools

unfoldable pub blocks_of : Codecs → Record → Values → Tools → Tools
unfolding projected_tool tool_id tool_completed get_key as_str str_at option_beq contains
blocks_of codecs r empty tools = tools
blocks_of codecs r (item block blocks) tools =
    blocks_of codecs r blocks (block_of codecs r block tools)

abbrev pub content_of : Record → Values
content_of r = unwrap_or (and_then (pointer r.payload ("message" ∷ "content" ∷ [])) as_array) empty

abbrev pub after_call : Codecs → Record → Bool × Tools → Tools
after_call codecs r (true, tools) = tools
after_call codecs r (false, tools) = blocks_of codecs r (content_of r) (
    part_of codecs r (get_key r.payload "part")
      (result_of codecs r (str_at r.payload "call_id") tools))

unfoldable pub tool_updates : Codecs → Record → Tools → Tools
unfolding blocks_of embedded_tool_calls projected_tool decoded_tool_input plan_updates tool_id
    tool_completed get_key as_str as_array str_at pointer contains
tool_updates codecs r tools =
    after_call codecs r (call_named codecs r (str_at r.payload "name") tools)

unfoldable pub finish_open_tools : List String → List Value
finish_open_tools tools = map (λ id. tool_update id "completed") tools
