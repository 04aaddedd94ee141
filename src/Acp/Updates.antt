-- ===== src/Acp/Updates.antt =====
-- slopd-acp/src/adapter.rs: `Projection::updates`. Fresh ids are arguments.
use slopd.Base.{
  String, Bool, true, false, Option, none, some, List, [], ◌∷◌, ◌++◌, Map, or_else, unwrap_or,
  and_then, ◌==◌, string_eq, if◌then◌else◌,
}
use slopd.Pane.Agent.{Backend, opencode, backend_eq}
use slopd.Json.Value.{Value, string, object, get_key, as_str, str_at, pointer}
use slopd.Json.Record.{Record}
use slopd.Settings.Inject.{set_field}
use slopd.Acp.Tools.{Codecs, message_chunk, thought_chunk}
use slopd.Acp.ToolUpdates.{Tools, tool_updates}
use slopd.Acp.Projection.{AssistantText, Projection, assistant_text, note_role, opencode_part_delta}

-- `update["messageId"] = …` of an object.
abbrev pub with_message_id : String → Value → Value
with_message_id id (object fs) = object (set_field "messageId" (string id) fs)
with_message_id id value = value

abbrev pub chunk_of : Bool → String → Value
chunk_of true text = thought_chunk text
chunk_of false text = message_chunk text

-- `get_or_insert_with` on the message id, where the text has none of its own.
abbrev pub send_text : String → Option AssistantText → Projection → List Value × Projection
send_text fresh none p = ([], record p { message_id = none })
send_text fresh (some t) p = if t.text == "" then ([], p) else elim t.message_id [
  | some id ↦ (with_message_id id (chunk_of t.progress t.text) ∷ [], record p { message_id = none })
  | none ↦
      let id = unwrap_or p.message_id fresh in
      (with_message_id id (chunk_of t.progress t.text) ∷ [], record p { message_id = some id })
]

abbrev pub reasoning_text : Backend → Record → Projection → Option String × Map String String
reasoning_text backend r p =
    if backend_eq backend opencode
    then opencode_part_delta r.payload p.opencode_text
    else (str_at r.payload "text", p.opencode_text)

abbrev pub reasoning_id : Value → Option String
reasoning_id payload =
    and_then
      (or_else (pointer payload ("part" ∷ "id" ∷ [])) (
        or_else (pointer payload ("part" ∷ "messageID" ∷ []))
          (or_else (pointer payload ("part" ∷ "messageId" ∷ [])) (get_key payload "id"))))
      as_str

abbrev pub thought_of : String → Record → Option String → List Value
thought_of fresh r none = []
thought_of fresh r (some text) =
    if text == ""
    then []
    else with_message_id (unwrap_or (reasoning_id r.payload) fresh) (thought_chunk text) ∷ []

abbrev pub send_reasoning : Backend → Record → String → Projection → List Value × Projection
send_reasoning backend r fresh p =
    if r.event_type == "reasoning"
    then (
      thought_of fresh r (reasoning_text backend r p).0,
      record p { opencode_text = (reasoning_text backend r p).1 },
    )
    else ([], p)

abbrev is_empty : List Value → Bool
is_empty [] = true
is_empty (v ∷ vs) = false

-- The tools come last; any update of theirs ends the message.
abbrev pub send_tools : Projection → Tools → Projection × List Value
send_tools p (tools, updates) = (
  record p { open_tools = tools; message_id = if is_empty updates then p.message_id else none },
  updates,
)

abbrev pub spoken : Backend → Record → String → Projection → List Value × Projection
spoken backend r fresh p =
    let noted = note_role backend r p in
    let answer = assistant_text backend r noted in
    send_text fresh answer.0 (record noted { opencode_text = answer.1 })

abbrev pub sent_with : List Value → List Value → Projection × List Value → Projection × List Value
sent_with said thought (p, tools) = (p, said ++ (thought ++ tools))

abbrev pub with_tools :
    Codecs → Record → List Value → List Value × Projection → Projection × List Value
with_tools codecs r said (thought, p) =
    sent_with said thought (send_tools p (tool_updates codecs r (p.open_tools, [])))

abbrev pub with_reasoning :
    Codecs → Backend → Record → String → List Value × Projection → Projection × List Value
with_reasoning codecs backend r fresh_thought (said, p) =
    with_tools codecs r said (send_reasoning backend r fresh_thought p)

-- `fresh` and `fresh_thought` are the ids that are made for a message and for a thought without one.
unfoldable pub updates :
    Codecs → Backend → Record → String → String → Projection → Projection × List Value
unfolding note_role assistant_text opencode_part_delta message_chunk thought_chunk set_field
    tool_updates get_key as_str str_at pointer backend_eq
updates codecs backend r fresh fresh_thought p =
    with_reasoning codecs backend r fresh_thought (spoken backend r fresh p)
