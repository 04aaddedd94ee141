-- ===== src/Acp/Projection.antt =====
-- slopd-acp/src/adapter.rs: `Projection`, which turns the records of a transcript into updates for an ACP
-- client: its state, and `assistant_text`.
use Prim.Native.String.{◌++◌ as join}
use slopd.Base.{
  String, Bool, false, not, ◌&&◌, ◌||◌, Option, none, some, List, [], ◌∷◌, Map, get, insert,
  or_else, unwrap_or, map_option, and_then, strip_prefix, is_none, option_beq, ◌==◌, string_eq,
  if◌then◌else◌,
}
use slopd.Pane.Agent.{Backend, claude, codex, opencode, grok, backend_eq}
use slopd.Json.Value.{
  Value, Values, string, empty, item, get_key, as_str, as_array, str_at, pointer,
}
use slopd.Json.Record.{Record}

pub record Projection : Type 0 where
  pub open_tools : List String
  pub opencode_text : Map String String
  pub opencode_role : Option String
  pub opencode_message_id : Option String
  pub opencode_progress : Bool
  pub message_id : Option String

-- `Projection::default()`
abbrev pub new_projection : Projection
new_projection = record {
  open_tools = [];
  opencode_text = [];
  opencode_role = none;
  opencode_message_id = none;
  opencode_progress = false;
  message_id = none;
}

abbrev str_of : Value → List String → Option String
str_of v path = and_then (pointer v path) as_str

abbrev assistant_role : Record → Option String → Projection → Projection
assistant_role r id p = record p {
  opencode_role = some r.event_type;
  opencode_text =
      if is_none id || not (option_beq id p.opencode_message_id) then [] else p.opencode_text;
  opencode_message_id = id;
  opencode_progress = option_beq (str_of r.payload ("info" ∷ "finish" ∷ [])) (some "tool-calls");
}

abbrev user_role : Record → Projection → Projection
user_role r p = record p {
  opencode_role = some r.event_type;
  opencode_text = [];
  opencode_message_id = none;
  opencode_progress = false;
}

unfoldable pub note_role : Backend → Record → Projection → Projection
unfolding pointer as_str option_beq backend_eq
note_role backend r p =
    if backend_eq backend opencode && (r.event_type == "user" || r.event_type == "assistant")
    then if r.event_type == "assistant"
      then assistant_role r (str_of r.payload ("info" ∷ "id" ∷ [])) p
      else user_role r p
    else p

-- The text of a part beyond what was sent of it.
unfoldable pub part_delta : String → String → Map String String → String × Map String String
unfolding strip_prefix get insert
part_delta id text previous =
    (unwrap_or (strip_prefix (unwrap_or (get previous id) "") text) text, insert id text previous)

abbrev delta_of : Value → Option String → Map String String → Option String × Map String String
delta_of part none previous = (none, previous)
delta_of part (some text) previous =
    let id =
      unwrap_or
        (and_then
          (or_else (get_key part "id") (or_else (get_key part "partID") (get_key part "partId")))
          as_str)
        "default" in
    let d = part_delta id text previous in (some d.0, d.1)

unfoldable pub opencode_part_delta : Value → Map String String → Option String × Map String String
unfolding part_delta get_key as_str str_at
opencode_part_delta payload previous = elim (get_key payload "part") [
  | none ↦ (none, previous)
  | some part ↦ delta_of part (str_at part "text") previous
]

unfoldable pub joined_texts : Values → String
unfolding str_at option_beq
joined_texts empty = ""
joined_texts (item part parts) =
    join
      (if option_beq (str_at part "type") (some "text")
        then unwrap_or (str_at part "text") ""
        else "")
      (joined_texts parts)

abbrev text_of_parts : Option Values → Option String
text_of_parts none = none
text_of_parts (some parts) = let text = joined_texts parts in if text == "" then none else some text

abbrev text_of : Value → Option String
text_of (string text) = some text
text_of value = text_of_parts (as_array value)

unfoldable pub content_text : Option Value → Option String
unfolding joined_texts as_array
content_text none = none
content_text (some value) = text_of value

pub record AssistantText : Type 0 where
  pub text : String
  pub message_id : Option String
  pub progress : Bool

abbrev codex_text : Value → Option AssistantText
codex_text payload =
    map_option
      (λ text. record {
        text = text;
        message_id = str_at payload "id";
        progress = option_beq (str_at payload "phase") (some "commentary");
      })
      (str_at payload "text")

abbrev claude_text : Value → Option AssistantText
claude_text payload =
    map_option
      (λ text. record {
        text = text;
        message_id = str_of payload ("message" ∷ "id" ∷ []);
        progress = option_beq (str_of payload ("message" ∷ "stop_reason" ∷ [])) (some "tool_use");
      })
      (content_text (pointer payload ("message" ∷ "content" ∷ [])))

abbrev opencode_id : Value → Option String → Option String
opencode_id part message_id =
    or_else (and_then (or_else (get_key part "messageID") (get_key part "messageId")) as_str)
      (or_else message_id (str_at part "id"))

abbrev opencode_text_of :
    Value
    → Projection
    → Option String × Map String String
    → Option AssistantText × Map String String
opencode_text_of part p (text, previous) = (
  map_option
      (λ t. record {
        text = t;
        message_id = opencode_id part p.opencode_message_id;
        progress = p.opencode_progress;
      })
      text,
  previous,
)

abbrev opencode_answer :
    Value → Projection → Option Value → Option AssistantText × Map String String
opencode_answer payload p none = (none, p.opencode_text)
opencode_answer payload p (some part) =
    opencode_text_of part p (opencode_part_delta payload p.opencode_text)

unfoldable pub assistant_text :
    Backend → Record → Projection → Option AssistantText × Map String String
unfolding opencode_part_delta content_text get_key as_str str_at pointer option_beq
assistant_text codex r p =
    (if r.event_type == "agentMessage" then codex_text r.payload else none, p.opencode_text)
assistant_text claude r p =
    (if r.event_type == "assistant" then claude_text r.payload else none, p.opencode_text)
assistant_text opencode r p =
    if r.event_type == "text" && option_beq p.opencode_role (some "assistant")
    then opencode_answer r.payload p (get_key r.payload "part")
    else (none, p.opencode_text)
assistant_text grok r p = (none, p.opencode_text)
