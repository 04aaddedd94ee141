-- ===== src/Examples/TranscriptRuns.antt =====
-- Transcripts, payload paths and arguments at concrete inputs.
use slopd.Base.{ℕ, String, true, none, List, [], ◌∷◌, ◌≡◌, refl, any, option_beq}
use slopd.Json.Value.{
  Value, number, string, array, object, empty, item, no_fields, field, pointer, as_str, get_key,
  field_of,
}
use slopd.Json.Path.{
  key, any_element, PathSegment, scalar_eq, path_matches, reached, path_matches-reached,
}
use slopd.Rewind.{Entry, is_marker, filter_rewind_records}
use slopd.Rewind.Branch.{conversation, flatten, new_branch, filter_rewind_records-conversation}
use slopd.Resume.{extract_resume_target, strip_resume_flags, Reading, extract_resume_target-strip}

abbrev update_record : String → Value → Value
update_record method update = object (
    field "method" (string method)
      (field "params" (object (field "update" update no_fields)) no_fields))

abbrev prompt : ℕ → Entry
prompt n = (
  n,
  update_record "session/update"
      (object (field "sessionUpdate" (string "user_message_chunk") no_fields)),
)

abbrev marker : ℕ → Entry
marker n = (
  n,
  update_record "_x.ai/session/update" (
      object (
        field "sessionUpdate" (string "rewind_marker")
          (field "target_prompt_index" (number 0) no_fields))),
)

abbrev rewound : List Entry
rewound = prompt 1 ∷ marker 2 ∷ prompt 3 ∷ []

has_marker : any is_marker rewound ≡ true
unfolding pointer get_key field_of as_str option_beq
has_marker = refl

filter_rewind_records-conversation_example :
    filter_rewind_records rewound ≡ flatten (conversation rewound new_branch)
filter_rewind_records-conversation_example = filter_rewind_records-conversation rewound has_marker

abbrev payload : Value
payload = object (field "content" (array (item (string "text") (item (number 3) empty))) no_fields)

abbrev content_path : List PathSegment
content_path = key "content" ∷ any_element ∷ []

path_matches-reached_example :
    path_matches payload content_path "3"
    ≡ any (λ w. scalar_eq w "3") (reached content_path payload)
path_matches-reached_example = path_matches-reached payload content_path "3"

abbrev arguments : List String
arguments = "--resume" ∷ "id" ∷ "--session=x" ∷ "--model" ∷ []

extract_resume_target-strip_example :
    Reading arguments (strip_resume_flags arguments)
    × (extract_resume_target (strip_resume_flags arguments) ≡ none)
extract_resume_target-strip_example = extract_resume_target-strip arguments
