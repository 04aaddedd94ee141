-- ===== src/Machine/Grok.antt =====
-- slopd/src/grok.rs: `transcript_state` and `terminal_prompt_id`.
use slopd.Base.{
  String, Bool, not, ◌&&◌, ◌||◌, Option, none, some, [], ◌∷◌, and_then, or_else, is_some, is_none,
  ◌==◌, string_eq, option_beq, if◌then◌else◌,
}
use slopd.Pane.State.{PaneDetailedState}
use slopd.Json.Value.{Value, get_key, pointer, as_str, str_at}

unfoldable pub terminal_prompt_id : Value → Option String
terminal_prompt_id r =
    and_then
      (or_else (pointer r ("params" ∷ "update" ∷ "prompt_id" ∷ [])) (
        or_else (pointer r ("params" ∷ "update" ∷ "promptId" ∷ [])) (
          or_else (pointer r ("update" ∷ "prompt_id" ∷ []))
            (pointer r ("update" ∷ "promptId" ∷ [])))))
      as_str

abbrev update_of : Value → Option Value
update_of r = or_else (pointer r ("params" ∷ "update" ∷ [])) (get_key r "update")

-- Whether a terminal record belongs to the turn that the pane waits for.
abbrev pub ends_turn : Option String → Option String → Bool → Option String → Bool
ends_turn prompt_id active unbound stop_reason =
    (is_some prompt_id && option_beq prompt_id active)
    || (is_none active && unbound && not (option_beq stop_reason (some "cancelled")))

abbrev on_update : Option String → Option String → Bool → Value → Option PaneDetailedState
on_update prompt_id active unbound update = elim (str_at update "sessionUpdate") [
  | none ↦ none
  | some event ↦
      if event == "turn_completed"
        && ends_turn prompt_id active unbound (str_at update "stop_reason")
      then some PaneDetailedState.ready
      else none
]

unfoldable pub transcript_state : Value → Option String → Bool → Option PaneDetailedState
unfolding terminal_prompt_id
transcript_state r active unbound =
    and_then (update_of r) (on_update (terminal_prompt_id r) active unbound)
