-- ===== src/Opencode/Agreement.antt =====
-- The states, the hooks and the subagent test of slopd/src/opencode.rs agree with one another and with
-- `reduce_hook_event` of slopd/src/main.rs.
use slopd.Base.{
  String, Bool, true, false, ◌||◌, Option, none, some, ◌≡◌, refl, sym, subst, string_eq, eq_iff,
  ◌==◌, inl, inr, Bool-cases, if◌then◌else◌, or_else, List, [], ◌∷◌, All,
}
use slopd.Pane.State.{
  PaneDetailedState, busy_processing, awaiting_input_permission, PaneState, to_simple,
}
use slopd.Json.Value.{Value}
use slopd.Machine.Reduce.{reduce_hook_event}
use slopd.Opencode.Status.{
  status_to_detailed, status_is_working, status_word, state_of_word, flag, is_working_word,
}
use slopd.Opencode.Events.{hook_of, detailed_of}

abbrev Agrees : Value → String → Value → String → Type 0
Agrees extra name props t =
    hook_of t props ≡ some (name, extra) → detailed_of t props ≡ reduce_hook_event name none

-- A claim about a text holds if it holds of some literals and of every other text.
by_literal :
    (P : String → Type 0) (t : String) (literals : List String)
    → All P literals
    → (All (λ l. (t == l) ≡ false) literals → P t)
    → P t
by_literal P t [] h other = other tt
by_literal P t (l ∷ ls) h other = elim (Bool-cases (t == l)) [
  | inl e ↦ subst P (sym ((eq_iff t l).0 e)) h.0
  | inr e ↦ by_literal P t ls h.1 (λ k. other (e, k))
]

abbrev name_in : Option (String × Value) → String
name_in none = ""
name_in (some (name, extra)) = name

abbrev pub is_busy : Option PaneDetailedState → Bool
is_busy none = false
is_busy (some d) = elim (to_simple d) [ PaneState.busy ↦ true | _ ↦ false ]

abbrev word_state : Bool → String → Option PaneDetailedState
word_state asks w =
    or_else (state_of_word w) (
      if false then some busy_processing else if asks then some awaiting_input_permission else none)

abbrev status_words : List String
status_words =
    "idle" ∷ "ready" ∷ "waiting" ∷ "completed" ∷ "busy" ∷ "running" ∷ "processing" ∷ "streaming"
    ∷ "retry" ∷ "tool" ∷ "tool_use" ∷ "busy_tool_use" ∷ "permission" ∷ "awaiting_permission"
    ∷ "awaiting_input_permission" ∷ "compacting" ∷ "question" ∷ []

asking : (asks : Bool) → is_busy (if asks then some awaiting_input_permission else none) ≡ false
unfolding to_simple
asking true = refl
asking false = refl

word_is_busy :
    (asks : Bool) (w : String)
    → is_busy (word_state asks w)
      ≡ (is_working_word w || false || w == "retry" || w == "busy_tool_use")
unfolding state_of_word to_simple
word_is_busy asks w =
    by_literal
      (λ w.
        is_busy (word_state asks w)
        ≡ (is_working_word w || false || w == "retry" || w == "busy_tool_use"))
      w status_words
      (
        refl,
        (
          refl,
          (
            refl,
            (
              refl,
              (
                refl,
                (
                  refl,
                  (
                    refl,
                    (
                      refl,
                      (refl, (refl, (refl, (refl, (refl, (refl, (refl, (refl, (refl, tt))))))))),
                    ),
                  ),
                ),
              ),
            ),
          ),
        ),
      )
      (λ n.
        rw
          (
            n.0, n.1.0, n.1.1.0, n.1.1.1.0, n.1.1.1.1.0, n.1.1.1.1.1.0, n.1.1.1.1.1.1.0,
            n.1.1.1.1.1.1.1.0, n.1.1.1.1.1.1.1.1.0, n.1.1.1.1.1.1.1.1.1.0, n.1.1.1.1.1.1.1.1.1.1.0,
            n.1.1.1.1.1.1.1.1.1.1.1.0, n.1.1.1.1.1.1.1.1.1.1.1.1.0, n.1.1.1.1.1.1.1.1.1.1.1.1.1.0,
            n.1.1.1.1.1.1.1.1.1.1.1.1.1.1.0, n.1.1.1.1.1.1.1.1.1.1.1.1.1.1.1.0,
            n.1.1.1.1.1.1.1.1.1.1.1.1.1.1.1.1.0,
          )
          (asking asks))

-- Without the flag `busy`, a status stands for a busy pane exactly when its session counts as working
-- for the subagents, or when it is retrying, or when its word is `busy_tool_use`, which the test for
-- working leaves out.
pub is_busy-status_to_detailed :
    (status : Value)
    → flag status "busy" ≡ false
    → is_busy (status_to_detailed status) ≡ (
        status_is_working status
        || status_word status == "retry"
        || status_word status == "busy_tool_use")
unfolding status_to_detailed status_is_working to_simple
is_busy-status_to_detailed status h =
    rw h (word_is_busy (flag status "awaitingPermission") (status_word status))
