-- ===== src/Machine/Update.antt =====
-- slopd/src/main.rs: `set_pane_detailed_state_inner` and its three callers. The state mutex of the
-- pane makes a call one step. tmux may refuse either option; it then keeps the value it had.
use slopd.Base.{
  String, Bool, true, false, not, ◌&&◌, Option, none, some, List, [], ◌∷◌, ◌++◌, is_none,
  map_option, option_beq, string_eq, if◌then◌else◌,
}
use slopd.Pane.State.{PaneState, PaneDetailedState, to_simple, simple_eq, detailed_eq}

-- The two records that a change may send.
pub data Change : Type 0 where
  state_change : (state : PaneState) (previous : Option PaneState) → Change
  detailed_state_change :
      (detailed_state : PaneDetailedState) (previous : Option PaneDetailedState) → Change

pub record Tracked : Type 0 where
  pub detailed_state : PaneDetailedState
  pub grok_active_prompt_id : Option String
  pub grok_unbound_prompt_active : Bool
  pub tmux_state : Option PaneState
  pub tmux_detailed_state : Option PaneDetailedState
  pub sent : List Change

pub data GrokTerminalGuard : Type 0 where
  active_prompt : String → GrokTerminalGuard
  no_active_prompt : GrokTerminalGuard

unfoldable pub guard_matches : GrokTerminalGuard → Tracked → Bool
guard_matches (active_prompt expected) s = option_beq s.grok_active_prompt_id (some expected)
guard_matches no_active_prompt s = is_none s.grok_active_prompt_id && s.grok_unbound_prompt_active

abbrev end_prompt : Tracked → Tracked
end_prompt s = record s { grok_active_prompt_id = none; grok_unbound_prompt_active = false }

-- Whether the state has moved on since the caller read it.
abbrev pub is_stale : Option PaneDetailedState → PaneDetailedState → Bool
is_stale none current = false
is_stale (some expected) current = not (detailed_eq current expected)

abbrev is_same_simple : Option PaneState → PaneState → Bool
is_same_simple none s = false
is_same_simple (some p) s = simple_eq p s

abbrev pub announced : PaneDetailedState → Option PaneDetailedState → List Change
announced detailed previous =
    let simple = to_simple detailed in
    let before = map_option to_simple previous in
    let last = detailed_state_change detailed previous ∷ [] in
    if is_same_simple before simple then last else state_change simple before ∷ last

-- `state_ok` and `detailed_ok`: whether tmux took the option.
abbrev pub write_state :
    PaneDetailedState → Option PaneDetailedState → (state_ok detailed_ok : Bool) → Tracked → Tracked
write_state detailed previous state_ok detailed_ok s = record s {
  detailed_state = detailed;
  tmux_state = if state_ok then some (to_simple detailed) else s.tmux_state;
  tmux_detailed_state = if detailed_ok then some detailed else s.tmux_detailed_state;
  sent = s.sent ++ announced detailed previous;
}

abbrev pub set_unless_stale :
    PaneDetailedState
    → Option PaneDetailedState
    → (reject_stale state_ok detailed_ok : Bool) → Tracked
    → Tracked
set_unless_stale detailed previous reject_stale state_ok detailed_ok s =
    if reject_stale && is_stale previous s.detailed_state
    then s
    else write_state detailed previous state_ok detailed_ok s

unfoldable pub set_pane_detailed_state_inner :
    PaneDetailedState
    → Option PaneDetailedState
    → (reject_stale : Bool) → Option GrokTerminalGuard
    → (state_ok detailed_ok : Bool) → Tracked
    → Tracked
unfolding guard_matches
set_pane_detailed_state_inner detailed previous reject_stale none state_ok detailed_ok s =
    set_unless_stale detailed previous reject_stale state_ok detailed_ok s
set_pane_detailed_state_inner detailed previous reject_stale (some guard) state_ok detailed_ok s =
    if guard_matches guard s
    then set_unless_stale detailed previous reject_stale state_ok detailed_ok (end_prompt s)
    else s

unfoldable pub set_pane_detailed_state :
    PaneDetailedState → Option PaneDetailedState → (state_ok detailed_ok : Bool) → Tracked → Tracked
unfolding set_pane_detailed_state_inner
set_pane_detailed_state detailed previous =
    set_pane_detailed_state_inner detailed previous true none

unfoldable pub set_grok_terminal_detailed_state :
    PaneDetailedState
    → Option PaneDetailedState
    → GrokTerminalGuard
    → (state_ok detailed_ok : Bool) → Tracked
    → Tracked
unfolding set_pane_detailed_state_inner
set_grok_terminal_detailed_state detailed previous guard =
    set_pane_detailed_state_inner detailed previous true (some guard)

unfoldable pub set_hook_detailed_state :
    PaneDetailedState → Option PaneDetailedState → (state_ok detailed_ok : Bool) → Tracked → Tracked
unfolding set_pane_detailed_state_inner
set_hook_detailed_state detailed previous =
    set_pane_detailed_state_inner detailed previous false none
