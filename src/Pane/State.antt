-- ===== src/Pane/State.antt =====
-- libslop/src/lib.rs: `PaneState`, `PaneDetailedState` and the names under which tmux keeps them.
use slopd.Base.{
  String, ◌≡◌, ◌↔◌, refl, Bool, true, false, Option, none, some, arith, ◌==◌, eq_iff, if◌then◌else◌,
}

pub data PaneState : Type 0 where
  booting_up ready busy awaiting_input : PaneState

pub data PaneDetailedState : Type 0 where
  booting_up ready busy_processing busy_tool_use busy_subagent busy_compacting : PaneDetailedState
  awaiting_input_permission awaiting_input_elicitation : PaneDetailedState

unfoldable pub simple_as_str : PaneState → String
simple_as_str PaneState.booting_up = "booting_up"
simple_as_str PaneState.ready = "ready"
simple_as_str PaneState.busy = "busy"
simple_as_str PaneState.awaiting_input = "awaiting_input"

unfoldable pub simple_from_str : String → Option PaneState
simple_from_str s =
    if s == "booting_up"
    then some PaneState.booting_up
    else if s == "ready"
    then some PaneState.ready
    else if s == "busy"
    then some PaneState.busy
    else if s == "awaiting_input"
    then some PaneState.awaiting_input
    else none

unfoldable pub as_str : PaneDetailedState → String
as_str PaneDetailedState.booting_up = "booting_up"
as_str PaneDetailedState.ready = "ready"
as_str busy_processing = "busy_processing"
as_str busy_tool_use = "busy_tool_use"
as_str busy_subagent = "busy_subagent"
as_str busy_compacting = "busy_compacting"
as_str awaiting_input_permission = "awaiting_input_permission"
as_str awaiting_input_elicitation = "awaiting_input_elicitation"

unfoldable pub from_str : String → Option PaneDetailedState
from_str s =
    if s == "booting_up"
    then some PaneDetailedState.booting_up
    else if s == "ready"
    then some PaneDetailedState.ready
    else if s == "busy_processing"
    then some busy_processing
    else if s == "busy_tool_use"
    then some busy_tool_use
    else if s == "busy_subagent"
    then some busy_subagent
    else if s == "busy_compacting"
    then some busy_compacting
    else if s == "awaiting_input_permission"
    then some awaiting_input_permission
    else if s == "awaiting_input_elicitation"
    then some awaiting_input_elicitation
    else none

unfoldable pub to_simple : PaneDetailedState → PaneState
to_simple PaneDetailedState.booting_up = PaneState.booting_up
to_simple PaneDetailedState.ready = PaneState.ready
to_simple busy_processing = busy
to_simple busy_tool_use = busy
to_simple busy_subagent = busy
to_simple busy_compacting = busy
to_simple awaiting_input_permission = awaiting_input
to_simple awaiting_input_elicitation = awaiting_input

-- The derived `PartialEq`s.
unfoldable pub simple_eq : PaneState → PaneState → Bool
simple_eq PaneState.booting_up PaneState.booting_up = true
simple_eq PaneState.ready PaneState.ready = true
simple_eq busy busy = true
simple_eq awaiting_input awaiting_input = true
simple_eq _ _ = false

unfoldable pub detailed_eq : PaneDetailedState → PaneDetailedState → Bool
detailed_eq PaneDetailedState.booting_up PaneDetailedState.booting_up = true
detailed_eq PaneDetailedState.ready PaneDetailedState.ready = true
detailed_eq busy_processing busy_processing = true
detailed_eq busy_tool_use busy_tool_use = true
detailed_eq busy_subagent busy_subagent = true
detailed_eq busy_compacting busy_compacting = true
detailed_eq awaiting_input_permission awaiting_input_permission = true
detailed_eq awaiting_input_elicitation awaiting_input_elicitation = true
detailed_eq _ _ = false

pub simple_eq_iff : (a b : PaneState) → (simple_eq a b ≡ true) ↔ (a ≡ b)
unfolding simple_eq
simple_eq_iff a b = ground arith

pub detailed_eq_iff : (a b : PaneDetailedState) → (detailed_eq a b ≡ true) ↔ (a ≡ b)
unfolding detailed_eq
detailed_eq_iff a b = ground arith

-- Every detailed state is read back from the text that tmux keeps of it.
pub from_str-as_str : (s : PaneDetailedState) → from_str (as_str s) ≡ some s
unfolding from_str as_str
from_str-as_str PaneDetailedState.booting_up = refl
from_str-as_str _ = refl

simple_from_str-as_str : (s : PaneState) → simple_from_str (simple_as_str s) ≡ some s
unfolding simple_from_str simple_as_str
simple_from_str-as_str PaneState.booting_up = refl
simple_from_str-as_str _ = refl

-- The text that is read as a detailed state is the text that the state is written as.
pub from_str_canonical : (t : String) (s : PaneDetailedState) → from_str t ≡ some s → as_str s ≡ t
unfolding from_str as_str
from_str_canonical t s h = ground (
  arith,
  eq_iff t "booting_up",
  eq_iff t "ready",
  eq_iff t "busy_processing",
  eq_iff t "busy_tool_use",
  eq_iff t "busy_subagent",
  eq_iff t "busy_compacting",
  eq_iff t "awaiting_input_permission",
  eq_iff t "awaiting_input_elicitation",
)
