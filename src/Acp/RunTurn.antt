-- ===== src/Acp/RunTurn.antt =====
-- slopd-acp/src/adapter.rs: the loop of `run_turn`, with `complete_turn`.
use slopd.Base.{
  String, Bool, true, false, not, ◌&&◌, ◌||◌, Option, none, some, List, [], ◌∷◌, ◌++◌, option_beq,
  map, ◌==◌, string_eq, if◌then◌else◌,
}
use slopd.Pane.Agent.{Backend, codex, backend_eq}
use slopd.Json.Value.{Value, get_key, as_bool, str_at}
use slopd.Json.Record.{Record}
use slopd.Acp.Gate.{accepts, take_buffered}
use slopd.Acp.Tools.{message_chunk}
use slopd.Acp.ToolUpdates.{finish_open_tools}
use slopd.Acp.Emit.{
  Sent, Turn, TurnConfig, TurnEnd, TurnEvent, and_then_sent, bool_at, cancel, cancelled, closed,
  emit_all, emit_record_updates, end_turn, hear, hear_all, own_update, pane_gone, state_record,
  subscription_failed, transcript_record, turn_failed,
}

abbrev pub Step : Type 0
Step = List Sent × (Option TurnEnd × Turn)

abbrev pub goes_on : List Sent × Turn → Step
goes_on (sent, t) = (sent, (none, t))

abbrev pub finished : List Sent × Turn → Step
finished (sent, t) = (
  sent ++ map own_update (finish_open_tools t.projection.open_tools),
  (some end_turn, record t { projection = record t.projection { open_tools = [] } }),
)

abbrev pub after_drain : TurnConfig → Bool → List Sent × Turn → Step
after_drain config true (sent, t) = (sent, (some subscription_failed, t))
after_drain config false (sent, t) = finished (
    and_then_sent (sent, t)
      (λ u.
        emit_all config (take_buffered u.gate).0 (record u { gate = (take_buffered u.gate).1 })))

unfoldable pub complete_turn : TurnConfig → List Record → Bool → Turn → Step
unfolding hear_all emit_all take_buffered finish_open_tools
complete_turn config drained fails t = after_drain config fails (hear_all config drained t)

unfoldable pub state_ready_completes : Backend → Bool → Bool → Bool
unfolding backend_eq
state_ready_completes backend saw_busy saw_answer =
    if backend_eq backend codex then saw_answer else saw_busy || saw_answer

abbrev pub same_session : Option String → Option String → Bool
same_session (some expected) (some actual) = expected == actual
same_session none actual = true
same_session (some expected) none = true

unfoldable pub hook_matches_session : Backend → Option String → Value → Bool
unfolding backend_eq str_at
hook_matches_session backend expected payload =
    if not (backend_eq backend codex)
    then true
    else same_session expected (str_at payload "session_id")

abbrev pub stays : Turn → Step
stays t = ([], (none, t))

abbrev pub ends : TurnEnd → Turn → Step
ends e t = ([], (some e, t))

abbrev pub busy : Turn → Step
busy t = stays (record t { saw_busy = true; retry_pending = false })

abbrev pub notice : String → Turn → Step
notice text t = (own_update (message_chunk text) ∷ [], (none, t))

abbrev pub is_state : Value → String → Bool
is_state payload state = option_beq (str_at payload "state") (some state)

abbrev pub is_detailed : Value → String → Bool
is_detailed payload state = option_beq (str_at payload "detailed_state") (some state)

abbrev pub on_hook : TurnConfig → Record → List Record → Bool → Turn → Step
on_hook config r drained fails t =
    if r.event_type == "SessionEnd"
    then ends (pane_gone (str_at r.payload "session_id")) t
    else if r.event_type == "Stop"
    then complete_turn config drained fails t
    else if bool_at r.payload "retry_scheduled"
    then stays (record t { retry_pending = true })
    else ends (turn_failed r.payload) t

abbrev pub on_state : TurnConfig → Value → List Record → Bool → Turn → Step
on_state config payload drained fails t =
    if is_state payload "busy"
    then busy t
    else if is_state payload "ready"
        && not t.retry_pending
        && state_ready_completes config.backend t.saw_busy t.saw_answer
    then complete_turn config drained fails t
    else stays t

abbrev pub is_working : Value → Bool
is_working payload =
    is_detailed payload "busy_processing"
    || is_detailed payload "busy_tool_use"
    || is_detailed payload "busy_subagent"
    || is_detailed payload "busy_compacting"

abbrev pub on_detailed : Value → Turn → Step
on_detailed payload t =
    if is_working payload
    then busy t
    else if is_detailed payload "awaiting_input_permission"
    then notice
        "\n\n[slopd-acp: the underlying agent is awaiting permission in its terminal pane.]\n" t
    else if is_detailed payload "awaiting_input_elicitation"
    then notice "\n\n[slopd-acp: the underlying agent is awaiting input in its terminal pane.]\n" t
    else stays t

abbrev is_lifecycle : String → Bool
is_lifecycle t = t == "Stop" || t == "StopFailure" || t == "SessionEnd"

abbrev pub is_own_hook : TurnConfig → Record → Bool
is_own_hook config r =
    is_lifecycle r.event_type
    && hook_matches_session config.backend config.native_session_id r.payload

abbrev pub on_record : TurnConfig → Record → List Record → Bool → Turn → Step
on_record config r drained fails t =
    if r.event_type == "PaneDestroyed"
    then ends (pane_gone (str_at r.payload "session_id")) t
    else if is_own_hook config r
    then on_hook config r drained fails t
    else if r.event_type == "StateChange"
    then on_state config r.payload drained fails t
    else if r.event_type == "DetailedStateChange"
    then on_detailed r.payload t
    else stays t

abbrev pub turn_step : TurnConfig → TurnEvent → Turn → Step
turn_step config (transcript_record r) t = goes_on (hear config r t)
turn_step config (state_record r drained fails) t = on_record config r drained fails t
turn_step config closed t = ends subscription_failed t
turn_step config cancel t = ends cancelled t

abbrev pub and_then_step : Step → (Turn → Step) → Step
and_then_step (sent, (some e, t)) f = (sent, (some e, t))
and_then_step (sent, (none, t)) f = let rest = f t in (sent ++ rest.0, rest.1)

unfoldable pub run_turn : TurnConfig → List TurnEvent → Turn → Step
unfolding emit_record_updates accepts complete_turn state_ready_completes hook_matches_session
    message_chunk str_at option_beq as_bool get_key
run_turn config [] t = stays t
run_turn config (event ∷ events) t =
    and_then_step (turn_step config event t) (λ u. run_turn config events u)
