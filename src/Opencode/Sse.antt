-- ===== src/Opencode/Sse.antt =====
-- slopd/src/main.rs: the body of the loop of `read_opencode_sse`.
use slopd.Base.{
  ℕ, String, Bool, true, false, not, ◌&&◌, ◌||◌, Option, none, some, [], ◌∷◌, Map, get, insert,
  remove_key, is_some, ◌==◌, string_eq, option_beq, if◌then◌else◌,
}
use slopd.Pane.State.{PaneDetailedState, busy_subagent, detailed_eq}
use slopd.Json.Value.{Value}
use slopd.Machine.Update.{set_pane_detailed_state}
use slopd.Opencode.Events.{
  event_session_id, event_type, is_type, session_created_parent, tui_selected_session,
  event_to_detailed, role_of, properties_of,
}
use slopd.Opencode.Driver.{
  OpencodeState, Driver, Replies, RunConfig, send, set_target, session_of, follow_opencode_session,
  reconcile_opencode_session, reconcile_opencode_status, stop_record, start_record,
}
use slopd.Opencode.Turn.{main_event}

abbrev pub is_child : Option String → Driver → Bool
is_child none d = false
is_child (some sid) d = is_some (get d.subagents sid)

abbrev pub is_end : Value → Bool
is_end event =
    is_type event "session.idle" || is_type event "session.deleted" || is_type event "session.error"

-- A child session of the pane's session is registered, and dropped when it ends.
abbrev pub start_child : String → ℕ → Value → Option String → Driver → Driver
start_child session now event none d = d
start_child session now event (some sid) d =
    send "hook" "SubagentStart" (start_record session sid (properties_of event))
      (record d { subagents = insert sid now d.subagents })

unfoldable pub register_child : String → ℕ → Value → Driver → Driver
unfolding session_created_parent event_session_id event_type option_beq insert
register_child session now event d =
    if is_type event "session.created" && option_beq (session_created_parent event) (some session)
    then start_child session now event (event_session_id event) d
    else d

abbrev stop_child : String → Option String → Driver → Driver
stop_child session none d = d
stop_child session (some sid) d =
    send "hook" "SubagentStop" (stop_record session sid)
      (record d { subagents = remove_key sid d.subagents })

abbrev pub is_empty : Map String ℕ → Bool
is_empty [] = true
is_empty (c ∷ cs) = false

abbrev pub target_of : Bool → Value → Driver → Option PaneDetailedState
target_of main event d =
    if not (is_empty d.subagents)
    then some busy_subagent
    else if main
    then event_to_detailed event
    else none

-- A child that ends is dropped; the side effects are for the main session only.
abbrev pub act_on : RunConfig → ℕ → String → Value → Driver → Driver
act_on config now session event d =
    let sid = event_session_id event in
    let stopped = if is_child sid d && is_end event then stop_child session sid d else d in
    if option_beq sid (some session) then main_event config now event stopped else stopped

-- From the test for the main session or a child to the end of the loop's body.
unfoldable pub session_event : RunConfig → Replies → String → Value → Driver → Driver
unfolding main_event event_to_detailed event_session_id event_type option_beq
    set_pane_detailed_state detailed_eq get remove_key
session_event config r session event d =
    let main = option_beq (event_session_id event) (some session) in
    let acted = act_on config r.now session event d in
    if not main && not (is_child (event_session_id event) d)
    then d
    else set_target r (target_of main event acted) acted

abbrev pub is_unfamiliar : String → Value → Bool
is_unfamiliar session event =
    is_some (event_session_id event)
    && not (option_beq (event_session_id event) (some session))
    && (is_type event "session.status" && elim (event_to_detailed event) [
      | none ↦ false
      | some state ↦ not (detailed_eq state PaneDetailedState.ready)
    ]
        || is_type event "message.updated"
          && option_beq (role_of (properties_of event)) (some "user"))

abbrev pub status_of_followed : Replies → Option OpencodeState → Driver → Driver
status_of_followed r none d = d
status_of_followed r (some o) d = reconcile_opencode_status o.session_id r d

unfoldable pub select_session : Replies → String → String → Driver → Driver
unfolding follow_opencode_session reconcile_opencode_status
select_session r session selected d =
    if selected == session
    then d
    else let followed = follow_opencode_session session selected d in
      status_of_followed r followed.oc followed

abbrev selected_or : Option String → (String → Driver) → Driver → Driver
selected_or none f d = d
selected_or (some selected) f d = f selected

-- One event; `spawned` is the session that the driver was started for.
unfoldable pub handle_event : RunConfig → Replies → String → Value → Driver → Driver
unfolding session_event register_child select_session reconcile_opencode_session
    tui_selected_session event_to_detailed
handle_event config r spawned event d =
    let before = session_of d spawned in
    let bound = if is_unfamiliar before event then reconcile_opencode_session r d else d in
    let session = session_of bound before in
    if is_some (tui_selected_session event)
    then selected_or (tui_selected_session event) (λ s. select_session r session s bound) bound
    else session_event config r session event (register_child session r.now event bound)
