-- ===== src/Opencode/Subagents.antt =====
-- The driver of an opencode pane keeps what its comment on `SubagentSet` promises.
use slopd.Base.{
  ℕ, String, Bool, true, false, not, ◌&&◌, ◌||◌, ◌==◌, string_eq, Option, none, some, List, [], ◌∷◌,
  ◌≡◌, refl, sym, ap, ◌∙◌, arith, inl, inr, Bool-cases, Option-cases, subst, get-insert, eq_refl,
  eq_iff, option_beq, unwrap_or, map_option, if◌then◌else◌,
}
use slopd.Pane.State.{PaneDetailedState, busy_subagent, detailed_eq, detailed_eq_iff}
use slopd.Json.Value.{Value}
use slopd.Machine.Update.{set_pane_detailed_state}
use slopd.Opencode.Events.{
  event_to_detailed, event_session_id, is_type, session_created_parent, tui_selected_session,
}
use slopd.Opencode.Driver.{
  OpencodeState, follow_from, follow_active, is_elsewhere, rebound, Driver, Replies, RunConfig,
  set_state, set_target, session_of, follow_opencode_session, reconcile_opencode_session,
  reconcile_opencode_status,
}
use slopd.Opencode.Backstop.{reconcile_opencode_subagents, poll}
use slopd.Opencode.Sse.{
  handle_event, session_event, register_child, select_session, target_of, is_empty, is_child,
  act_on, start_child, status_of_followed, is_unfamiliar,
}

-- While a child session is tracked, the pane is busy with a subagent.
abbrev pub IsTracking : Driver → Type 0
IsTracking d = is_empty d.subagents ≡ false → d.tracked.detailed_state ≡ busy_subagent

-- A state that is decided is taken, and the children stay.
set_state-detailed_state :
    (r : Replies) (new : PaneDetailedState) (d : Driver)
    → (set_state r new d).tracked.detailed_state ≡ new
unfolding set_pane_detailed_state
set_state-detailed_state r new d = elim (Bool-cases (detailed_eq new d.tracked.detailed_state)) [
  | inl e ↦ rw e (sym ((detailed_eq_iff new d.tracked.detailed_state).0 e))
  | inr e ↦ rw (e, (detailed_eq_iff d.tracked.detailed_state d.tracked.detailed_state).1 refl) refl
]

set_state-subagents :
    (r : Replies) (new : PaneDetailedState) (d : Driver)
    → (set_state r new d).subagents ≡ d.subagents
set_state-subagents r new d = elim (Bool-cases (detailed_eq new d.tracked.detailed_state)) [
  | inl e ↦ rw e
  | inr e ↦ rw e
]

set_target-subagents :
    (r : Replies) (target : Option PaneDetailedState) (d : Driver)
    → (set_target r target d).subagents ≡ d.subagents
set_target-subagents r none d = refl
set_target-subagents r (some new) d = set_state-subagents r new d

-- Without a child nothing is promised.
none-IsTracking : (d : Driver) → is_empty d.subagents ≡ true → IsTracking d
none-IsTracking d h k = absurd (ground (arith, h, k))

busy-IsTracking : (r : Replies) (d : Driver) → IsTracking (set_state r busy_subagent d)
busy-IsTracking r d h = set_state-detailed_state r busy_subagent d

idle-IsTracking :
    (r : Replies) (target : Option PaneDetailedState) (d : Driver)
    → is_empty d.subagents ≡ true
    → IsTracking (set_target r target d)
idle-IsTracking r target d h =
    none-IsTracking (set_target r target d) (ap is_empty (set_target-subagents r target d) ∙ h)

target-IsTracking :
    (r : Replies) (main : Bool) (event : Value) (d : Driver)
    → IsTracking (set_target r (target_of main event d) d)
target-IsTracking r main event d = elim (Bool-cases (is_empty d.subagents)) [
  | inl e ↦
      rw (e, target_of) (idle-IsTracking r (if main then event_to_detailed event else none) d e)
  | inr e ↦ rw (e, target_of) (busy-IsTracking r d)
]

follow_from-IsTracking :
    (expected selected : String) (oc : Option OpencodeState) (d : Driver)
    → IsTracking d
    → IsTracking (follow_from expected selected oc d)
follow_from-IsTracking expected selected none d h = h
follow_from-IsTracking expected selected (some o) d h =
    elim (Bool-cases (not (o.session_id == expected) || selected == expected)) [
      | inl e ↦ rw e h
      | inr e ↦ rw e (λ k. absurd (ground (arith, k)))
    ]

follow-IsTracking :
    (expected selected : String) (d : Driver)
    → IsTracking d
    → IsTracking (follow_opencode_session expected selected d)
unfolding follow_opencode_session
follow-IsTracking expected selected d h = follow_from-IsTracking expected selected d.oc d h

follow_active-IsTracking :
    (oc : Option OpencodeState) (active : Option String) (d : Driver)
    → IsTracking d
    → IsTracking (follow_active oc active d)
follow_active-IsTracking none active d h = h
follow_active-IsTracking (some o) none d h = h
follow_active-IsTracking (some o) (some selected) d h = follow-IsTracking o.session_id selected d h

reconcile_session-IsTracking :
    (r : Replies) (d : Driver) → IsTracking d → IsTracking (reconcile_opencode_session r d)
unfolding reconcile_opencode_session
reconcile_session-IsTracking r d h = follow_active-IsTracking d.oc r.active d h

session_event-IsTracking :
    (config : RunConfig) (r : Replies) (session : String) (event : Value) (d : Driver)
    → (is_child (event_session_id event) d ≡ false → IsTracking d)
    → IsTracking (session_event config r session event d)
unfolding session_event
session_event-IsTracking config r session event d h =
    let main = option_beq (event_session_id event) (some session) in
    let child = is_child (event_session_id event) d in
    elim (Bool-cases (not main && not child)) [
      | inl e ↦ rw e (h (ground (arith, e)))
      | inr e ↦ rw e (target-IsTracking r main event (act_on config r.now session event d))
    ]

register_child-IsTracking :
    (session : String) (now : ℕ) (event : Value) (d : Driver)
    → IsTracking d
    → is_child (event_session_id event) (register_child session now event d) ≡ false
    → IsTracking (register_child session now event d)
unfolding register_child
register_child-IsTracking session now event d h k =
    elim (Bool-cases (
      is_type event "session.created"
      && option_beq (session_created_parent event) (some session))) [
        | inl e ↦ rw e (started (event_session_id event) refl (rw e at k))
        | inr e ↦ rw e h
      ]
  where
    started :
        (sid : Option String)
        → event_session_id event ≡ sid
        → is_child sid (start_child session now event sid d) ≡ false
        → IsTracking (start_child session now event sid d)
    started none f j = h
    started (some sid) f j =
        absurd (ground (arith, j, get-insert sid sid now d.subagents, eq_refl sid))

idle_status-IsTracking :
    (session : String) (r : Replies) (d : Driver)
    → is_empty d.subagents ≡ true
    → IsTracking (reconcile_opencode_status session r d)
unfolding reconcile_opencode_status
idle_status-IsTracking session r d h = elim (Bool-cases (is_elsewhere session d.oc)) [
  | inl e ↦ rw e (none-IsTracking d h)
  | inr e ↦ rw e (idle-IsTracking r r.target d h)
]

select_session-IsTracking :
    (r : Replies) (session selected before : String) (d : Driver)
    → session ≡ session_of d before
    → IsTracking d
    → IsTracking (select_session r session selected d)
unfolding select_session
select_session-IsTracking r session selected before d e h =
    elim (Bool-cases (selected == session)) [
      | inl same ↦ rw same h
      | inr n ↦ rw n (selected_from d.oc refl n)
    ]
  where
    selected_from :
        (oc : Option OpencodeState)
        → d.oc ≡ oc
        → (selected == session) ≡ false
        → IsTracking (
            status_of_followed r
              (follow_from session selected oc d).oc
              (follow_from session selected oc d))
    selected_from none f n = subst (λ o. IsTracking (status_of_followed r o d)) (sym f) h
    selected_from (some o) f n =
        let here : (o.session_id == session) ≡ true = (eq_iff o.session_id session).1 (
          sym (
            e
            ∙ ap (λ oc. unwrap_or (map_option (λ (o : OpencodeState). o.session_id) oc) before)
                f)) in
        rw (here, n) (idle_status-IsTracking selected r (rebound selected o d) refl)

poll-IsTracking : (r : Replies) (spawned : String) (d : Driver) → IsTracking (poll r spawned d)
unfolding poll reconcile_opencode_status
poll-IsTracking r spawned d =
    let bound = reconcile_opencode_session r d in
    let pruned = reconcile_opencode_subagents (session_of bound spawned) r bound in
    elim (Bool-cases (is_empty pruned.subagents)) [
      | inl e ↦ rw e (idle_status-IsTracking (session_of bound spawned) r pruned e)
      | inr e ↦ rw e (busy-IsTracking r pruned)
    ]

handle_event-IsTracking :
    (config : RunConfig) (r : Replies) (spawned : String) (event : Value) (d : Driver)
    → IsTracking d
    → IsTracking (handle_event config r spawned event d)
unfolding handle_event
handle_event-IsTracking config r spawned event d h =
    let before = session_of d spawned in
    let bound = if is_unfamiliar before event then reconcile_opencode_session r d else d in
    let session = session_of bound before in
    let b : IsTracking bound = elim (Bool-cases (is_unfamiliar before event)) [
      | inl e ↦ rw e (reconcile_session-IsTracking r d h)
      | inr e ↦ rw e h
    ] in
    elim (Option-cases (tui_selected_session event)) [
      | inl e ↦ rw e (
          session_event-IsTracking config r session event (register_child session r.now event bound)
            (register_child-IsTracking session r.now event bound b))
      | inr (selected, e) ↦ rw e (select_session-IsTracking r session selected before bound refl b)
    ]

-- What the two tasks of a driver do: the reader handles an event, the backstop takes a round.
pub data Step : Type 0 where
  event : Replies → Value → Step
  round : Replies → Step

unfoldable pub take_step : RunConfig → String → Step → Driver → Driver
unfolding handle_event poll
take_step config spawned (event r e) d = handle_event config r spawned e d
take_step config spawned (round r) d = poll r spawned d

unfoldable pub drive : RunConfig → String → List Step → Driver → Driver
unfolding take_step
drive config spawned [] d = d
drive config spawned (s ∷ ss) d = drive config spawned ss (take_step config spawned s d)

take_step-IsTracking :
    (config : RunConfig) (spawned : String) (s : Step) (d : Driver)
    → IsTracking d
    → IsTracking (take_step config spawned s d)
unfolding take_step
take_step-IsTracking config spawned (event r e) d h = handle_event-IsTracking config r spawned e d h
take_step-IsTracking config spawned (round r) d h = poll-IsTracking r spawned d

-- Whatever events the embedded server sends and whatever it and tmux answer, a pane of opencode that
-- has a tracked child session is in the state `busy_subagent` after each event and each round of the
-- backstop, when events and rounds follow one another.
pub drive-IsTracking :
    (config : RunConfig) (spawned : String) (steps : List Step) (d : Driver)
    → IsTracking d
    → IsTracking (drive config spawned steps d)
unfolding drive
drive-IsTracking config spawned [] d h = h
drive-IsTracking config spawned (s ∷ ss) d h =
    drive-IsTracking config spawned ss (take_step config spawned s d)
      (take_step-IsTracking config spawned s d h)
