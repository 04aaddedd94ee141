-- ===== src/Acp/Residency.antt =====
-- slopd-acp/src/adapter.rs: `ensure_session_resident`, which gives a session its pane back.
use slopd.Base.{
  String, Bool, true, false, ◌&&◌, Option, none, some, List, get, ok, err, is_some, or_else,
  if◌then◌else◌, string_eq,
}
use slopd.Pane.Agent.{codex, backend_eq}
use slopd.Pane.Info.{PaneInfo}
use slopd.Acp.Session.{
  Session, StartedPane, Adapter, unreachable, start_failed, not_tagged, unknown_session, releasing,
  disappeared, acquired_another, modify,
}
use slopd.Acp.Eviction.{Outcome, EvictionReply, reconcile_live_sessions, make_live_pane_room}

-- What the daemon answers while a session gets a pane: `ps` before and inside `make_live_pane_room`, an
-- eviction, `revive_pane`, `start_pane` and `tag_session_pane`.
pub record ResidentReplies : Type 0 where
  pub panes_before : Option (List PaneInfo)
  pub panes : Option (List PaneInfo)
  pub eviction : EvictionReply
  pub revived : Option StartedPane
  pub started : Option StartedPane
  pub tagged : Bool

abbrev pub then_do : Outcome → (Adapter → Outcome) → Outcome
then_do (ok u, a) f = f a
then_do (err e, a) f = (err e, a)

abbrev pub is_resident : Option Session → Bool
is_resident none = false
is_resident (some s) = is_some s.pane_id

abbrev pub refreshed : Option (List PaneInfo) → Adapter → Outcome
refreshed none a = (err unreachable, a)
refreshed (some panes) a = (ok tt, reconcile_live_sessions panes a)

-- A pane that a new run started: it resumes if a native session was asked for.
abbrev newly_started : ResidentReplies → Session → Option (StartedPane × Bool)
newly_started r s = elim r.started [ none ↦ none | some p ↦ some (p, is_some s.native_session_id) ]

abbrev revived_or_started :
    ResidentReplies → Session → Option StartedPane → Option (StartedPane × Bool)
revived_or_started r s none = newly_started r s
revived_or_started r s (some p) = some (p, true)

abbrev pub started_for : ResidentReplies → Session → Option String → Option (StartedPane × Bool)
started_for r s none = newly_started r s
started_for r s (some grave) = revived_or_started r s r.revived

-- `session` is what was read before the pane was started.
abbrev pub settled : Session → StartedPane → Bool → Session → Session
settled session p resumed s = record s {
  pane_id = some p.pane_id;
  grave_id = none;
  backend = some p.backend;
  native_session_id = or_else p.native_session_id session.native_session_id;
  pending_resume_history = resumed && backend_eq p.backend codex;
  system_prompt_delivered = if resumed then s.system_prompt_delivered else false;
}

abbrev pub place : String → Session → StartedPane → Bool → Option Session → Adapter → Outcome
place id session p resumed none a = (err disappeared, a)
place id session p resumed (some s) a =
    if is_some s.pane_id
    then (err acquired_another, a)
    else (ok tt, record a { sessions = modify id (settled session p resumed) a.sessions })

abbrev pub start_in :
    ResidentReplies → String → Session → Option (StartedPane × Bool) → Adapter → Outcome
start_in r id session none a = (err start_failed, a)
start_in r id session (some (p, resumed)) a =
    if r.tagged then place id session p resumed (get a.sessions id) a else (err not_tagged, a)

abbrev pub restore_session : ResidentReplies → String → Option Session → Adapter → Outcome
restore_session r id none a = (err unknown_session, a)
restore_session r id (some s) a =
    if is_some s.pane_id
    then (ok tt, a)
    else if is_some s.active_turn
    then (err releasing, a)
    else then_do (make_live_pane_room r.panes r.eviction a)
        (start_in r id s (started_for r s s.grave_id))

abbrev pub refresh_resident : ResidentReplies → String → Adapter → Outcome
refresh_resident r id a =
    if is_resident (get a.sessions id) then refreshed r.panes_before a else (ok tt, a)

unfoldable pub ensure_session_resident : ResidentReplies → String → Adapter → Outcome
unfolding reconcile_live_sessions make_live_pane_room modify get
ensure_session_resident r id a =
    then_do (refresh_resident r id a) (λ b. restore_session r id (get b.sessions id) b)
