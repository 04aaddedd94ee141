-- ===== src/Acp/Turns.antt =====
-- slopd-acp/src/adapter.rs: the start and the end of a turn in `session_prompt`.
use slopd.Base.{
  ℕ, ◌+◌, String, Bool, true, false, not, ◌&&◌, ◌||◌, Option, none, some, List, get, ok, err,
  is_some, is_none, string_eq, if◌then◌else◌, nat_eq,
}
use slopd.Pane.Info.{GraveEntry}
use slopd.Acp.Session.{ActiveTurn, Session, Adapter, unknown_session, in_flight, panicked, modify}
use slopd.Acp.Eviction.{Outcome, capture_latest_grave}
use slopd.Acp.Residency.{ResidentReplies, then_do, ensure_session_resident}
use slopd.Acp.Closing.{mark_pane_gone}

abbrev pub with_turn : ℕ → ℕ → ℕ → Session → Session
with_turn turn activity now s = record s {
  pending_resume_history = false;
  active_turn = some (record { id = turn; cancelled = false });
  last_used = activity;
  last_touched_at = now;
}

abbrev pub begin_found : ℕ → ℕ → String → Option Session → Adapter → Outcome
begin_found turn now id none a = (err unknown_session, a)
begin_found turn now id (some s) a =
    if is_some s.active_turn
    then (err in_flight, a)
    else if is_none s.pane_id || is_none s.backend
    then (err panicked, a)
    else (
      ok tt,
      record a {
        sessions = modify id (with_turn turn a.next_activity_id now) a.sessions;
        next_activity_id = a.next_activity_id + 1;
      },
    )

-- The part of `session_prompt` that takes the session for a turn.
unfoldable pub begin_turn : ResidentReplies → ℕ → ℕ → String → Adapter → Outcome
unfolding ensure_session_resident modify get
begin_turn r turn now id a =
    if is_none (get a.sessions id)
    then (err unknown_session, a)
    else then_do (ensure_session_resident r id a)
        (λ b. begin_found turn now id (get b.sessions id) b)

abbrev has_turn : ℕ → Option ActiveTurn → Bool
has_turn turn none = false
has_turn turn (some t) = nat_eq t.id turn

abbrev pub end_turn :
    ℕ → (system_prompt_included discard_replayed_history accepted : Bool) → Session → Session
end_turn turn included discard accepted s =
    if has_turn turn s.active_turn
    then record s {
      active_turn = none;
      system_prompt_delivered = if included && accepted then true else s.system_prompt_delivered;
      pending_resume_history = if discard && not accepted then true else s.pending_resume_history;
    }
    else s

-- The part of `session_prompt` behind the turn.
unfoldable pub finish_turn : ℕ → Bool → Bool → Bool → String → Adapter → Adapter
unfolding modify
finish_turn turn included discard accepted id a = record a {
  sessions = modify id (end_turn turn included discard accepted) a.sessions;
}

-- The part of `session_prompt` that gives up a stale pane, before the turn is tried once more.
unfoldable pub drop_stale_pane : Option (List GraveEntry) → String → String → Adapter → Adapter
unfolding mark_pane_gone capture_latest_grave
drop_stale_pane graves id pane a = capture_latest_grave graves id (mark_pane_gone id pane a)
