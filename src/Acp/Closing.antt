-- ===== src/Acp/Closing.antt =====
-- slopd-acp/src/adapter.rs: the requests that close and delete a session.
use slopd.Base.{
  String, Bool, not, Option, none, some, List, get, remove_key, ok, err, is_some, is_none_or,
  and_then, or_else, map_option, find, ◌==◌, string_eq, if◌then◌else◌,
}
use slopd.Pane.Info.{PaneInfo, GraveEntry}
use slopd.Acp.Session.{
  Session, Adapter, not_tagged, unknown_session, kill_failed, panicked, modify, cancel_turn,
}
use slopd.Acp.Eviction.{Outcome, capture_latest_grave, forget_pane}
use slopd.Acp.Residency.{ResidentReplies, then_do, ensure_session_resident}

abbrev pub cancelled : Session → Session
cancelled s = record s { active_turn = map_option cancel_turn s.active_turn }

abbrev pub mark_gone : String → Session → Session
mark_gone pane s = if is_none_or s.pane_id (λ p. not (p == pane)) then s else forget_pane s

-- `mark_pane_gone` without a native session.
unfoldable pub mark_pane_gone : String → String → Adapter → Adapter
unfolding modify
mark_pane_gone id pane a = record a { sessions = modify id (mark_gone pane) a.sessions }

abbrev pub refreshed_from : PaneInfo → Session → Session
refreshed_from pane s =
    if is_none_or s.pane_id (λ p. not (p == pane.pane_id)) then s else record s {
      native_session_id = or_else pane.session_id s.native_session_id;
      title = pane.pane_title;
    }

abbrev pub capture_native_found : Option PaneInfo → String → Adapter → Adapter
capture_native_found none id a = a
capture_native_found (some pane) id a = record a {
  sessions = modify id (refreshed_from pane) a.sessions;
}

-- `panes`: what `ps` returns; an error leaves the session as it is.
unfoldable pub capture_native_session : Option (List PaneInfo) → String → String → Adapter → Adapter
unfolding modify
capture_native_session panes id pane a =
    capture_native_found (and_then panes (find (λ (p : PaneInfo). p.pane_id == pane))) id a

abbrev pub close_pane :
    Option (List PaneInfo)
    → (killed : Bool) → Option (List GraveEntry)
    → String
    → Option String
    → Adapter
    → Outcome
close_pane panes killed graves id none a = (ok tt, a)
close_pane panes killed graves id (some pane) a =
    let seen = capture_native_session panes id pane a in
    if killed
    then (ok tt, capture_latest_grave graves id (mark_pane_gone id pane seen))
    else (err kill_failed, seen)

abbrev pub close_found :
    Option (List PaneInfo)
    → Bool
    → Option (List GraveEntry)
    → String
    → Option Session
    → Adapter
    → Outcome
close_found panes killed graves id none a = (err unknown_session, a)
close_found panes killed graves id (some s) a =
    close_pane panes killed graves id s.pane_id
      (record a { sessions = modify id cancelled a.sessions })

unfoldable pub session_close :
    Option (List PaneInfo) → (killed : Bool) → Option (List GraveEntry) → String → Adapter → Outcome
unfolding capture_native_session mark_pane_gone capture_latest_grave modify get
session_close panes killed graves id a = close_found panes killed graves id (get a.sessions id) a

abbrev pub delete_resident : (tombstone killed : Bool) → String → Adapter → Outcome
delete_resident tombstone killed id a =
    if not (is_some (and_then (get a.sessions id) (λ (s : Session). s.pane_id)))
    then (err panicked, a)
    else if not tombstone
    then (err not_tagged, a)
    else if not killed
    then (err kill_failed, a)
    else (ok tt, record a { sessions = remove_key id a.sessions })

abbrev pub delete_found :
    ResidentReplies → (tombstone killed : Bool) → String → Option Session → Adapter → Outcome
delete_found r tombstone killed id none a = (ok tt, a)
delete_found r tombstone killed id (some s) a =
    then_do (ensure_session_resident r id (record a { sessions = modify id cancelled a.sessions }))
      (delete_resident tombstone killed id)

-- An unknown session counts as deleted.
unfoldable pub session_delete :
    ResidentReplies → (tombstone killed : Bool) → String → Adapter → Outcome
unfolding ensure_session_resident modify remove_key get
session_delete r tombstone killed id a = delete_found r tombstone killed id (get a.sessions id) a
