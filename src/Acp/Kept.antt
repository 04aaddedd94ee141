-- ===== src/Acp/Kept.antt =====
-- slopd-acp/src/adapter.rs: the parts of the requests keep the limit of live panes.
use slopd.Base.{
  ℕ, ◌+◌, ◌≤◌, String, Bool, true, false, not, ◌||◌, Option, none, some, List, get, remove_key, ok,
  is_some, is_none, is_none_or, and_then, find, ◌==◌, string_eq, arith, inl, inr, Bool-cases,
}
use slopd.Pane.Info.{PaneInfo, GraveEntry}
use slopd.Acp.Session.{Session, Adapter}
use slopd.Acp.Eviction.{capture_latest_grave, capture_found, captured, is_grave_of}
use slopd.Acp.Residency.{ResidentReplies, ensure_session_resident}
use slopd.Acp.Requests.{resume_found, touch_found, used}
use slopd.Acp.Closing.{
  close_found, close_pane, delete_resident, mark_gone, refreshed_from, cancelled,
  capture_native_found, capture_native_session, mark_pane_gone,
}
use slopd.Acp.Turns.{begin_found, end_turn, with_turn}
use slopd.Acp.Catalog.{live}
use slopd.Acp.Trim.{IsBounded}
use slopd.Acp.Bounded.{
  modify-IsBounded, counted-IsBounded, then_do-IsBounded, remove_key-IsDistinct,
  live_count-remove_key, ensure_session_resident-IsBounded,
}

touch_found-IsBounded :
    (o : Option Session) (id : String) (now : ℕ) (a : Adapter)
    → IsBounded a
    → IsBounded (touch_found o id now a)
touch_found-IsBounded none id now a b = b
touch_found-IsBounded (some s) id now a b =
    counted-IsBounded (a.next_activity_id + 1) _
      (modify-IsBounded id (used a.next_activity_id now) a (λ s. omega arith) b)

pub resume_found-IsBounded :
    (r : ResidentReplies) (id cwd : String) (now : ℕ) (o : Option Session) (a : Adapter)
    → IsBounded a
    → IsBounded (resume_found r id cwd now o a).1
resume_found-IsBounded r id cwd now none a b = b
resume_found-IsBounded r id cwd now (some s) a b = elim (Bool-cases (s.cwd == cwd)) [
  | inl e ↦
      let c = ensure_session_resident-IsBounded r id a b in
      let d = (ensure_session_resident r id a).1 in
      rw e (
        then_do-IsBounded (ensure_session_resident r id a)
          (λ b. (ok tt, touch_found (get b.sessions id) id now b)) c
          (λ _. touch_found-IsBounded (get d.sessions id) id now d c))
  | inr e ↦ rw e b
]

pub capture_grave-IsBounded :
    (o : Option GraveEntry) (id : String) (a : Adapter)
    → IsBounded a
    → IsBounded (capture_found o id a)
capture_grave-IsBounded none id a b = b
capture_grave-IsBounded (some g) id a b = modify-IsBounded id (captured g) a (λ s. omega arith) b

pub mark_gone-live : (pane : String) (s : Session) → live (mark_gone pane s) ≤ live s
mark_gone-live pane s = elim (Bool-cases (is_none_or s.pane_id (λ p. not (p == pane)))) [
  | inl e ↦ rw e (omega arith)
  | inr e ↦ rw e (ground arith)
]

refreshed_from-live : (pane : PaneInfo) (s : Session) → live (refreshed_from pane s) ≤ live s
refreshed_from-live pane s =
    elim (Bool-cases (is_none_or s.pane_id (λ p. not (p == pane.pane_id)))) [
      | inl e ↦ rw e (omega arith)
      | inr e ↦ rw e (omega arith)
    ]

capture_native-IsBounded :
    (o : Option PaneInfo) (id : String) (a : Adapter)
    → IsBounded a
    → IsBounded (capture_native_found o id a)
capture_native-IsBounded none id a b = b
capture_native-IsBounded (some pane) id a b =
    modify-IsBounded id (refreshed_from pane) a (refreshed_from-live pane) b

close_pane-IsBounded :
    (panes : Option (List PaneInfo)) (killed : Bool) (graves : Option (List GraveEntry))
    (id : String) (o : Option String) (a : Adapter)
    → IsBounded a
    → IsBounded (close_pane panes killed graves id o a).1
unfolding capture_native_session mark_pane_gone capture_latest_grave
close_pane-IsBounded panes killed graves id none a b = b
close_pane-IsBounded panes true graves id (some pane) a b =
    capture_grave-IsBounded (and_then graves (find (is_grave_of id))) id _ (
      modify-IsBounded id (mark_gone pane) _ (mark_gone-live pane) (
        capture_native-IsBounded (and_then panes (find (λ (p : PaneInfo). p.pane_id == pane))) id a
          b))
close_pane-IsBounded panes false graves id (some pane) a b =
    capture_native-IsBounded (and_then panes (find (λ (p : PaneInfo). p.pane_id == pane))) id a b

pub close_found-IsBounded :
    (panes : Option (List PaneInfo)) (killed : Bool) (graves : Option (List GraveEntry))
    (id : String) (o : Option Session) (a : Adapter)
    → IsBounded a
    → IsBounded (close_found panes killed graves id o a).1
close_found-IsBounded panes killed graves id none a b = b
close_found-IsBounded panes killed graves id (some s) a b =
    close_pane-IsBounded panes killed graves id s.pane_id _
      (modify-IsBounded id cancelled a (λ s. omega arith) b)

removed-IsBounded :
    (id : String) (a : Adapter)
    → IsBounded a
    → IsBounded (record a { sessions = remove_key id a.sessions })
removed-IsBounded id a b = record {
  distinct = remove_key-IsDistinct id a.sessions b.distinct;
  bound = omega (arith, live_count-remove_key id a.sessions, b.bound);
}

pub delete_resident-IsBounded :
    (tombstone killed : Bool) (id : String) (a : Adapter)
    → IsBounded a
    → IsBounded (delete_resident tombstone killed id a).1
delete_resident-IsBounded tombstone killed id a b =
    elim (Bool-cases (is_some (and_then (get a.sessions id) (λ (s : Session). s.pane_id)))) [
      | inl e ↦ rw e (elim (Bool-cases tombstone) [
        | inl f ↦
            rw f (elim (Bool-cases killed) [
              | inl g ↦ rw g (removed-IsBounded id a b)
              | inr g ↦ rw g b
            ])
        | inr f ↦ rw f b
      ])
      | inr e ↦ rw e b
    ]

pub begin_found-IsBounded :
    (turn now : ℕ) (id : String) (o : Option Session) (a : Adapter)
    → IsBounded a
    → IsBounded (begin_found turn now id o a).1
begin_found-IsBounded turn now id none a b = b
begin_found-IsBounded turn now id (some s) a b = elim (Bool-cases (is_some s.active_turn)) [
  | inl e ↦ rw e b
  | inr e ↦ elim (Bool-cases (is_none s.pane_id || is_none s.backend)) [
    | inl f ↦ rw (e, f) b
    | inr f ↦
        rw (e, f)
          (counted-IsBounded (a.next_activity_id + 1) _
            (modify-IsBounded id (with_turn turn a.next_activity_id now) a (λ s. omega arith) b))
  ]
]

pub end_turn-live :
    (turn : ℕ) (included discard accepted : Bool) (s : Session)
    → live (end_turn turn included discard accepted s) ≤ live s
end_turn-live turn included discard accepted s = ground arith
