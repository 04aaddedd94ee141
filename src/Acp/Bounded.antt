-- ===== src/Acp/Bounded.antt =====
-- slopd-acp/src/adapter.rs: no request takes the adapter over its limit of live panes.
use slopd.Base.{
  ℕ, ◌+◌, ◌≤◌, String, Bool, true, false, Option, none, some, List, [], ◌∷◌, Map, get, insert,
  remove_key, get-remove_key, Result, ok, err, is_some, ◌==◌, string_eq, eq_refl, ◌≡◌, refl, ◌∙◌,
  arith, inl, inr, Bool-cases, ltb,
}
use slopd.Pane.Info.{PaneInfo}
use slopd.Acp.Session.{Session, StartedPane, Adapter, AdapterError, modify, live_count}
use slopd.Acp.Eviction.{
  Outcome, EvictionReply, evict_lru_inactive, make_live_pane_room, reconcile_live_sessions,
}
use slopd.Acp.Residency.{
  ResidentReplies, then_do, ensure_session_resident, refresh_resident, refreshed, restore_session,
  start_in, place, settled, started_for, is_resident,
}
use slopd.Acp.Requests.{AdapterConfig, SessionNew, open_with, insert_new}
use slopd.Acp.Catalog.{IsDistinct, live, modify-IsDistinct}
use slopd.Acp.Room.{evict_lru_inactive-result}
use slopd.Acp.Trim.{IsBounded, HasRoom, evicted-HasRoom, reconcile-IsBounded}

live_count-modify_le :
    (id : String) (f : Session → Session) (m : Map String Session)
    → ((s : Session) → live (f s) ≤ live s)
    → live_count (modify id f m) ≤ live_count m
unfolding live_count modify
live_count-modify_le id f [] h = omega arith
live_count-modify_le id f ((k, s) ∷ m) h = elim (Bool-cases (k == id)) [
  | inl e ↦ rw e (omega (arith, h s))
  | inr e ↦ rw e (omega (arith, live_count-modify_le id f m h))
]

live_count-modify_add :
    (id : String) (f : Session → Session) (m : Map String Session)
    → live_count (modify id f m) ≤ live_count m + 1
unfolding live_count modify
live_count-modify_add id f [] = omega arith
live_count-modify_add id f ((k, s) ∷ m) = elim (Bool-cases (k == id)) [
  | inl e ↦ rw e (omega (arith, live-le s, live-le (f s)))
  | inr e ↦ rw e (omega (arith, live_count-modify_add id f m))
]
  where
    live-le : (s : Session) → live s ≤ 1
    live-le s = ground arith

pub live_count-remove_key :
    (id : String) (m : Map String Session) → live_count (remove_key id m) ≤ live_count m
unfolding live_count remove_key
live_count-remove_key id [] = omega arith
live_count-remove_key id ((k, s) ∷ m) = elim (Bool-cases (k == id)) [
  | inl e ↦ rw e (omega (arith, live_count-remove_key id m))
  | inr e ↦ rw e (omega (arith, live_count-remove_key id m))
]

pub remove_key-IsDistinct :
    (id : String) (m : Map String Session) → IsDistinct m → IsDistinct (remove_key id m)
unfolding remove_key
remove_key-IsDistinct id [] h = tt
remove_key-IsDistinct id ((k, s) ∷ m) h = elim (Bool-cases (k == id)) [
  | inl e ↦ rw e (remove_key-IsDistinct id m h.1)
  | inr e ↦ rw e (get-remove_key id k m ∙ ground (arith, h.0), remove_key-IsDistinct id m h.1)
]

pub modify-IsBounded :
    (id : String) (f : Session → Session) (a : Adapter)
    → ((s : Session) → live (f s) ≤ live s)
    → IsBounded a
    → IsBounded (record a { sessions = modify id f a.sessions })
modify-IsBounded id f a h b = record {
  distinct = modify-IsDistinct id f a.sessions b.distinct;
  bound = omega (arith, live_count-modify_le id f a.sessions h, b.bound);
}

pub counted-IsBounded :
    (n : ℕ) (a : Adapter) → IsBounded a → IsBounded (record a { next_activity_id = n })
counted-IsBounded n a b = record { distinct = b.distinct; bound = b.bound }

pub then_do-IsBounded :
    (x : Outcome) (f : Adapter → Outcome)
    → IsBounded x.1
    → (x.0 ≡ ok tt → IsBounded (f x.1).1)
    → IsBounded (then_do x f).1
then_do-IsBounded (ok tt, a) f b h = h refl
then_do-IsBounded (err e, a) f b h = b

make_live_pane_room-HasRoom :
    (panes : Option (List PaneInfo)) (r : EvictionReply) (a : Adapter)
    → IsBounded a
    → HasRoom (make_live_pane_room panes r a)
unfolding make_live_pane_room
make_live_pane_room-HasRoom none r a b = record { kept = b; room = λ h. absurd (ground (arith, h)) }
make_live_pane_room-HasRoom (some panes) r a b =
    let c = reconcile_live_sessions panes a in
    let d = reconcile-IsBounded panes a b in
    elim (Bool-cases (ltb (live_count c.sessions) c.max_sessions)) [
      | inl e ↦ rw e (record { kept = d; room = λ _. ground (arith, e) })
      | inr e ↦
          rw e (
            evicted-HasRoom c (evict_lru_inactive r c) d (evict_lru_inactive-result r c d.distinct))
    ]

-- A pane is placed where there is room.
place-IsBounded :
    (id : String) (session : Session) (p : StartedPane) (resumed : Bool) (o : Option Session)
    (a : Adapter)
    → IsBounded a
    → live_count a.sessions + 1 ≤ a.max_sessions
    → IsBounded (place id session p resumed o a).1
place-IsBounded id session p resumed none a b h = b
place-IsBounded id session p resumed (some s) a b h = elim (Bool-cases (is_some s.pane_id)) [
  | inl e ↦ rw e b
  | inr e ↦ rw e (record {
    distinct = modify-IsDistinct id (settled session p resumed) a.sessions b.distinct;
    bound = omega (arith, live_count-modify_add id (settled session p resumed) a.sessions, h);
  })
]

start_in-IsBounded :
    (r : ResidentReplies) (id : String) (session : Session) (o : Option (StartedPane × Bool))
    (a : Adapter)
    → IsBounded a
    → live_count a.sessions + 1 ≤ a.max_sessions
    → IsBounded (start_in r id session o a).1
start_in-IsBounded r id session none a b h = b
start_in-IsBounded r id session (some (p, resumed)) a b h = elim (Bool-cases r.tagged) [
  | inl e ↦ rw e (place-IsBounded id session p resumed (get a.sessions id) a b h)
  | inr e ↦ rw e b
]

restore_session-IsBounded :
    (r : ResidentReplies) (id : String) (o : Option Session) (a : Adapter)
    → IsBounded a
    → IsBounded (restore_session r id o a).1
restore_session-IsBounded r id none a b = b
restore_session-IsBounded r id (some s) a b = elim (Bool-cases (is_some s.pane_id)) [
  | inl e ↦ rw e b
  | inr e ↦ elim (Bool-cases (is_some s.active_turn)) [
    | inl f ↦ rw (e, f) b
    | inr f ↦
        let room = make_live_pane_room-HasRoom r.panes r.eviction a b in
        rw (e, f)
          (then_do-IsBounded (make_live_pane_room r.panes r.eviction a)
            (start_in r id s (started_for r s s.grave_id)) room.kept
            (λ h.
              start_in-IsBounded r id s (started_for r s s.grave_id)
                (make_live_pane_room r.panes r.eviction a).1 room.kept (room.room h)))
  ]
]

refreshed-IsBounded :
    (panes : Option (List PaneInfo)) (a : Adapter) → IsBounded a → IsBounded (refreshed panes a).1
refreshed-IsBounded none a b = b
refreshed-IsBounded (some panes) a b = reconcile-IsBounded panes a b

refresh_resident-IsBounded :
    (r : ResidentReplies) (id : String) (a : Adapter)
    → IsBounded a
    → IsBounded (refresh_resident r id a).1
refresh_resident-IsBounded r id a b = elim (Bool-cases (is_resident (get a.sessions id))) [
  | inl e ↦ rw e (refreshed-IsBounded r.panes_before a b)
  | inr e ↦ rw e b
]

pub ensure_session_resident-IsBounded :
    (r : ResidentReplies) (id : String) (a : Adapter)
    → IsBounded a
    → IsBounded (ensure_session_resident r id a).1
unfolding ensure_session_resident
ensure_session_resident-IsBounded r id a b =
    let c = refresh_resident-IsBounded r id a b in
    then_do-IsBounded (refresh_resident r id a) (λ b. restore_session r id (get b.sessions id) b) c
      (λ _.
        let d = (refresh_resident r id a).1 in
        restore_session-IsBounded r id (get d.sessions id) d c)

insert_new-IsBounded :
    (config : AdapterConfig) (params : SessionNew) (prompt : Option String) (id : String) (now : ℕ)
    (tagged : Bool) (o : Option StartedPane) (a : Adapter)
    → IsBounded a
    → live_count a.sessions + 1 ≤ a.max_sessions
    → IsBounded (insert_new config params prompt id now tagged o a).1
unfolding insert live_count
insert_new-IsBounded config params prompt id now tagged none a b h = b
insert_new-IsBounded config params prompt id now true (some p) a b h = record {
  distinct = (
    get-remove_key id id a.sessions ∙ rw (eq_refl id),
    remove_key-IsDistinct id a.sessions b.distinct,
  );
  bound = omega (arith, live_count-remove_key id a.sessions, h);
}
insert_new-IsBounded config params prompt id now false (some p) a b h = b

pub open_with-IsBounded :
    (config : AdapterConfig) (r : ResidentReplies) (params : SessionNew) (id : String) (now : ℕ)
    (prompt : Result AdapterError (Option String)) (a : Adapter)
    → IsBounded a
    → IsBounded (open_with config r params id now prompt a).1
open_with-IsBounded config r params id now (err e) a b = b
open_with-IsBounded config r params id now (ok prompt) a b =
    let room = make_live_pane_room-HasRoom r.panes r.eviction a b in
    then_do-IsBounded (make_live_pane_room r.panes r.eviction a)
      (insert_new config params prompt id now r.tagged r.started) room.kept
      (λ h.
        insert_new-IsBounded config params prompt id now r.tagged r.started
          (make_live_pane_room r.panes r.eviction a).1 room.kept (room.room h))
