-- ===== src/Acp/Eviction.antt =====
-- slopd-acp/src/adapter.rs: how the adapter keeps to its limit of live panes. What the daemon answers is
-- an argument.
use slopd.Base.{
  ℕ, zero, suc, String, Bool, false, ◌&&◌, ◌||◌, Option, none, some, List, [], ◌∷◌, Map, get,
  Result, ok, err, is_some, is_none, and_then, or_else, map_option, option_beq, max, ltb, leb, find,
  ◌==◌, string_eq, if◌then◌else◌,
}
use slopd.Pane.Info.{PaneInfo, GraveEntry}
use slopd.Acp.Tags.{tagged_session_id}
use slopd.Acp.Session.{
  Session, Adapter, AdapterError, unreachable, every_pane_active, turn_is_active, kill_failed,
  panicked, modify, live_count, cancel_turn,
}

abbrev pub Outcome : Type 0
Outcome = Result AdapterError (Unit {0}) × Adapter

-- The fields of a session whose pane is gone.
abbrev pub forget_pane : Session → Session
forget_pane s = record s {
  pane_id = none;
  backend = none;
  system_prompt_delivered =
      if is_none s.native_session_id then false else s.system_prompt_delivered;
}

abbrev pub seen_alive : PaneInfo → Session → Session
seen_alive pane s = record s { native_session_id = or_else pane.session_id s.native_session_id }

abbrev pub pruned : Session → Session
pruned s = record (forget_pane s) { active_turn = map_option cancel_turn s.active_turn }

abbrev reconcile_with : Option PaneInfo → Session → Session
reconcile_with none s = pruned s
reconcile_with (some pane) s = seen_alive pane s

abbrev pub reconcile_pane : List PaneInfo → Option String → Session → Session
reconcile_pane panes none s = s
reconcile_pane panes (some pane) s =
    reconcile_with (find (λ (p : PaneInfo). p.pane_id == pane) panes) s

unfoldable pub reconcile_all : List PaneInfo → Map String Session → Map String Session
reconcile_all panes [] = []
reconcile_all panes ((k, s) ∷ m) = (k, reconcile_pane panes s.pane_id s) ∷ reconcile_all panes m

unfoldable pub reconcile_live_sessions : List PaneInfo → Adapter → Adapter
unfolding reconcile_all
reconcile_live_sessions panes a = record a { sessions = reconcile_all panes a.sessions }

abbrev pub is_grave_of : String → GraveEntry → Bool
is_grave_of id g = option_beq (tagged_session_id g.pane.tags) (some id) && is_none g.revived_at

abbrev pub captured : GraveEntry → Session → Session
captured g s = record s {
  grave_id = some g.grave_id;
  native_session_id = or_else g.pane.session_id s.native_session_id;
  title = g.pane.pane_title;
  last_used = max s.last_used g.destroyed_at;
  last_touched_at = max s.last_touched_at g.destroyed_at;
}

abbrev pub capture_found : Option GraveEntry → String → Adapter → Adapter
capture_found none id a = a
capture_found (some g) id a = record a { sessions = modify id (captured g) a.sessions }

-- `graves`: what `scoped_graves` returns, nothing on an error.
unfoldable pub capture_latest_grave : Option (List GraveEntry) → String → Adapter → Adapter
unfolding tagged_session_id option_beq modify
capture_latest_grave graves id a = capture_found (and_then graves (find (is_grave_of id))) id a

-- The daemon's answers to one eviction: whether the kill succeeds and, if not, whether the pane is no
-- longer listed; then the graves.
pub record EvictionReply : Type 0 where
  pub killed : Bool
  pub is_gone : Bool
  pub graves : Option (List GraveEntry)

abbrev pub without_pane : Session → Session
without_pane s = record s { pane_id = none; backend = none }

abbrev pub given_back : Session → Session → Session
given_back victim s =
    if is_none s.pane_id then record s { pane_id = victim.pane_id; backend = victim.backend } else s

abbrev pub evict_found : EvictionReply → String → Session → Adapter → Outcome
evict_found r id victim a =
    let taken = record a { sessions = modify id without_pane a.sessions } in
    if is_some victim.active_turn
    then (err turn_is_active, a)
    else if is_none victim.pane_id
    then (err panicked, a)
    else if r.killed || r.is_gone
    then (ok tt, capture_latest_grave r.graves id taken)
    else (err kill_failed, record a { sessions = modify id (given_back victim) taken.sessions })

abbrev pub evict_at : EvictionReply → String → Option Session → Adapter → Outcome
evict_at r id none a = (err panicked, a)
evict_at r id (some victim) a = evict_found r id victim a

unfoldable pub evict_session : EvictionReply → String → Adapter → Outcome
unfolding capture_latest_grave modify get
evict_session r id a = evict_at r id (get a.sessions id) a

abbrev pub is_evictable : Session → Bool
is_evictable s = is_some s.pane_id && is_none s.active_turn

abbrev pub less_used : String → Session → Option (String × Session) → Option (String × Session)
less_used id s none = some (id, s)
less_used id s (some (other, t)) =
    if leb s.last_used t.last_used then some (id, s) else some (other, t)

-- `filter(…).min_by_key(last_used)`: the first of the least recently used.
unfoldable pub victim_of : Map String Session → Option (String × Session)
victim_of [] = none
victim_of ((id, s) ∷ m) =
    let rest = victim_of m in if is_evictable s then less_used id s rest else rest

abbrev pub evict_victim : EvictionReply → Option (String × Session) → Adapter → Outcome
evict_victim r none a = (err every_pane_active, a)
evict_victim r (some (id, s)) a = evict_session r id a

unfoldable pub evict_lru_inactive : EvictionReply → Adapter → Outcome
unfolding evict_session victim_of
evict_lru_inactive r a = evict_victim r (victim_of a.sessions) a

abbrev pub trim_after : Outcome → (Adapter → Option Outcome) → Option Outcome
trim_after (ok u, a) rest = rest a
trim_after (err e, a) rest = some (err e, a)

-- The loop, on fuel; `replies` are the answers to its evictions. `none`: the fuel ran out.
unfoldable pub trim_recovered_panes :
    ℕ → List EvictionReply → EvictionReply → Adapter → Option Outcome
unfolding evict_lru_inactive live_count
trim_recovered_panes zero replies r a = none
trim_recovered_panes (suc fuel) [] r a =
    let rest = trim_after (evict_lru_inactive r a) (trim_recovered_panes fuel [] r) in
    if leb (live_count a.sessions) a.max_sessions then some (ok tt, a) else rest
trim_recovered_panes (suc fuel) (r ∷ replies) s a =
    let rest = trim_after (evict_lru_inactive r a) (trim_recovered_panes fuel replies s) in
    if leb (live_count a.sessions) a.max_sessions then some (ok tt, a) else rest

abbrev pub room_in : EvictionReply → Adapter → Outcome
room_in r a =
    if ltb (live_count a.sessions) a.max_sessions then (ok tt, a) else evict_lru_inactive r a

-- `panes`: what `ps` returns, nothing when the daemon cannot be asked.
unfoldable pub make_live_pane_room : Option (List PaneInfo) → EvictionReply → Adapter → Outcome
unfolding reconcile_live_sessions evict_lru_inactive live_count
make_live_pane_room none r a = (err unreachable, a)
make_live_pane_room (some panes) r a = room_in r (reconcile_live_sessions panes a)
