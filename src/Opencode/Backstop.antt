-- ===== src/Opencode/Backstop.antt =====
-- slopd/src/main.rs: `reconcile_opencode_subagents`, and one round of the backstop of
-- `run_opencode_driver`.
use slopd.Base.{
  ℕ, ◌-◌, String, Bool, false, ◌||◌, Option, none, some, List, [], ◌∷◌, Map, map_option, unwrap_or,
  ltb, string_eq, if◌then◌else◌,
}
use slopd.Pane.State.{busy_subagent}
use slopd.Json.Value.{Value}
use slopd.Opencode.Status.{status_is_working}
use slopd.Opencode.Driver.{
  Driver, Replies, send, set_state, session_of, reconcile_opencode_session,
  reconcile_opencode_status, stop_record,
}
use slopd.Opencode.Sse.{is_empty}

-- Three seconds, in the unit of the instants.
abbrev subagent_prune_grace : ℕ
subagent_prune_grace = 3000

abbrev is_kept : (String → Option Value) → ℕ → String → ℕ → Bool
is_kept statuses now sid added =
    unwrap_or (map_option status_is_working (statuses sid)) false
    || ltb (now - added) subagent_prune_grace

unfoldable pub kept_children : (String → Option Value) → ℕ → Map String ℕ → Map String ℕ
unfolding status_is_working
kept_children statuses now [] = []
kept_children statuses now ((sid, added) ∷ cs) =
    let rest = kept_children statuses now cs in
    if is_kept statuses now sid added then (sid, added) ∷ rest else rest

unfoldable pub stopped_children : (String → Option Value) → ℕ → Map String ℕ → List String
unfolding status_is_working
stopped_children statuses now [] = []
stopped_children statuses now ((sid, added) ∷ cs) =
    let rest = stopped_children statuses now cs in
    if is_kept statuses now sid added then rest else sid ∷ rest

unfoldable pub send_stops : String → List String → Driver → Driver
send_stops session [] d = d
send_stops session (sid ∷ sids) d =
    send_stops session sids (send "hook" "SubagentStop" (stop_record session sid) d)

abbrev prune : String → ℕ → Option (String → Option Value) → Driver → Driver
prune session now none d = d
prune session now (some statuses) d =
    send_stops session (stopped_children statuses now d.subagents)
      (record d { subagents = kept_children statuses now d.subagents })

unfoldable pub reconcile_opencode_subagents : String → Replies → Driver → Driver
unfolding kept_children stopped_children send_stops
reconcile_opencode_subagents session r d = prune session r.now r.status_map d

unfoldable pub poll : Replies → String → Driver → Driver
unfolding reconcile_opencode_session reconcile_opencode_subagents reconcile_opencode_status
poll r spawned d =
    let bound = reconcile_opencode_session r d in
    let session = session_of bound spawned in
    let pruned = reconcile_opencode_subagents session r bound in
    if is_empty pruned.subagents
    then reconcile_opencode_status session r pruned
    else set_state r busy_subagent pruned
