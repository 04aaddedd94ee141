-- ===== src/Acp/Stops.antt =====
-- slopd-acp/src/adapter.rs: the answers that are sent in a turn, and the `Stop` hooks that may end it.
use slopd.Base.{
  String, Bool, false, not, ◌&&◌, ◌||◌, Option, none, some, List, [], ◌∷◌, ◌++◌, any, map, ◌==◌,
  string_eq, ◌≡◌, refl, ap, arith,
}
use slopd.Pane.Agent.{codex, backend_eq}
use slopd.Json.Value.{Value, str_at}
use slopd.Json.Record.{Record}
use slopd.Acp.Emit.{
  Sent, update, own_update, native, TurnConfig, TurnEvent, transcript_record, state_record, closed,
  cancel, is_answer,
}
use slopd.Acp.RunTurn.{is_own_hook, same_session, hook_matches_session}

-- A part of the agent's answer that was sent.
abbrev pub is_answer_sent : Sent → Bool
is_answer_sent (update r u) = is_answer u
is_answer_sent (own_update u) = false
is_answer_sent (native message) = false

-- Whether two session ids are both known and differ.
abbrev pub names_other : Option String → Option String → Bool
names_other (some expected) (some actual) = not (expected == actual)
names_other (some expected) none = false
names_other none actual = false

-- A `Stop` hook that does not name a session other than the one of the turn.
abbrev pub is_own_stop : TurnConfig → TurnEvent → Bool
is_own_stop config (state_record r drained fails) =
    r.event_type == "Stop"
    && not (names_other config.native_session_id (str_at r.payload "session_id"))
is_own_stop config (transcript_record r) = false
is_own_stop config closed = false
is_own_stop config cancel = false

same_session-names_other :
    (expected actual : Option String)
    → same_session expected actual ≡ not (names_other expected actual)
same_session-names_other none actual = refl
same_session-names_other (some e) none = refl
same_session-names_other (some e) (some a) = ground arith

pub own_hook_stop :
    (config : TurnConfig) (r : Record)
    → config.backend ≡ codex
    → (is_own_hook config r && r.event_type == "Stop") ≡ (
        r.event_type == "Stop"
        && not (names_other config.native_session_id (str_at r.payload "session_id")))
unfolding hook_matches_session backend_eq
own_hook_stop config r c = rw c (
    ground
      (arith, same_session-names_other config.native_session_id (str_at r.payload "session_id")))

pub any-map-update :
    (r : Record) (us : List Value) → any is_answer_sent (map (update r) us) ≡ any is_answer us
any-map-update r [] = refl
any-map-update r (u ∷ us) = ap (λ b. is_answer u || b) (any-map-update r us)

pub any-append :
    (xs ys : List Sent)
    → any is_answer_sent (xs ++ ys) ≡ (any is_answer_sent xs || any is_answer_sent ys)
any-append [] ys = refl
any-append (x ∷ xs) ys = ground (arith, any-append xs ys)
