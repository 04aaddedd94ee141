-- ===== src/Acp/TurnEnds.antt =====
-- slopd-acp/src/adapter.rs: what a client has been told when a turn ends.
use slopd.Base.{
  and_then, subst, ◌+◌, String, Bool, true, false, Option, none, some, List, [], ◌∷◌, ◌++◌, map,
  string_eq, ◌≡◌, refl, ap, ◌∙◌, arith, if◌then◌else◌,
}
use slopd.Pane.Agent.{grok, backend_eq}
use slopd.Json.Value.{Value}
use slopd.Json.Record.{Record}
use slopd.Acp.Gate.{TurnTranscriptGate, accepts, take_buffered}
use slopd.Acp.ToolUpdates.{finish_open_tools}
use slopd.Acp.Updates.{updates}
use slopd.Acp.Client.{see, follow, follow_sent, may_end_unknown}
use slopd.Acp.Followed.{follow-updates}
use slopd.Acp.Chaining.{and_then_nested}
use slopd.Acp.Running.{IsOnce, IsOnceIfAny, follow_sent-IsOnce, follow-finish_all}
use slopd.Acp.Emit.{
  Sent, update, own_update, native, Turn, TurnConfig, end_turn, emitted, emit_record_updates,
  grok_native_message, pass_gate, hear, hear_all, emit_all,
}
use slopd.Acp.RunTurn.{Step, finished, after_drain, complete_turn}

and_then_alike :
    (x : Option (List String)) (f g : List String → Option (List String))
    → ((t : List String) → f t ≡ g t)
    → and_then x f ≡ and_then x g
and_then_alike none f g e = refl
and_then_alike (some t) f g e = e t

follow_sent-append :
    (xs ys : List Sent) (tools : List String)
    → follow_sent (xs ++ ys) tools ≡ and_then (follow_sent xs tools) (λ t. follow_sent ys t)
unfolding follow_sent
follow_sent-append [] ys tools = refl
follow_sent-append (update r u ∷ xs) ys tools =
    and_then_nested (see (may_end_unknown r) u tools) (λ t. follow_sent (xs ++ ys) t)
      (λ t. follow_sent xs t) (λ t. follow_sent ys t) (λ t. follow_sent-append xs ys t)
follow_sent-append (own_update u ∷ xs) ys tools =
    and_then_nested (see false u tools) (λ t. follow_sent (xs ++ ys) t) (λ t. follow_sent xs t)
      (λ t. follow_sent ys t) (λ t. follow_sent-append xs ys t)
follow_sent-append (native m ∷ xs) ys tools = follow_sent-append xs ys tools

-- Updates for one record, and those that the adapter makes up.
follow_sent-map :
    (r : Record) (us : List Value) (tools : List String)
    → follow_sent (map (update r) us) tools ≡ follow (may_end_unknown r) us tools
unfolding follow_sent follow
follow_sent-map r [] tools = refl
follow_sent-map r (u ∷ us) tools =
    and_then_alike (see (may_end_unknown r) u tools) (λ t. follow_sent (map (update r) us) t)
      (λ t. follow (may_end_unknown r) us t) (λ t. follow_sent-map r us t)

follow_sent-own :
    (us : List Value) (tools : List String)
    → follow_sent (map own_update us) tools ≡ follow false us tools
unfolding follow_sent follow
follow_sent-own [] tools = refl
follow_sent-own (u ∷ us) tools =
    and_then_alike (see false u tools) (λ t. follow_sent (map own_update us) t)
      (λ t. follow false us t) (λ t. follow_sent-own us t)

-- A client with these tools that gets what was sent knows the tools that are open then.
abbrev pub IsTold : List String → List Sent → Turn → Type 0
IsTold tools sent t = follow_sent sent tools ≡ some t.projection.open_tools

pub nothing-IsTold : (t : Turn) → IsTold t.projection.open_tools [] t
unfolding follow_sent
nothing-IsTold t = refl

pub append-IsTold :
    (xs ys : List Sent) (tools : List String) (t u : Turn)
    → IsTold tools xs t
    → IsTold t.projection.open_tools ys u
    → IsTold tools (xs ++ ys) u
append-IsTold xs ys tools t u h k =
    follow_sent-append xs ys tools ∙ ap (λ o. and_then o (λ v. follow_sent ys v)) h ∙ k

pub still-IsOnce :
    (tools : List String) (sent : List Sent) (t : Turn)
    → IsOnce tools
    → IsTold tools sent t
    → IsOnce t.projection.open_tools
still-IsOnce tools sent t o h = subst IsOnceIfAny h (follow_sent-IsOnce sent tools o)

emitted-IsTold :
    (config : TurnConfig) (r : Record) (t : Turn) (o : Option (Value × Bool))
    → IsTold t.projection.open_tools (emitted config r t o).0 (emitted config r t o).1
unfolding follow_sent
emitted-IsTold config r t none =
    let sent =
      updates config.codecs config.backend r (config.uuid t.made_ids) (config.uuid (t.made_ids + 1))
        t.projection in
    follow_sent-map r sent.1 t.projection.open_tools
    ∙ follow-updates config.codecs config.backend r (config.uuid t.made_ids)
        (config.uuid (t.made_ids + 1)) t.projection
emitted-IsTold config r t (some message) = refl

emit-IsTold :
    (config : TurnConfig) (r : Record) (t : Turn)
    → IsTold t.projection.open_tools
        (emit_record_updates config r t).0
        (emit_record_updates config r t).1
unfolding emit_record_updates
emit-IsTold config r t =
    emitted-IsTold config r t
      (if backend_eq config.backend grok then grok_native_message r config.session_id else none)

pub pass_gate-IsTold :
    (config : TurnConfig) (r : Record) (t : Turn) (x : Bool × TurnTranscriptGate)
    → IsTold t.projection.open_tools (pass_gate config r t x).0 (pass_gate config r t x).1
pass_gate-IsTold config r t (true, gate) = emit-IsTold config r (record t { gate = gate })
pass_gate-IsTold config r t (false, gate) = nothing-IsTold t

hear_all-IsTold :
    (config : TurnConfig) (rs : List Record) (t : Turn)
    → IsTold t.projection.open_tools (hear_all config rs t).0 (hear_all config rs t).1
unfolding hear_all
hear_all-IsTold config [] t = nothing-IsTold t
hear_all-IsTold config (r ∷ rs) t =
    let first = hear config r t in
    append-IsTold first.0 (hear_all config rs first.1).0 t.projection.open_tools first.1
      (hear_all config rs first.1).1 (pass_gate-IsTold config r t (accepts r t.gate))
      (hear_all-IsTold config rs first.1)

emit_all-IsTold :
    (config : TurnConfig) (rs : List Record) (t : Turn)
    → IsTold t.projection.open_tools (emit_all config rs t).0 (emit_all config rs t).1
unfolding emit_all
emit_all-IsTold config [] t = nothing-IsTold t
emit_all-IsTold config (r ∷ rs) t =
    let first = emit_record_updates config r t in
    append-IsTold first.0 (emit_all config rs first.1).0 t.projection.open_tools first.1
      (emit_all config rs first.1).1 (emit-IsTold config r t) (emit_all-IsTold config rs first.1)

-- The client knows the tools, and there are none if the turn has ended well.
abbrev pub IsStep : List String → Step → Type 0
IsStep tools (sent, (e, t)) =
    IsTold tools sent t × (e ≡ some end_turn → t.projection.open_tools ≡ [])

finished-IsStep :
    (tools : List String) (x : List Sent × Turn)
    → IsOnce tools
    → IsTold tools x.0 x.1
    → IsStep tools (finished x)
finished-IsStep tools (sent, t) o h =
    let ids = t.projection.open_tools in
    (
      append-IsTold sent (map own_update (finish_open_tools ids)) tools t
          (record t { projection = record t.projection { open_tools = [] } }) h
          (follow_sent-own (finish_open_tools ids) ids
            ∙ follow-finish_all ids (still-IsOnce tools sent t o h)),
      (λ _. refl),
    )

after_drain-IsStep :
    (config : TurnConfig) (fails : Bool) (tools : List String) (x : List Sent × Turn)
    → IsOnce tools
    → IsTold tools x.0 x.1
    → IsStep tools (after_drain config fails x)
after_drain-IsStep config true tools x o h = (h, λ k. absurd (ground (arith, k)))
after_drain-IsStep config false tools (sent, t) o h =
    let u = record t { gate = (take_buffered t.gate).1 } in
    let rest = emit_all config (take_buffered t.gate).0 u in
    finished-IsStep tools (sent ++ rest.0, rest.1) o
      (append-IsTold sent rest.0 tools t rest.1 h
        (emit_all-IsTold config (take_buffered t.gate).0 u))

pub complete_turn-IsStep :
    (config : TurnConfig) (drained : List Record) (fails : Bool) (t : Turn)
    → IsOnce t.projection.open_tools
    → IsStep t.projection.open_tools (complete_turn config drained fails t)
unfolding complete_turn
complete_turn-IsStep config drained fails t o =
    after_drain-IsStep config fails t.projection.open_tools (hear_all config drained t) o
      (hear_all-IsTold config drained t)
