-- ===== src/Acp/TurnSteps.antt =====
-- slopd-acp/src/adapter.rs: `run_turn` over the events of a turn.
use slopd.Base.{
  ◌∙◌, String, Bool, true, false, not, ◌&&◌, Option, none, some, List, [], ◌∷◌, ◌==◌, string_eq,
  ◌≡◌, refl, ap, inl, inr, arith, Bool-cases,
}
use slopd.Json.Value.{Value, str_at}
use slopd.Json.Record.{Record}
use slopd.Acp.Gate.{accepts}
use slopd.Acp.Tools.{message_chunk}
use slopd.Acp.Client.{follow_sent, see}
use slopd.Acp.Emit.{
  Turn, TurnConfig, TurnEnd, end_turn, cancelled, subscription_failed, pane_gone, turn_failed,
  TurnEvent, transcript_record, state_record, closed, cancel, bool_at,
}
use slopd.Acp.RunTurn.{
  Step, on_hook, on_state, on_detailed, is_own_hook, on_record, turn_step, and_then_step, run_turn,
  state_ready_completes, stays, ends, notice, is_state, is_detailed, is_working,
}
use slopd.Acp.Running.{IsOnce}
use slopd.Acp.TurnEnds.{
  still-IsOnce, IsStep, nothing-IsTold, append-IsTold, pass_gate-IsTold, complete_turn-IsStep,
}

is_end : Option TurnEnd → Bool
is_end (some end_turn) = true
is_end _ = false

ends-IsStep :
    (e : TurnEnd) (t : Turn) → is_end (some e) ≡ false → IsStep t.projection.open_tools (ends e t)
unfolding is_end
ends-IsStep e t n = (nothing-IsTold t, λ k. absurd (ground (arith, ap is_end k, n)))

stays-IsStep : (t : Turn) → IsStep t.projection.open_tools (stays t)
stays-IsStep t = (nothing-IsTold t, λ k. absurd (ground (arith, k)))

notice-IsStep : (text : String) (t : Turn) → IsStep t.projection.open_tools (notice text t)
unfolding follow_sent see message_chunk
notice-IsStep text t = (refl, λ k. absurd (ground (arith, k)))

on_hook-IsStep :
    (config : TurnConfig) (r : Record) (drained : List Record) (fails : Bool) (t : Turn)
    → IsOnce t.projection.open_tools
    → IsStep t.projection.open_tools (on_hook config r drained fails t)
unfolding is_end
on_hook-IsStep config r drained fails t o = elim (Bool-cases (r.event_type == "SessionEnd")) [
  | inl e ↦ rw e (ends-IsStep (pane_gone (str_at r.payload "session_id")) t refl)
  | inr n1 ↦ elim (Bool-cases (r.event_type == "Stop")) [
    | inl e ↦ rw (n1, e) (complete_turn-IsStep config drained fails t o)
    | inr n2 ↦ elim (Bool-cases (bool_at r.payload "retry_scheduled")) [
      | inl e ↦ rw (n1, n2, e) (stays-IsStep (record t { retry_pending = true }))
      | inr e ↦ rw (n1, n2, e) (ends-IsStep (turn_failed r.payload) t refl)
    ]
  ]
]

on_state-IsStep :
    (config : TurnConfig) (payload : Value) (drained : List Record) (fails : Bool) (t : Turn)
    → IsOnce t.projection.open_tools
    → IsStep t.projection.open_tools (on_state config payload drained fails t)
on_state-IsStep config payload drained fails t o = elim (Bool-cases (is_state payload "busy")) [
  | inl e ↦ rw e (stays-IsStep (record t { saw_busy = true; retry_pending = false }))
  | inr n ↦
      elim (Bool-cases (
        is_state payload "ready"
        && not t.retry_pending
        && state_ready_completes config.backend t.saw_busy t.saw_answer)) [
          | inl e ↦ rw (n, e) (complete_turn-IsStep config drained fails t o)
          | inr e ↦ rw (n, e) (stays-IsStep t)
        ]
]

on_detailed-IsStep :
    (payload : Value) (t : Turn) → IsStep t.projection.open_tools (on_detailed payload t)
on_detailed-IsStep payload t = elim (Bool-cases (is_working payload)) [
  | inl e ↦ rw e (stays-IsStep (record t { saw_busy = true; retry_pending = false }))
  | inr n1 ↦ elim (Bool-cases (is_detailed payload "awaiting_input_permission")) [
    | inl e ↦ rw (n1, e) (notice-IsStep _ t)
    | inr n2 ↦ elim (Bool-cases (is_detailed payload "awaiting_input_elicitation")) [
      | inl e ↦ rw (n1, n2, e) (notice-IsStep _ t)
      | inr e ↦ rw (n1, n2, e) (stays-IsStep t)
    ]
  ]
]

on_record-IsStep :
    (config : TurnConfig) (r : Record) (drained : List Record) (fails : Bool) (t : Turn)
    → IsOnce t.projection.open_tools
    → IsStep t.projection.open_tools (on_record config r drained fails t)
unfolding is_end
on_record-IsStep config r drained fails t o = elim (Bool-cases (r.event_type == "PaneDestroyed")) [
  | inl e ↦ rw e (ends-IsStep (pane_gone (str_at r.payload "session_id")) t refl)
  | inr n1 ↦ elim (Bool-cases (is_own_hook config r)) [
    | inl e ↦ rw (n1, e) (on_hook-IsStep config r drained fails t o)
    | inr n2 ↦ elim (Bool-cases (r.event_type == "StateChange")) [
      | inl e ↦ rw (n1, n2, e) (on_state-IsStep config r.payload drained fails t o)
      | inr n3 ↦ elim (Bool-cases (r.event_type == "DetailedStateChange")) [
        | inl e ↦ rw (n1, n2, n3, e) (on_detailed-IsStep r.payload t)
        | inr e ↦ rw (n1, n2, n3, e) (stays-IsStep t)
      ]
    ]
  ]
]

turn_step-IsStep :
    (config : TurnConfig) (event : TurnEvent) (t : Turn)
    → IsOnce t.projection.open_tools
    → IsStep t.projection.open_tools (turn_step config event t)
unfolding is_end
turn_step-IsStep config (transcript_record r) t o =
    (pass_gate-IsTold config r t (accepts r t.gate), λ k. absurd (ground (arith, k)))
turn_step-IsStep config (state_record r drained fails) t o =
    on_record-IsStep config r drained fails t o
turn_step-IsStep config closed t o = ends-IsStep subscription_failed t refl
turn_step-IsStep config cancel t o = ends-IsStep cancelled t refl

and_then_step-IsStep :
    (tools : List String) (x : Step) (f : Turn → Step)
    → IsOnce tools
    → IsStep tools x
    → ((t : Turn) → IsOnce t.projection.open_tools → IsStep t.projection.open_tools (f t))
    → IsStep tools (and_then_step x f)
and_then_step-IsStep tools (sent, (some e, t)) f o h k = h
and_then_step-IsStep tools (sent, (none, t)) f o h k =
    let rest = k t (still-IsOnce tools sent t o h.0) in
    (append-IsTold sent (f t).0 tools t (f t).1.1 h.0 rest.0, rest.1)

run_turn-IsStep :
    (config : TurnConfig) (events : List TurnEvent) (t : Turn)
    → IsOnce t.projection.open_tools
    → IsStep t.projection.open_tools (run_turn config events t)
unfolding run_turn
run_turn-IsStep config [] t o = stays-IsStep t
run_turn-IsStep config (event ∷ events) t o =
    and_then_step-IsStep t.projection.open_tools (turn_step config event t)
      (λ u. run_turn config events u) o (turn_step-IsStep config event t o)
      (λ u k. run_turn-IsStep config events u k)

-- An ACP client can follow the tools of a turn that ends with `end_turn`, whatever the transcript and
-- the state subscription bring, in whatever order, and however the gate holds records back: each tool
-- call starts under an id that is not running, news and ends of a tool are of one that runs, and in the
-- end no tool runs. Only the updates for two kinds of records may tell the end of a tool that is not
-- running: those with a tool part of OpenCode, and those with content blocks of Claude. The client
-- starts with the tools that are open in the projection, none of them twice, and leaves out the
-- messages that Grok wrote itself.
pub follow-run_turn :
    (config : TurnConfig) (events : List TurnEvent) (t : Turn)
    → IsOnce t.projection.open_tools
    → (run_turn config events t).1.0 ≡ some end_turn
    → follow_sent (run_turn config events t).0 t.projection.open_tools ≡ some []
follow-run_turn config events t o ended =
    let told = run_turn-IsStep config events t o in told.0 ∙ ap some (told.1 ended)
