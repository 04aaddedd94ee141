-- ===== src/Acp/Answered.antt =====
-- slopd-acp/src/adapter.rs: why a turn of Codex ends.
use slopd.Base.{
  ◌+◌, String, Bool, true, false, not, ◌&&◌, ◌||◌, Option, none, some, List, [], ◌∷◌, any, ◌==◌,
  string_eq, ◌≡◌, refl, ap, ◌∙◌, sym, inl, inr, arith, Bool-cases,
}
use slopd.Pane.Agent.{Backend, codex, grok, backend_eq}
use slopd.Json.Value.{Value, str_at}
use slopd.Json.Record.{Record}
use slopd.Acp.Gate.{TurnTranscriptGate, accepts}
use slopd.Acp.Tools.{message_chunk}
use slopd.Acp.Updates.{updates}
use slopd.Acp.Emit.{
  Sent, own_update, Turn, TurnConfig, TurnEnd, end_turn, cancelled, subscription_failed, pane_gone,
  turn_failed, TurnEvent, transcript_record, state_record, closed, cancel, emit_record_updates,
  pass_gate, bool_at,
}
use slopd.Acp.RunTurn.{
  Step, complete_turn, on_hook, on_state, on_detailed, is_own_hook, on_record, turn_step,
  and_then_step, run_turn, state_ready_completes, is_state, is_detailed, is_working, notice,
}
use slopd.Acp.Stops.{is_answer_sent, is_own_stop, own_hook_stop, any-map-update, any-append}

-- Why a step ends the turn, and why there is an answer after it.
abbrev IsAnswered : Bool → Bool → Step → Type 0
IsAnswered saw stop (sent, (e, u)) =
    (e ≡ some end_turn → (saw || stop) ≡ true)
    × (e ≡ none → u.saw_answer ≡ true → (saw || any is_answer_sent sent) ≡ true)

emit-saw_answer :
    (config : TurnConfig) (r : Record) (t : Turn)
    → config.backend ≡ codex
    → (emit_record_updates config r t).1.saw_answer
      ≡ (t.saw_answer || any is_answer_sent (emit_record_updates config r t).0)
unfolding emit_record_updates
emit-saw_answer config r t c = rw (not_grok config.backend c) (
    ap (λ b. t.saw_answer || b)
      (sym (
        any-map-update r
          (updates config.codecs config.backend r (config.uuid t.made_ids)
            (config.uuid (t.made_ids + 1)) t.projection).1)))
  where
    not_grok : (b : Backend) → b ≡ codex → backend_eq b grok ≡ false
    not_grok b c = ap (λ x. backend_eq x grok) c

pass_gate-IsAnswered :
    (config : TurnConfig) (r : Record) (t : Turn) (x : Bool × TurnTranscriptGate)
    → config.backend ≡ codex
    → (pass_gate config r t x).1.saw_answer ≡ true
    → (t.saw_answer || any is_answer_sent (pass_gate config r t x).0) ≡ true
pass_gate-IsAnswered config r t (true, gate) c h =
    sym (emit-saw_answer config r (record t { gate = gate }) c) ∙ h
pass_gate-IsAnswered config r t (false, gate) c h = ground (arith, h)

complete_turn-IsAnswered :
    (config : TurnConfig) (drained : List Record) (fails : Bool) (t : Turn) (saw stop : Bool)
    → (saw || stop) ≡ true
    → IsAnswered saw stop (complete_turn config drained fails t)
unfolding complete_turn
complete_turn-IsAnswered config drained true t saw stop h =
    (λ _. h, λ k. absurd (ground (arith, k)))
complete_turn-IsAnswered config drained false t saw stop h =
    (λ _. h, λ k. absurd (ground (arith, k)))

is_end : Option TurnEnd → Bool
is_end (some end_turn) = true
is_end _ = false

other_end :
    (saw stop : Bool) (e : TurnEnd) (t : Turn)
    → is_end (some e) ≡ false
    → IsAnswered saw stop ([], (some e, t))
unfolding is_end
other_end saw stop e t n =
    ((λ k. absurd (ground (arith, ap is_end k, n))), λ k. absurd (ground (arith, k)))

no_end :
    (stop : Bool) (sent : List Sent) (t : Turn) → IsAnswered t.saw_answer stop (sent, (none, t))
no_end stop sent t = ((λ k. absurd (ground (arith, k))), λ k h. ground (arith, h))

on_notice : (stop : Bool) (text : String) (t : Turn) → IsAnswered t.saw_answer stop (notice text t)
on_notice stop text t = no_end stop (own_update (message_chunk text) ∷ []) t

on_hook-IsAnswered :
    (config : TurnConfig) (r : Record) (drained : List Record) (fails : Bool) (t : Turn)
    → IsAnswered t.saw_answer (r.event_type == "Stop") (on_hook config r drained fails t)
unfolding is_end
on_hook-IsAnswered config r drained fails t = elim (Bool-cases (r.event_type == "SessionEnd")) [
  | inl e ↦ rw e (other_end _ _ (pane_gone (str_at r.payload "session_id")) t refl)
  | inr n1 ↦ elim (Bool-cases (r.event_type == "Stop")) [
    | inl e ↦
        rw (n1, e)
          (complete_turn-IsAnswered config drained fails t t.saw_answer true (ground arith))
    | inr n2 ↦ elim (Bool-cases (bool_at r.payload "retry_scheduled")) [
      | inl e ↦ rw (n1, n2, e) (no_end false [] (record t { retry_pending = true }))
      | inr e ↦ rw (n1, n2, e) (other_end _ _ (turn_failed r.payload) t refl)
    ]
  ]
]

ready_answered :
    (b : Backend) (busy saw : Bool) → b ≡ codex → state_ready_completes b busy saw ≡ saw
unfolding state_ready_completes
ready_answered b busy saw c = ap (λ x. state_ready_completes x busy saw) c

on_state-IsAnswered :
    (config : TurnConfig) (payload : Value) (drained : List Record) (fails stop : Bool) (t : Turn)
    → config.backend ≡ codex
    → IsAnswered t.saw_answer stop (on_state config payload drained fails t)
on_state-IsAnswered config payload drained fails stop t c =
    elim (Bool-cases (is_state payload "busy")) [
      | inl e ↦ rw e (no_end stop [] (record t { saw_busy = true; retry_pending = false }))
      | inr n ↦
          elim (Bool-cases (
            is_state payload "ready"
            && not t.retry_pending
            && state_ready_completes config.backend t.saw_busy t.saw_answer)) [
              | inl e ↦
                  rw (n, e)
                    (complete_turn-IsAnswered config drained fails t t.saw_answer stop
                      (ground (arith, e, ready_answered config.backend t.saw_busy t.saw_answer c)))
              | inr e ↦ rw (n, e) (no_end stop [] t)
            ]
    ]

on_detailed-IsAnswered :
    (payload : Value) (stop : Bool) (t : Turn)
    → IsAnswered t.saw_answer stop (on_detailed payload t)
on_detailed-IsAnswered payload stop t = elim (Bool-cases (is_working payload)) [
  | inl e ↦ rw e (no_end stop [] (record t { saw_busy = true; retry_pending = false }))
  | inr n1 ↦ elim (Bool-cases (is_detailed payload "awaiting_input_permission")) [
    | inl e ↦
        rw (n1, e)
          (on_notice stop
            "\n\n[slopd-acp: the underlying agent is awaiting permission in its terminal pane.]\n"
            t)
    | inr n2 ↦ elim (Bool-cases (is_detailed payload "awaiting_input_elicitation")) [
      | inl e ↦
          rw (n1, n2, e)
            (on_notice stop
              "\n\n[slopd-acp: the underlying agent is awaiting input in its terminal pane.]\n" t)
      | inr e ↦ rw (n1, n2, e) (no_end stop [] t)
    ]
  ]
]

on_record-IsAnswered :
    (config : TurnConfig) (r : Record) (drained : List Record) (fails : Bool) (t : Turn)
    → config.backend ≡ codex
    → IsAnswered t.saw_answer
        (is_own_hook config r && r.event_type == "Stop")
        (on_record config r drained fails t)
unfolding is_end
on_record-IsAnswered config r drained fails t c =
    elim (Bool-cases (r.event_type == "PaneDestroyed")) [
      | inl e ↦ rw e (other_end _ _ (pane_gone (str_at r.payload "session_id")) t refl)
      | inr n1 ↦ elim (Bool-cases (is_own_hook config r)) [
        | inl e ↦ rw (n1, e) (on_hook-IsAnswered config r drained fails t)
        | inr n2 ↦ elim (Bool-cases (r.event_type == "StateChange")) [
          | inl e ↦ rw (n1, n2, e) (on_state-IsAnswered config r.payload drained fails false t c)
          | inr n3 ↦ elim (Bool-cases (r.event_type == "DetailedStateChange")) [
            | inl e ↦ rw (n1, n2, n3, e) (on_detailed-IsAnswered r.payload false t)
            | inr e ↦ rw (n1, n2, n3, e) (no_end false [] t)
          ]
        ]
      ]
    ]

turn_step-IsAnswered :
    (config : TurnConfig) (event : TurnEvent) (t : Turn)
    → config.backend ≡ codex
    → IsAnswered t.saw_answer (is_own_stop config event) (turn_step config event t)
unfolding is_end
turn_step-IsAnswered config (transcript_record r) t c = (
  (λ k. absurd (ground (arith, k))),
  λ k h. pass_gate-IsAnswered config r t (accepts r t.gate) c h,
)
turn_step-IsAnswered config (state_record r drained fails) t c =
    rw (sym (own_hook_stop config r c)) (on_record-IsAnswered config r drained fails t c)
turn_step-IsAnswered config closed t c = other_end _ _ subscription_failed t refl
turn_step-IsAnswered config cancel t c = other_end _ _ cancelled t refl

and_then_step-IsAnswered :
    (saw stop later : Bool) (x : Step) (f : Turn → Step)
    → IsAnswered saw stop x
    → ((u : Turn)
        → (f u).1.0 ≡ some end_turn
        → (u.saw_answer || any is_answer_sent (f u).0 || later) ≡ true)
    → (and_then_step x f).1.0 ≡ some end_turn
    → (saw || any is_answer_sent (and_then_step x f).0 || (stop || later)) ≡ true
and_then_step-IsAnswered saw stop later (sent, (some e, t)) f h k ended = ground (arith, h.0 ended)
and_then_step-IsAnswered saw stop later (sent, (none, t)) f h k ended =
    elim (Bool-cases t.saw_answer) [
      | inl e ↦ ground (arith, h.1 refl e, any-append sent (f t).0)
      | inr e ↦ ground (arith, k t ended, e, any-append sent (f t).0)
    ]

run_turn-why :
    (config : TurnConfig) (events : List TurnEvent) (t : Turn)
    → config.backend ≡ codex
    → (run_turn config events t).1.0 ≡ some end_turn
    → (t.saw_answer
        || any is_answer_sent (run_turn config events t).0
        || any (is_own_stop config) events)
      ≡ true
unfolding run_turn
run_turn-why config [] t c ended = absurd (ground (arith, ended))
run_turn-why config (event ∷ events) t c ended =
    and_then_step-IsAnswered t.saw_answer (is_own_stop config event)
      (any (is_own_stop config) events) (turn_step config event t) (λ u. run_turn config events u)
      (turn_step-IsAnswered config event t c) (λ u. run_turn-why config events u c) ended

-- A turn of Codex that has seen no answer yet ends with `end_turn` only if a part of the answer was sent
-- or a `Stop` hook came that does not name another session than the one of the turn: a pane that gets busy
-- and ready ends no turn by itself, nor does a `Stop` hook that names another session. A hook that names
-- no session, and any hook while the session of the turn is not known, counts as one that may end it.
pub run_turn-answered :
    (config : TurnConfig) (events : List TurnEvent) (t : Turn)
    → config.backend ≡ codex
    → t.saw_answer ≡ false
    → (run_turn config events t).1.0 ≡ some end_turn
    → (any is_answer_sent (run_turn config events t).0 || any (is_own_stop config) events) ≡ true
run_turn-answered config events t c fresh ended =
    ground (arith, run_turn-why config events t c ended, fresh)
