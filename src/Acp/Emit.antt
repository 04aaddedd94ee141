-- ===== src/Acp/Emit.antt =====
-- slopd-acp/src/adapter.rs: what a record of the transcript sends in a turn. What the two subscriptions
-- bring, and a cancellation, are events in their order.
use slopd.Base.{
  ℕ, ◌+◌, String, Bool, true, false, ◌||◌, Option, none, some, List, [], ◌∷◌, ◌++◌, and_then,
  option_beq, any, map, map_option, string_eq, if◌then◌else◌,
}
use slopd.Pane.Agent.{Backend, grok, backend_eq}
use slopd.Json.Value.{Value, string, object, no_fields, field, get_key, as_str, as_bool, str_at}
use slopd.Json.Record.{Record}
use slopd.Settings.Inject.{set_field}
use slopd.Acp.Gate.{TurnTranscriptGate, accepts}
use slopd.Acp.Tools.{Codecs}
use slopd.Acp.Projection.{Projection}
use slopd.Acp.Updates.{updates}

-- A session update for a record, one of the adapter's own, or a message that Grok wrote itself.
pub data Sent : Type 0 where
  update : Record → Value → Sent
  own_update : Value → Sent
  native : Value → Sent

pub record Turn : Type 0 where
  pub projection : Projection
  pub gate : TurnTranscriptGate
  pub saw_busy : Bool
  pub saw_answer : Bool
  pub retry_pending : Bool
  pub made_ids : ℕ

-- The lease of a turn; `uuid n` is the n-th id that is made.
pub record TurnConfig : Type 0 where
  pub codecs : Codecs
  pub backend : Backend
  pub session_id : String
  pub native_session_id : Option String
  pub uuid : ℕ → String

pub data TurnEnd : Type 0 where
  end_turn cancelled subscription_failed : TurnEnd
  pane_gone : Option String → TurnEnd
  turn_failed : Value → TurnEnd

abbrev pub bool_at : Value → String → Bool
bool_at v k = elim (and_then (get_key v k) as_bool) [ none ↦ false | some b ↦ b ]

-- A record of the state subscription comes with what is left of the transcript, should it end the turn, and
-- with whether reading this fails.
pub data TurnEvent : Type 0 where
  transcript_record : Record → TurnEvent
  state_record : Record → List Record → Bool → TurnEvent
  closed cancel : TurnEvent

abbrev pub is_answer : Value → Bool
is_answer u = option_beq (str_at u "sessionUpdate") (some "agent_message_chunk")

abbrev with_session : String → Value → Value
with_session id (object fs) = object (set_field "sessionId" (string id) fs)
with_session id value = value

abbrev native_of : String → String → Value → Value → Value × Bool
native_of session method params said = (
  object (
      field "jsonrpc" (string "2.0")
        (field "method" (string method) (field "params" (with_session session params) no_fields))),
  is_answer said,
)

unfoldable pub grok_native_message : Record → String → Option (Value × Bool)
unfolding get_key as_str str_at option_beq set_field
grok_native_message r session = and_then (str_at r.payload "method") (λ method.
    and_then (get_key r.payload "params")
      (λ params. map_option (native_of session method params) (get_key params "update")))

abbrev pub projected : Record → Turn → Projection × List Value → List Sent × Turn
projected r t (p, us) = (
  map (update r) us,
  record t {
    projection = p;
    saw_answer = t.saw_answer || any is_answer us;
    made_ids = t.made_ids + 2;
  },
)

abbrev pub passed_by : Turn → Value × Bool → List Sent × Turn
passed_by t (message, saw_answer) =
    (native message ∷ [], record t { saw_answer = t.saw_answer || saw_answer })

abbrev pub emitted : TurnConfig → Record → Turn → Option (Value × Bool) → List Sent × Turn
emitted config r t (some message) = passed_by t message
emitted config r t none = projected r t (
    updates config.codecs config.backend r (config.uuid t.made_ids) (config.uuid (t.made_ids + 1))
      t.projection)

-- It also sets `saw_answer`, as the loop does with its result.
unfoldable pub emit_record_updates : TurnConfig → Record → Turn → List Sent × Turn
unfolding grok_native_message updates backend_eq str_at option_beq
emit_record_updates config r t =
    emitted config r t
      (if backend_eq config.backend grok then grok_native_message r config.session_id else none)

abbrev pub pass_gate : TurnConfig → Record → Turn → Bool × TurnTranscriptGate → List Sent × Turn
pass_gate config r t (true, gate) = emit_record_updates config r (record t { gate = gate })
pass_gate config r t (false, gate) = ([], record t { gate = gate })

abbrev pub hear : TurnConfig → Record → Turn → List Sent × Turn
hear config r t = pass_gate config r t (accepts r t.gate)

abbrev pub and_then_sent : List Sent × Turn → (Turn → List Sent × Turn) → List Sent × Turn
and_then_sent (sent, t) f = let rest = f t in (sent ++ rest.0, rest.1)

unfoldable pub hear_all : TurnConfig → List Record → Turn → List Sent × Turn
unfolding emit_record_updates accepts
hear_all config [] t = ([], t)
hear_all config (r ∷ rs) t = and_then_sent (hear config r t) (λ u. hear_all config rs u)

unfoldable pub emit_all : TurnConfig → List Record → Turn → List Sent × Turn
unfolding emit_record_updates
emit_all config [] t = ([], t)
emit_all config (r ∷ rs) t =
    and_then_sent (emit_record_updates config r t) (λ u. emit_all config rs u)
