-- ===== src/Examples/TurnRuns.antt =====
-- A turn of Claude that runs a tool, a turn of Codex, and the parts that OpenCode sends.
use slopd.Base.{any, false, true, ◌||◌, String, none, some, List, [], ◌∷◌, ◌≡◌, refl}
use slopd.Pane.Agent.{claude, codex}
use slopd.Json.Value.{Value, string, object, array, empty, item, no_fields, field}
use slopd.Json.Record.{Record}
use slopd.Acp.Tools.{Codecs}
use slopd.Acp.Scan.{embedded_tool_calls}
use slopd.Acp.Projection.{new_projection}
use slopd.Acp.Client.{follow_sent}
use slopd.Acp.Gate.{new_gate}
use slopd.Acp.Emit.{Turn, TurnConfig, TurnEvent, transcript_record, state_record, end_turn}
use slopd.Acp.RunTurn.{run_turn}
use slopd.Acp.TurnSteps.{follow-run_turn}
use slopd.Acp.Stops.{is_answer_sent, is_own_stop}
use slopd.Acp.Answered.{run_turn-answered}
use slopd.Acp.Deltas.{deltas, sent_parts, deltas-sent_parts}

-- A codec that takes a text as it stands.
abbrev some_codecs : Codecs
some_codecs = record { json5 = λ text. some (string text); print = λ value. none }

abbrev a_call : Value
a_call = object (
    field "id" (string "toolu_1")
      (field "name" (string "Bash") (field "type" (string "tool_use") no_fields)))

abbrev a_result : Value
a_result = object (
    field "content" (string "ok")
      (field "tool_use_id" (string "toolu_1") (field "type" (string "tool_result") no_fields)))

deltas-sent_parts_example :
    deltas (sent_parts (("p1", "Hel") ∷ ("p2", "x") ∷ ("p1", "lo") ∷ []) []) []
    ≡ some "Hel" ∷ some "x" ∷ some "lo" ∷ []
deltas-sent_parts_example = deltas-sent_parts (("p1", "Hel") ∷ ("p2", "x") ∷ ("p1", "lo") ∷ []) []

a_script :
    embedded_tool_calls
      (λ text. some (string text))
      "await tools.read_file({path: \"a)\"}, 1); tools.x"
    ≡ ("read_file", string "{path: \"a)\"}") ∷ []
unfolding embedded_tool_calls
a_script = refl

abbrev a_turn : Turn
a_turn = record {
  projection = new_projection;
  gate = new_gate codex "hi" false;
  saw_busy = false;
  saw_answer = false;
  retry_pending = false;
  made_ids = 0;
}

abbrev codex_turn : TurnConfig
codex_turn = record {
  codecs = some_codecs;
  backend = codex;
  session_id = "slopd:1";
  native_session_id = some "n1";
  uuid = λ n. "id";
}

abbrev a_record : String → Value → Record
a_record event_type payload = record {
  cursor = some 1;
  source = "slopd";
  event_type = event_type;
  pane_id = some "%1";
  payload = payload;
}

abbrev events : List TurnEvent
events =
    transcript_record (a_record "agentMessage" (object (field "text" (string "hello") no_fields)))
    ∷ state_record (a_record "StateChange" (object (field "state" (string "ready") no_fields))) []
        false
    ∷ []

events_end : (run_turn codex_turn events a_turn).1.0 ≡ some end_turn
unfolding run_turn new_gate
events_end = refl

abbrev claude_turn : TurnConfig
claude_turn = record codex_turn { backend = claude }

abbrev a_message : String → Value → Record
a_message event_type block = a_record event_type (
    object
      (field "message" (object (field "content" (array (item block empty)) no_fields)) no_fields))

abbrev claude_events : List TurnEvent
claude_events =
    transcript_record (a_message "assistant" a_call)
    ∷ state_record (a_record "Stop" (object no_fields)) (a_message "user" a_result ∷ []) false
    ∷ []

claude_events_end : (run_turn claude_turn claude_events a_turn).1.0 ≡ some end_turn
unfolding run_turn new_gate
claude_events_end = refl

run_turn-answered_example :
    (any is_answer_sent (run_turn codex_turn events a_turn).0
      || any (is_own_stop codex_turn) events)
    ≡ true
run_turn-answered_example = run_turn-answered codex_turn events a_turn refl refl events_end

follow-run_turn_example : follow_sent (run_turn claude_turn claude_events a_turn).0 [] ≡ some []
follow-run_turn_example = follow-run_turn claude_turn claude_events a_turn tt claude_events_end
