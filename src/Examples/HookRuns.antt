-- ===== src/Examples/HookRuns.antt =====
-- Hooks and the turn gate at concrete inputs.
use slopd.Base.{String, true, none, some, List, [], ◌∷◌, ◌≡◌, ◌≢◌, arith, eq_iff, unwrap_or}
use slopd.Pane.Agent.{codex}
use slopd.Json.Value.{string, object, no_fields, field}
use slopd.Json.Record.{Record}
use slopd.Acp.Gate.{new_gate, take_buffered, relay, after_last_echo, relay-new_gate}

a_socket : ◌≢◌ {A = String} "/tmp/a,b" ""
a_socket e = ground (arith, eq_iff "/tmp/a,b" "")

abbrev a_record : String → String → Record
a_record kind text = record {
  cursor = none;
  source = "transcript";
  event_type = kind;
  pane_id = some "%1";
  payload = object (field "text" (string text) no_fields);
}

abbrev replayed : List Record
replayed =
    a_record "agentMessage" "old"
    ∷ a_record "userMessage" "hello"
    ∷ a_record "agentMessage" "new"
    ∷ []

relay-new_gate_example :
    ((relay replayed (new_gate codex "hello" true)).0 ≡ [])
    × ((take_buffered (relay replayed (new_gate codex "hello" true)).1).0
        ≡ unwrap_or (after_last_echo "hello" replayed) [])
relay-new_gate_example = relay-new_gate "hello" replayed
