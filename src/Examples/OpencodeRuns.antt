-- ===== src/Examples/OpencodeRuns.antt =====
-- A pane of opencode whose session starts a child session.
use slopd.Base.{true, false, none, some, List, [], ◌∷◌, ◌≡◌, refl, ◌||◌, ◌==◌, arith}
use slopd.Json.Value.{Value, string, object, no_fields, field, null}
use slopd.Pane.State.{PaneDetailedState, busy_subagent, busy_tool_use}
use slopd.Opencode.Status.{flag, status_to_detailed, status_is_working, status_word}
use slopd.Opencode.Driver.{Driver, Replies, RunConfig}
use slopd.Opencode.Agreement.{is_busy-status_to_detailed, is_busy}
use slopd.Opencode.Subagents.{Step, event, round, drive, IsTracking, drive-IsTracking}

abbrev a_tool : Value
a_tool = object (
    field "properties"
      (object (
        field "part"
          (object (field "tool" (string "bash") (field "type" (string "tool") no_fields)))
          (field "sessionID" (string "ses_1") no_fields)))
      (field "type" (string "message.part.updated") no_fields))

abbrev the_payload : Value
the_payload = object (
    field "extra" (object (field "tool_input" null (field "tool_name" (string "bash") no_fields))) (
      field "hook_event_name" (string "PreToolUse") (
        field "opencode_event" (string "message.part.updated") (
          field "properties"
            (object (
              field "part"
                (object (field "tool" (string "bash") (field "type" (string "tool") no_fields)))
                (field "sessionID" (string "ses_1") no_fields)))
            (field "session_id" (string "ses_1") no_fields)))))

abbrev retrying : Value
retrying = object (field "type" (string "RETRY") no_fields)

not_flagged : flag retrying "busy" ≡ false
unfolding flag
not_flagged = refl

is_busy-status_to_detailed_example : is_busy (status_to_detailed retrying) ≡ (
    status_is_working retrying
    || status_word retrying == "retry"
    || status_word retrying == "busy_tool_use")
is_busy-status_to_detailed_example = is_busy-status_to_detailed retrying not_flagged

a_retry : status_to_detailed retrying ≡ some slopd.Pane.State.busy_processing
unfolding status_to_detailed
a_retry = refl

abbrev a_driver : Driver
a_driver = record {
  pane_id = "%1";
  oc = some (record { session_id = "ses_1"; last_prompt = none; pending_prompt = none });
  noted_session_id = some "ses_1";
  retry = record { retry_state = none; expecting_auto_continue = false };
  tracked = record {
    detailed_state = PaneDetailedState.ready;
    grok_active_prompt_id = none;
    grok_unbound_prompt_active = false;
    tmux_state = none;
    tmux_detailed_state = none;
    sent = [];
  };
  subagents = [];
  sent = [];
}

abbrev replies : Replies
replies = record {
  now = 1000;
  active = none;
  status_map = none;
  target = some PaneDetailedState.ready;
  state_ok = true;
  detailed_ok = true;
}

abbrev child_starts : Value
child_starts = object (
    field "properties"
      (object (
        field "info" (object (field "parentID" (string "ses_1") no_fields))
          (field "sessionID" (string "ses_2") no_fields)))
      (field "type" (string "session.created") no_fields))

abbrev a_config : RunConfig
a_config = record {
  auto_continue_on_failure = true;
  policy = record { max_attempts = 3; initial_backoff_ms = 1000; max_backoff_ms = none };
}

abbrev steps : List Step
steps = event replies child_starts ∷ round replies ∷ event replies a_tool ∷ []

drive-IsTracking_example : IsTracking (drive a_config "ses_1" steps a_driver)
drive-IsTracking_example = drive-IsTracking a_config "ses_1" steps a_driver (λ h. ground (arith, h))

a_child : (drive a_config "ses_1" steps a_driver).tracked.detailed_state ≡ busy_subagent
unfolding drive
a_child = refl
