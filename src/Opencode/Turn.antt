-- ===== src/Opencode/Turn.antt =====
-- slopd/src/main.rs: what `read_opencode_sse` does at an event of the pane's own session, with
-- `schedule_opencode_auto_continue` and `annotate_retry`.
use slopd.Base.{
  ℕ, String, true, false, Option, none, some, and_then, map_option, ◌==◌, string_eq, if◌then◌else◌,
}
use slopd.Json.Value.{Value, bool, number, object, Fields}
use slopd.Machine.Retry.{RetryState, RetrySchedule, next, schedule_of}
use slopd.Settings.Inject.{set_field}
use slopd.Opencode.Events.{is_type, event_to_hook, event_to_transcript, event_is_failure}
use slopd.Opencode.Driver.{OpencodeState, Driver, RunConfig, send}

abbrev with_next : ℕ → Option RetryState → Driver → Option RetrySchedule × Driver
with_next now none d = (none, record d { retry = record d.retry { retry_state = none } })
with_next now (some s) d = (
  some (schedule_of now s),
  record d { retry = record { retry_state = some s; expecting_auto_continue = true } },
)

abbrev retry_with : RunConfig → ℕ → Option String → Driver → Option RetrySchedule × Driver
retry_with config now none d = (none, d)
retry_with config now (some prompt) d = with_next now (next d.retry.retry_state config.policy now) d

unfoldable pub schedule_opencode_auto_continue :
    RunConfig → ℕ → Driver → Option RetrySchedule × Driver
unfolding next
schedule_opencode_auto_continue config now d =
    if config.auto_continue_on_failure
    then retry_with config now (and_then d.oc (λ (o : OpencodeState). o.last_prompt)) d
    else (none, d)

abbrev annotated : Option RetrySchedule → Fields → Fields
annotated none fs = set_field "retry_scheduled" (bool false) fs
annotated (some s) fs =
    set_field "retry_in_ms" (number s.delay_ms)
      (set_field "retry_attempt" (number s.attempt) (set_field "retry_scheduled" (bool true) fs))

unfoldable pub annotate_retry : Value → Option RetrySchedule → Value
unfolding set_field
annotate_retry (object fs) schedule = object (annotated schedule fs)
annotate_retry v schedule = v

abbrev drop_pending : Driver → Driver
drop_pending d = record d {
  oc = map_option (λ (o : OpencodeState). record o { pending_prompt = none }) d.oc;
}

abbrev submitted : OpencodeState → OpencodeState
submitted o = elim o.pending_prompt [
  | none ↦ o
  | some prompt ↦ record o { last_prompt = some prompt; pending_prompt = none }
]

abbrev take_pending : Driver → Driver
take_pending d = record d { oc = map_option submitted d.oc }

abbrev send_hook : Option RetrySchedule → Option (String × Value) → Driver → Driver
send_hook schedule none d = d
send_hook schedule (some (name, payload)) d =
    send "hook" name (if name == "StopFailure" then annotate_retry payload schedule else payload)
      (if name == "UserPromptSubmit" then take_pending d else d)

abbrev send_transcript : Option (String × Value) → Driver → Driver
send_transcript none d = d
send_transcript (some (kind, payload)) d = send "transcript" kind payload d

abbrev end_turn : Driver → Driver
end_turn d = drop_pending (record d { retry = record d.retry { retry_state = none } })

abbrev failed : RunConfig → ℕ → Value → Driver → Option RetrySchedule × Driver
failed config now event d =
    if event_is_failure event
    then schedule_opencode_auto_continue config now (drop_pending d)
    else (none, d)

-- The side effects of an event of the main session.
unfoldable pub main_event : RunConfig → ℕ → Value → Driver → Driver
unfolding schedule_opencode_auto_continue annotate_retry event_is_failure event_to_transcript
    event_to_hook
main_event config now event d =
    let ended = if is_type event "session.idle" then end_turn d else d in
    let (schedule, d') =
      failed config now event (send_transcript (event_to_transcript event) ended) in
    send_hook schedule (event_to_hook event) d'
