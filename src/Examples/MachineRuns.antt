-- ===== src/Examples/MachineRuns.antt =====
-- Pane states and retries at concrete inputs.
use slopd.Base.{true, false, none, some, [], ◌∷◌, ◌≡◌, ◌≢◌, refl, arith}
use slopd.Pane.State.{PaneDetailedState, busy_processing, to_simple}
use slopd.Machine.Update.{Tracked, set_hook_detailed_state}
use slopd.Machine.Changes.{
  Transition, take_transitions, IsFollowed, take_transitions-IsFollowed, hook_race-IsFollowed,
  seen_state, seen_detailed_state,
}
use slopd.Machine.Retry.{
  BackoffPolicy, RetryState, PaneRetry, schedule_auto_continue, send_auto_continue,
}
use slopd.Machine.Backoff.{
  fail_all, numbered_from, fail_all-gives_up, send_auto_continue-superseded,
}

abbrev ready_pane : Tracked
ready_pane = record {
  detailed_state = PaneDetailedState.ready;
  grok_active_prompt_id = none;
  grok_unbound_prompt_active = false;
  tmux_state = none;
  tmux_detailed_state = none;
  sent = [];
}

abbrev busy_pane : Tracked
busy_pane = record ready_pane { detailed_state = busy_processing }

abbrev to_busy : Transition
to_busy = record {
  detailed = busy_processing;
  previous = PaneDetailedState.ready;
  guard = none;
  state_ok = true;
  detailed_ok = false;
}

ready-IsFollowed : IsFollowed PaneDetailedState.ready ready_pane
unfolding seen_state seen_detailed_state
ready-IsFollowed = (refl, refl)

busy-IsFollowed : IsFollowed busy_processing busy_pane
unfolding seen_state seen_detailed_state
busy-IsFollowed = (refl, refl)

take_transitions-IsFollowed_example :
    IsFollowed PaneDetailedState.ready (take_transitions (to_busy ∷ to_busy ∷ []) ready_pane)
take_transitions-IsFollowed_example =
    take_transitions-IsFollowed PaneDetailedState.ready (to_busy ∷ to_busy ∷ []) ready_pane
      ready-IsFollowed

not_ready : to_simple busy_processing ≢ to_simple PaneDetailedState.ready
unfolding to_simple
not_ready e = cc

hook_race-IsFollowed_example : ¬ IsFollowed busy_processing (
    set_hook_detailed_state PaneDetailedState.ready
      (some PaneDetailedState.ready)
      true
      true
      busy_pane)
hook_race-IsFollowed_example =
    hook_race-IsFollowed busy_processing PaneDetailedState.ready PaneDetailedState.ready busy_pane
      busy-IsFollowed refl not_ready

abbrev a_policy : BackoffPolicy
a_policy = record { max_attempts = 2; initial_backoff_ms = 1000; max_backoff_ms = some 60000 }

abbrev no_retry : PaneRetry
no_retry = record { retry_state = none; expecting_auto_continue = false }

fail_all-gives_up_example :
    fail_all a_policy (5 ∷ 9000 ∷ 20000 ∷ []) no_retry ≡ numbered_from a_policy 1 (5 ∷ 9000 ∷ [])
fail_all-gives_up_example =
    fail_all-gives_up a_policy (5 ∷ 9000 ∷ []) 20000 no_retry refl refl (omega arith)

abbrev first_retry : RetryState
first_retry = record { attempt_count = 1; next_send_at = 1005 }

abbrev retrying : PaneRetry
retrying = record { retry_state = some first_retry; expecting_auto_continue = false }

send_auto_continue-superseded_example :
    send_auto_continue 1 1005 true (schedule_auto_continue true a_policy 700 retrying).1
    ≡ (false, (schedule_auto_continue true a_policy 700 retrying).1)
send_auto_continue-superseded_example =
    send_auto_continue-superseded a_policy 700 true retrying first_retry refl (omega arith)
