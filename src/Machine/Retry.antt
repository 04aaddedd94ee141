-- ===== src/Machine/Retry.antt =====
-- slopd/src/main.rs: `BackoffPolicy`, `RetryState`, `schedule_auto_continue` and its delayed sender.
-- Instants and delays are in milliseconds; attempts are `u32`, whose addition wraps.
use slopd.Base.{
  ℕ, ◌+◌, ◌-◌, ◌*◌, ◌^◌, ◌%◌, min, Bool, true, false, ◌&&◌, Option, none, some, ltb, nat_eq,
  max_u64, max_u32, if◌then◌else◌, map_option,
}

unfoldable pub saturating_mul : ℕ → ℕ → ℕ
saturating_mul a b = if ltb max_u64 (a * b) then max_u64 else a * b

pub record BackoffPolicy : Type 0 where
  pub max_attempts : ℕ
  pub initial_backoff_ms : ℕ
  pub max_backoff_ms : Option ℕ

abbrev pub capped : Option ℕ → ℕ → ℕ
capped none delay = delay
capped (some cap) delay = min delay cap

unfoldable pub delay_ms : BackoffPolicy → ℕ → ℕ
unfolding saturating_mul
delay_ms policy attempt =
    capped policy.max_backoff_ms
      (saturating_mul policy.initial_backoff_ms (2 ^ min (attempt - 1) 63))

pub record RetryState : Type 0 where
  pub attempt_count : ℕ
  pub next_send_at : ℕ

abbrev pub next_attempt : Option RetryState → ℕ
next_attempt none = 1
next_attempt (some s) = (s.attempt_count + 1) % (max_u32 + 1)

unfoldable pub next : Option RetryState → BackoffPolicy → ℕ → Option RetryState
unfolding delay_ms
next prev policy now =
    let attempt = next_attempt prev in
    if ltb policy.max_attempts attempt
    then none
    else some (record { attempt_count = attempt; next_send_at = now + delay_ms policy attempt })

unfoldable pub matches : RetryState → ℕ → ℕ → Bool
matches s attempt at = nat_eq s.attempt_count attempt && nat_eq s.next_send_at at

pub record RetrySchedule : Type 0 where
  pub attempt : ℕ
  pub delay_ms : ℕ

-- What a pane keeps of its retries.
pub record PaneRetry : Type 0 where
  pub retry_state : Option RetryState
  pub expecting_auto_continue : Bool

abbrev pub schedule_of : ℕ → RetryState → RetrySchedule
schedule_of now s = record {
  attempt = s.attempt_count;
  delay_ms = min (s.next_send_at - now) max_u64;
}

unfoldable pub schedule_auto_continue :
    (auto_continue_on_failure : Bool)
    → BackoffPolicy
    → (now : ℕ) → PaneRetry
    → Option RetrySchedule × PaneRetry
unfolding next
schedule_auto_continue false policy now s = (none, s)
schedule_auto_continue true policy now s =
    let new = next s.retry_state policy now in
    (map_option (schedule_of now) new, record s { retry_state = new })

abbrev should_send : Option RetryState → ℕ → ℕ → Bool
should_send none attempt at = false
should_send (some s) attempt at = matches s attempt at

-- The delayed sender of a retry: whether it sends, and what it leaves. `accepted` is what
-- `submit_auto_continue` returns.
unfoldable pub send_auto_continue :
    (attempt next_send_at : ℕ) → (accepted : Bool) → PaneRetry → Bool × PaneRetry
unfolding matches
send_auto_continue attempt at accepted s =
    if should_send s.retry_state attempt at
    then (
      true,
      if accepted
          then record s { expecting_auto_continue = true }
          else record { retry_state = none; expecting_auto_continue = false },
    )
    else (false, s)
