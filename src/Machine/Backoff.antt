-- ===== src/Machine/Backoff.antt =====
-- slopd/src/main.rs: the delays and the attempts of the retries, and the senders they schedule.
use native.Mathlib.Nat.{mul-le-mul_left, pow-le-pow_right}
use slopd.Base.{
  max_u32, ℕ, ◌+◌, ◌-◌, ◌*◌, ◌^◌, ◌≤◌, ◌<◌, min, ltb, if◌then◌else◌, Bool, true, false, Option,
  none, some, ◌≡◌, refl, arith, List, [], ◌∷◌, length, ◌∙◌, ◌++◌, ap, max_u64,
}
use slopd.Machine.Retry.{
  capped, saturating_mul, RetrySchedule, BackoffPolicy, delay_ms, RetryState, next, next_attempt,
  matches, PaneRetry, schedule_auto_continue, send_auto_continue,
}

saturating_mul_mono : (a b c : ℕ) → b ≤ c → saturating_mul a b ≤ saturating_mul a c
unfolding saturating_mul
saturating_mul_mono a b c h = let k : a * b ≤ a * c = mul-le-mul_left a h in ground arith

exponent_mono : (m n : ℕ) → m ≤ n → 2 ^ min (m - 1) 63 ≤ 2 ^ min (n - 1) 63
exponent_mono m n h = pow-le-pow_right (omega arith) (ground arith)

capped_mono : (c : Option ℕ) (a b : ℕ) → a ≤ b → capped c a ≤ capped c b
capped_mono none a b h = h
capped_mono (some limit) a b h = ground arith

-- A later attempt never waits less than an earlier one.
pub delay_ms_mono : (p : BackoffPolicy) (m n : ℕ) → m ≤ n → delay_ms p m ≤ delay_ms p n
unfolding delay_ms
delay_ms_mono p m n h =
    capped_mono p.max_backoff_ms _ _
      (saturating_mul_mono p.initial_backoff_ms _ _ (exponent_mono m n h))

-- A retry's attempt number is one more than that of the retry before it, and never above the
-- configured number of attempts.
next_count :
    (prev : Option RetryState) (p : BackoffPolicy) (now : ℕ)
    → next_attempt prev ≤ p.max_attempts
    → next prev p now
      ≡ some (record {
        attempt_count = next_attempt prev;
        next_send_at = now + delay_ms p (next_attempt prev);
      })
unfolding next
next_count prev p now h = ground arith

next_give_up :
    (prev : Option RetryState) (p : BackoffPolicy) (now : ℕ)
    → p.max_attempts < next_attempt prev
    → next prev p now ≡ none
unfolding next
next_give_up prev p now h = ground arith

-- What failures at the given times schedule, with no prompt and no clean stop between them.
unfoldable pub fail_all : BackoffPolicy → List ℕ → PaneRetry → List (Option RetrySchedule)
unfolding schedule_auto_continue
fail_all p [] s = []
fail_all p (now ∷ nows) s =
    let failed = schedule_auto_continue true p now s in failed.0 ∷ fail_all p nows failed.1

-- The first delay, doubled for each attempt before but not more than 63 times, within `u64` and within
-- the configured maximum.
abbrev held_to : Option ℕ → ℕ → ℕ
held_to none delay = delay
held_to (some most) delay = if ltb most delay then most else delay

abbrev pub doubled_delay : BackoffPolicy → ℕ → ℕ
doubled_delay p attempt =
    held_to p.max_backoff_ms
      (held_to (some max_u64) (p.initial_backoff_ms * 2 ^ min (attempt - 1) 63))

delay_ms-doubled : (p : BackoffPolicy) (attempt : ℕ) → delay_ms p attempt ≡ doubled_delay p attempt
unfolding delay_ms saturating_mul
delay_ms-doubled p attempt =
    capped-held_to p.max_backoff_ms
      (held_to (some max_u64) (p.initial_backoff_ms * 2 ^ min (attempt - 1) 63))
  where
    capped-held_to : (o : Option ℕ) (d : ℕ) → capped o d ≡ held_to o d
    capped-held_to none d = refl
    capped-held_to (some most) d = ground arith

delay_ms_bound : (p : BackoffPolicy) (attempt : ℕ) → delay_ms p attempt ≤ max_u64
unfolding delay_ms saturating_mul
delay_ms_bound p attempt =
    capped_bound p.max_backoff_ms
      (held_to (some max_u64) (p.initial_backoff_ms * 2 ^ min (attempt - 1) 63)) (ground arith)
  where
    capped_bound : (o : Option ℕ) (d : ℕ) → d ≤ max_u64 → capped o d ≤ max_u64
    capped_bound none d h = h
    capped_bound (some most) d h = ground (arith, h)

-- One schedule per failure, numbered from `attempt` on and each with the delay of its number, and
-- then none.
unfoldable pub numbered_from : BackoffPolicy → ℕ → List ℕ → List (Option RetrySchedule)
numbered_from p attempt [] = none ∷ []
numbered_from p attempt (now ∷ nows) =
    some (record { attempt = attempt; delay_ms = doubled_delay p attempt })
    ∷ numbered_from p (attempt + 1) nows

unfoldable attempts_made : PaneRetry → ℕ
attempts_made s = elim s.retry_state [ none ↦ 0 | some r ↦ r.attempt_count ]

next_attempt-attempts_made :
    (s : PaneRetry) → attempts_made s < max_u32 → next_attempt s.retry_state ≡ attempts_made s + 1
unfolding attempts_made
next_attempt-attempts_made s h = go s.retry_state h
  where
    go :
        (r : Option RetryState)
        → (elim r [ none ↦ 0 | some x ↦ x.attempt_count ]) < max_u32
        → next_attempt r ≡ (elim r [ none ↦ 0 | some x ↦ x.attempt_count ]) + 1
    go none k = refl
    go (some r) k = omega arith

fail_once :
    (p : BackoffPolicy) (now : ℕ) (s : PaneRetry)
    → attempts_made s < p.max_attempts
    → p.max_attempts ≤ max_u32
    → (attempts_made (schedule_auto_continue true p now s).1 ≡ attempts_made s + 1)
      × ((schedule_auto_continue true p now s).0
          ≡ some (record {
            attempt = attempts_made s + 1;
            delay_ms = doubled_delay p (attempts_made s + 1);
          }))
unfolding attempts_made schedule_auto_continue
fail_once p now s h few =
    let e = next_attempt-attempts_made s (omega (arith, h, few)) in
    let k = next_attempt s.retry_state in
    let waits : min ((now + delay_ms p k) - now) max_u64 ≡ delay_ms p k =
      omega (arith, delay_ms_bound p k) in
    rw (next_count s.retry_state p now (omega (arith, e, h)))
      (e, rw (waits, delay_ms-doubled p k, e) refl)

fail_all-numbered_from :
    (p : BackoffPolicy) (nows : List ℕ) (now : ℕ) (s : PaneRetry)
    → attempts_made s + length nows ≡ p.max_attempts
    → p.max_attempts < max_u32
    → fail_all p (nows ++ now ∷ []) s ≡ numbered_from p (attempts_made s + 1) nows
unfolding fail_all numbered_from schedule_auto_continue
fail_all-numbered_from p [] now s h few =
    let e = next_attempt-attempts_made s (omega (arith, h, few)) in
    rw (next_give_up s.retry_state p now (omega (arith, e, h))) refl
fail_all-numbered_from p (n ∷ nows) now s h few =
    let once = fail_once p n s (omega (arith, h)) (omega (arith, few)) in
    let rest =
      fail_all-numbered_from p nows now (schedule_auto_continue true p n s).1
        (omega (arith, h, once.0)) few in
    rw (once.1, rest, once.0) refl

no_attempts : (t : PaneRetry) → t.retry_state ≡ none → attempts_made t ≡ 0
unfolding attempts_made
no_attempts t c = rw c refl

-- A pane whose agent keeps failing is retried exactly as often as the configuration says: from a
-- clean state the first `max_attempts` failures schedule the attempts 1 to `max_attempts`, in this
-- order, and the failure after them schedules nothing. The attempt with number n waits for the first
-- delay doubled n - 1 times, but not more than 63 times, within `u64` and within the configured
-- maximum. The maximum of attempts is below the largest `u32`.
pub fail_all-gives_up :
    (p : BackoffPolicy) (nows : List ℕ) (now : ℕ) (s : PaneRetry)
    → s.retry_state ≡ none
    → length nows ≡ p.max_attempts
    → p.max_attempts < max_u32
    → fail_all p (nows ++ now ∷ []) s ≡ numbered_from p 1 nows
fail_all-gives_up p nows now s clean len few =
    let start : attempts_made s ≡ 0 = no_attempts s clean in
    fail_all-numbered_from p nows now s (omega (arith, start, len)) few
    ∙ ap (λ k. numbered_from p (k + 1) nows) start

-- A sender whose retry was replaced by that of a later failure, or by giving up, sends nothing and
-- changes nothing.
pub send_auto_continue-superseded :
    (p : BackoffPolicy) (now : ℕ) (accepted : Bool) (s : PaneRetry) (r : RetryState)
    → s.retry_state ≡ some r
    → r.attempt_count ≤ max_u32
    → let later = (schedule_auto_continue true p now s).1 in
      send_auto_continue r.attempt_count r.next_send_at accepted later ≡ (false, later)
unfolding send_auto_continue schedule_auto_continue next matches
send_auto_continue-superseded p now accepted s r h small = rw h (ground arith)
