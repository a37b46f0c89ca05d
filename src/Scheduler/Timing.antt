-- ===== src/Scheduler/Timing.antt =====
-- When a schedule runs: `validate_timing` and `calculate_next_run` of
-- crates/duragent/src/scheduler/service.rs, and the delay between attempts of
-- crates/duragent/src/scheduler/schedule_eval.rs.
-- Cron expressions and the arithmetic of times are libraries. Times are after the epoch; what a sum that
-- the library refuses, by a panic, would give is left to it. `jitter` is what the floating-point factor
-- between 0.8 and 1.2 makes of a delay.
pub mod Intervals
use agnx.Common.{
  ◌%◌, suc, zero, ℕ, ◌+◌, ◌-◌, ◌*◌, ◌/◌, ◌^◌, min, String, Option, none, some, Result, ok, err, leb,
  ltb, ◌==◌, if◌then◌else◌,
}
use agnx.Scheduler.{
  ScheduleTiming, at, every, cron, RetryConfig, SchedulerError, past_timestamp, invalid_schedule,
  invalid_cron,
}

-- An `i64`.
pub data ℤ : Type 0 where
  pos : ℕ → ℤ
  negsuc : ℕ → ℤ

-- `n as i64`, and what an `i64` sum or product wraps to.
unfoldable pub as_i64 : ℕ → ℤ
as_i64 n = let m = n % 2 ^ 64 in if ltb m (2 ^ 63) then pos m else negsuc (2 ^ 64 - 1 - m)

pub record TimeLibrary : Type 0 where
  -- what the cron library finds in an expression after a time: `none` if it cannot parse it
  pub next_cron : String → Option (ℕ → Option ℕ)
  -- a time and a number of seconds later, or earlier
  pub plus_seconds : ℕ → ℤ → ℕ

-- `(elapsed / interval_secs + 1) * interval_secs`, for an interval that may be negative: the quotient
-- is rounded towards 0.
unfoldable pub seconds_to_next : ℕ → ℤ → ℤ
unfolding as_i64
seconds_to_next elapsed (pos interval) = as_i64 ((elapsed / interval + 1) * interval)
seconds_to_next elapsed (negsuc m) =
    let q = elapsed / suc m in elim q [ zero ↦ negsuc m | suc p ↦ pos (p * suc m) ]

module _ (time : TimeLibrary) where
  unfoldable pub validate_timing : ℕ → ScheduleTiming → Result Unit SchedulerError
  validate_timing now (at t) = if leb t now then err past_timestamp else ok tt
  validate_timing now (every every_seconds anchor) =
      if every_seconds == 0 then err (invalid_schedule "every_seconds must be > 0") else ok tt
  validate_timing now (cron expr tz) = elim (time.next_cron expr) [
    | some _ ↦ ok tt
    | none ↦ err (invalid_cron expr)
  ]

  -- The `Every` case, for the time `base` of the anchor.
  unfoldable pub next_aligned : ℕ → ℕ → ℕ → ℕ
  unfolding seconds_to_next
  next_aligned every_seconds base after =
      let elapsed = (after - base) / 1000 in
      time.plus_seconds base (seconds_to_next elapsed (as_i64 every_seconds))

  unfoldable pub calculate_next_run : ℕ → ScheduleTiming → Option ℕ → Option ℕ
  unfolding next_aligned
  calculate_next_run now (at t) after = if ltb now t then some t else none
  calculate_next_run now (every every_seconds anchor) after =
      let from : ℕ = elim after [ some t ↦ t | none ↦ now ] in
      some (next_aligned every_seconds (elim anchor [ some t ↦ t | none ↦ from ]) from)
  calculate_next_run now (cron expr tz) after =
      let from : ℕ = elim after [ some t ↦ t | none ↦ now ] in
      elim (time.next_cron expr) [ some next ↦ next from | none ↦ none ]

-- `u64::saturating_mul`
abbrev saturating_mul : ℕ → ℕ → ℕ
saturating_mul a b = min (a * b) (2 ^ 64 - 1)

-- The delay before the jitter.
unfoldable pub capped_delay : RetryConfig → ℕ → ℕ
capped_delay retry attempt =
    min (saturating_mul retry.initial_delay_ms (2 ^ min attempt 10)) retry.max_delay_ms

unfoldable pub delay_for_attempt : (ℕ → ℕ) → RetryConfig → ℕ → ℕ
delay_for_attempt jitter retry attempt = jitter (capped_delay retry attempt)
