-- ===== src/Scheduler/Execution/Attempts.antt =====
-- The attempts of a run, crates/duragent/src/scheduler/service.rs.
use agnx.Common.{true, ℕ, suc, ◌≤◌, ◌<◌, String, ◌≡◌, ◌⊎◌, false, Result}
use agnx.Scheduler.{SchedulerError}
use agnx.Scheduler.Service.{SchedulerService}
use agnx.Scheduler.Execution.{Attempted, stopped, ended, is_ok, still_active}

-- How attempts from the number `k` up to the number `top` may end: behind the delay before the attempt
-- `made`, because the schedule is active no more and all attempts before failed, or with the result of
-- the attempt `made`, the first that went well or the last that is allowed. Numbers start at 0, and the
-- attempt 0 has no delay.
pub data Ends (outcome : ℕ → Result Unit SchedulerError) (id : String) (k top : ℕ)
    : Attempted → Type 0 where
  stops :
      (made : ℕ) (s : SchedulerService)
      → 0 < made
      → k ≤ made
      → made < top
      → ((j : ℕ) → k ≤ j → j < made → is_ok (outcome j) ≡ false)
      → still_active id s ≡ false
      → Ends outcome id k top (stopped s)
  ends :
      (made : ℕ) (s : SchedulerService)
      → k ≤ made
      → suc made ≤ top
      → ((j : ℕ) → k ≤ j → j < made → is_ok (outcome j) ≡ false)
      → (is_ok (outcome made) ≡ true) ⊎ (suc made ≡ top)
      → Ends outcome id k top (ended (outcome made) (suc made) s)
