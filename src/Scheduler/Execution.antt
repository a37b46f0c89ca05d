-- ===== src/Scheduler/Execution.antt =====
-- One run of a schedule: `execute_schedule` of crates/duragent/src/scheduler/service.rs.
-- `outcome` is what the payload gives at each attempt. Other tasks go on while this one awaits: `waits`
-- is what they make of the service during the delay before an attempt, `runs` during the attempt. The
-- steps before the first attempt are taken as a whole, and so are those behind the last one. The permit
-- of the semaphore is there, `start` is the time when it is got.
pub mod Timers
pub mod Attempts
pub mod Runs
use agnx.Common.{
  retain, ◌==◌, str_append, ◌^◌, ℕ, zero, suc, ◌+◌, ◌/◌, ◌%◌, String, Bool, true, false, not, ◌&&◌,
  Option, none, some, [], ◌∷◌, ◌++◌, ltb, if◌then◌else◌, Result, ok, err, List,
}
use agnx.Common.Entries.{remove_entry, lookup_entry}
use agnx.Scheduler.{
  Schedule, ScheduleState, RunLogEntry, SchedulerError, RunStatus, RetryConfig, is_one_shot,
  is_recurring, is_active, not_found, invalid_schedule, invalid_cron, past_timestamp, storage,
  execution_failed, gateway_unavailable, agent_not_found, not_authorized, io, completed, error,
}
use agnx.Scheduler as S
use agnx.Scheduler.Cache.{update_status, update_state, update_state_atomically}
use agnx.Scheduler.Service.{Timer, SchedulerService, set_timer, on_cache, drop_sender}
use agnx.Scheduler.Timing.{TimeLibrary, calculate_next_run}

abbrev pub is_found_active : Option Schedule → Bool
is_found_active none = false
is_found_active (some s) = is_active s.status

-- The schedule is in the cache and active.
abbrev pub still_active : String → SchedulerService → Bool
still_active id s = is_found_active (lookup_entry id s.cache.schedules)

-- The attempts that a run may make: `max_retries` is a `u8`.
abbrev pub max_attempts : Option RetryConfig → ℕ
max_attempts none = 1
max_attempts (some r) = (r.max_retries + 1) % 2 ^ 8

abbrev pub is_ok : Result Unit SchedulerError → Bool
is_ok (ok u) = true
is_ok (err e) = false

-- Whether a delay comes before the attempt.
abbrev pub waits_before : ℕ → Option RetryConfig → Bool
waits_before zero retry = false
waits_before (suc k) none = false
waits_before (suc k) (some r) = true

-- How the attempts end: early, since the schedule is active no more, or with the last result and the
-- number of attempts.
pub data Attempted : Type 0 where
  stopped : SchedulerService → Attempted
  ended : Result Unit SchedulerError → ℕ → SchedulerService → Attempted

abbrev pub mark_running : ℕ → String → SchedulerService → SchedulerService
unfolding update_state_atomically
mark_running start id s = record s {
  cache = update_state_atomically id (λ st. record st { running_since = some start }) s.cache;
}

abbrev digit_at : List String → ℕ → String
digit_at [] d = ""
digit_at (t ∷ ts) zero = t
digit_at (t ∷ ts) (suc d) = digit_at ts d

abbrev digit : ℕ → String
digit d = digit_at ("0" ∷ "1" ∷ "2" ∷ "3" ∷ "4" ∷ "5" ∷ "6" ∷ "7" ∷ "8" ∷ "9" ∷ []) d

-- The digits of a `u8`.
unfoldable pub decimal_u8 : ℕ → String
decimal_u8 n =
    str_append (if ltb n 100 then "" else digit (n / 100))
      (str_append (if ltb n 10 then "" else digit (n / 10 % 10)) (digit (n % 10)))

unfoldable pub display_error : SchedulerError → String
display_error (not_found t) = str_append "schedule not found: " t
display_error (invalid_schedule t) = str_append "invalid schedule: " t
display_error (invalid_cron t) = str_append "invalid cron expression: " t
display_error past_timestamp = "timestamp is in the past"
display_error (storage t) = str_append "storage error: " t
display_error (execution_failed t) = str_append "execution failed: " t
display_error (gateway_unavailable t) = str_append "gateway not available: " t
display_error (agent_not_found t) = str_append "agent not found: " t
display_error (not_authorized t) =
    str_append "not authorized: schedule belongs to agent '" (str_append t "'")
display_error (io t) = str_append "io error: " t

abbrev pub status_of : Result Unit SchedulerError → RunStatus
status_of (ok u) = S.ok
status_of (err e) = error

unfoldable pub error_message : Result Unit SchedulerError → ℕ → Option String
unfolding display_error decimal_u8
error_message (ok u) made = none
error_message (err e) made = some (
    if ltb 1 made
    then str_append (display_error e)
        (str_append " (after " (str_append (decimal_u8 made) " attempts)"))
    else display_error e)

module _ (outcome : ℕ → Result Unit SchedulerError)
    (waits runs : ℕ → SchedulerService → SchedulerService) where
  -- `left` attempts from the one with the number `k`, with the result of the one before.
  unfoldable pub run_attempts :
      ℕ
      → ℕ
      → Option RetryConfig
      → String
      → Result Unit SchedulerError
      → SchedulerService
      → Attempted
  run_attempts zero k retry id last s = ended last k s
  run_attempts (suc left) k retry id last s =
      let s1 : SchedulerService = if waits_before k retry then waits k s else s in
      let s2 : SchedulerService = runs k s1 in
      let rest : Attempted = run_attempts left (suc k) retry id (outcome k) s2 in
      if waits_before k retry && not (still_active id s1)
      then stopped s1
      else if is_ok (outcome k)
      then ended (outcome k) (suc k) s2
      else rest

module _ (time : TimeLibrary) where
  -- The next time of a schedule that repeats, if the run went well.
  abbrev pub next_run : ℕ → Schedule → Result Unit SchedulerError → Option ℕ
  unfolding is_recurring calculate_next_run
  next_run start schedule result =
      if is_recurring schedule && is_ok result
      then calculate_next_run time start schedule.timing (some start)
      else none

  abbrev pub reschedule : String → Option ℕ → SchedulerService → SchedulerService
  unfolding set_timer
  reschedule id none s = s
  reschedule id (some next) s = set_timer id next s

  -- `timers.remove(id)`, which drops the sender, behind the new status.
  abbrev pub complete : String → SchedulerService → SchedulerService
  unfolding update_status drop_sender
  complete id s =
      let s' : SchedulerService = (on_cache (update_status id completed) s).1 in
      record s' {
        timers = remove_entry id s'.timers;
        waiting = drop_sender (lookup_entry id s'.timers) s'.waiting;
      }

  abbrev pub log_run :
      ℕ
      → ℕ
      → String
      → Schedule
      → Result Unit SchedulerError
      → ℕ
      → SchedulerService
      → SchedulerService
  unfolding update_state error_message
  log_run start duration id schedule result made s =
      let state : ScheduleState = record {
        next_run_at = next_run start schedule result;
        running_since = none;
        last_run_at = some start;
        last_status = some (status_of result);
        last_error = error_message result made;
        last_duration_ms = some duration;
      } in
      let entry : RunLogEntry = record {
        ts = start;
        status = status_of result;
        duration_ms = some duration;
        error = error_message result made;
        next_run_at = next_run start schedule result;
      } in
      record s { cache = update_state id state s.cache; run_log = s.run_log ++ (id, entry) ∷ [] }

  -- Behind the attempts.
  unfoldable pub finish_run :
      ℕ
      → ℕ
      → String
      → Schedule
      → Result Unit SchedulerError
      → ℕ
      → SchedulerService
      → SchedulerService
  unfolding is_one_shot update_state update_status set_timer drop_sender
  finish_run start duration id schedule result made s =
      let s' : SchedulerService = log_run start duration id schedule result made s in
      if is_one_shot schedule
      then complete id s'
      else reschedule id (next_run start schedule result) s'

  abbrev pub end_run : ℕ → ℕ → String → Schedule → Attempted → SchedulerService
  end_run start duration id schedule (stopped s) = s
  end_run start duration id schedule (ended result made s) =
      finish_run start duration id schedule result made s

module _ (time : TimeLibrary) (outcome : ℕ → Result Unit SchedulerError)
    (waits runs : ℕ → SchedulerService → SchedulerService) where
  abbrev pub execute_active : ℕ → ℕ → String → Schedule → SchedulerService → SchedulerService
  unfolding run_attempts finish_run
  execute_active start duration id schedule s = end_run time start duration id schedule (
      run_attempts outcome waits runs (max_attempts schedule.retry) 0 schedule.retry id
        (err (execution_failed "not executed")) (mark_running start id s))

  -- The schedule as the cache has it.
  unfoldable pub execute_found :
      ℕ → ℕ → String → Option Schedule → SchedulerService → SchedulerService
  unfolding run_attempts finish_run
  execute_found start duration id none s = s
  execute_found start duration id (some schedule) s =
      if is_active schedule.status then execute_active start duration id schedule s else s

  unfoldable pub execute_schedule : ℕ → ℕ → String → SchedulerService → SchedulerService
  unfolding execute_found
  execute_schedule start duration id s =
      execute_found start duration id (lookup_entry id s.cache.schedules) s

  -- The deadline of a task has come before its sender was used: it sleeps no more and runs the schedule.
  unfoldable pub fire : ℕ → ℕ → Timer → SchedulerService → SchedulerService
  unfolding execute_schedule
  fire start duration t s =
      execute_schedule start duration t.schedule_id
        (record s { waiting = retain (λ (w : Timer). not (w.task_id == t.task_id)) s.waiting })
