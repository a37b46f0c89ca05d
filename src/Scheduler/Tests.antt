-- ===== src/Scheduler/Tests.antt =====
-- Runs of the scheduler at concrete inputs.
use agnx.Common.{
  ◌^◌, ◌-◌, ◌+◌, ◌*◌, ℕ, ◌≤◌, ◌<◌, ◌≡◌, refl, true, none, some, [], ◌∷◌, map, arith, ◌==◌,
  if◌then◌else◌, Result, ok, err, retain,
}
use agnx.Common.Entries.{lookup_entry}
use agnx.Scheduler.{
  is_one_shot, is_recurring, ScheduleState, Schedule, SchedulerError, every, at, task, active,
  cancelled, default_state, execution_failed, past_timestamp,
}
use agnx.Scheduler.Timing.{
  TimeLibrary, pos, negsuc, seconds_to_next, as_i64, validate_timing, calculate_next_run,
  next_aligned, capped_delay,
}
use agnx.Scheduler.Timing.Intervals.{IsExact, calculate_next_run-later}
use agnx.Scheduler.Cache.{ScheduleCache}
use agnx.Scheduler.Cache.Agreement.{IsKept, Agrees}
use agnx.Scheduler.Cache.Sequences.{
  creates, sets_status, deletes, apply_changes, apply_changes-Agrees,
}
use agnx.Scheduler.Service.{SchedulerService, Timer, set_timer, cancel_schedule, run_turn}
use agnx.Scheduler.Service.Timers.{not_of, waiting_for}
use agnx.Scheduler.Service.Ownership.{Owns, set_timer-Owns, run_turn-Owns}
use agnx.Scheduler.Execution.{
  execute_schedule, finish_run, fire, still_active, decimal_u8, error_message, max_attempts,
}
use agnx.Scheduler.Execution.Runs.{execute-cancelled, execute-finished}
use agnx.Scheduler.Execution.Timers.{fire-Owns, finish_run-Reschedules, finish_run-failed}

-- A library that parses no cron expression and adds seconds without bounds.
abbrev no_cron : TimeLibrary
no_cron = record {
  next_cron = λ expr. none;
  plus_seconds = λ base s. elim s [ pos n ↦ base + n * 1000 | negsuc n ↦ base - (n + 1) * 1000 ];
}

no_cron-IsExact : IsExact no_cron 8210266876799999
no_cron-IsExact = record { max_time-lt = omega arith; adds = λ base s h. refl }

-- Every minute, with two retries.
abbrev watch : Schedule
watch = record {
  id = "watch";
  agent = "ops";
  created_by_session = "s1";
  destination = record { gateway = "telegram"; chat_id = "7" };
  timing = every 60 none;
  payload = task "check the queue";
  created_at = 0;
  status = active;
  retry = some (record { max_retries = 2; initial_delay_ms = 1000; max_delay_ms = 30000 });
  process_handle = none;
}

abbrev reminder : Schedule
reminder = record watch { id = "reminder"; timing = at 5000 }

abbrev no_schedules : ScheduleCache
no_schedules = record { schedules = []; states = []; disk = []; outcomes = [] }

abbrev two_schedules : ScheduleCache
two_schedules = record {
  schedules = ("watch", watch) ∷ ("reminder", reminder) ∷ [];
  states = ("watch", default_state) ∷ ("reminder", default_state) ∷ [];
  disk = ("watch", watch) ∷ ("reminder", reminder) ∷ [];
  outcomes = [];
}

abbrev idle : SchedulerService
idle = record {
  cache = two_schedules;
  timers = [];
  waiting = [];
  next_task = 0;
  commands = [];
  running = true;
  run_log = [];
}

idle-Owns : Owns idle
unfolding lookup_entry
idle-Owns = record {
  owned = tt;
  single = λ id. omega arith;
  fresh = λ id n h. absurd (ground (arith, h));
  distinct = λ i j n h h'. absurd (ground (arith, h));
}

abbrev fails : ℕ → Result Unit SchedulerError
fails k = err (execution_failed "no model")

abbrev second_works : ℕ → Result Unit SchedulerError
second_works k = if k == 1 then ok tt else fails k

abbrev keeps : ℕ → SchedulerService → SchedulerService
keeps k s = s

-- A minute is aligned to the anchor, and a time in the past is none.
aligned : calculate_next_run no_cron 100000 (every 60 (some 5000)) none ≡ some 125000
unfolding calculate_next_run next_aligned seconds_to_next as_i64
aligned = refl

-- An interval that is past an `i64` is negative, and the next run lies before the time asked about.
into_the_past : calculate_next_run no_cron 100000 (every (2 ^ 64 - 1) none) none ≡ some 99000
unfolding calculate_next_run next_aligned seconds_to_next as_i64
into_the_past = refl

in_the_past : validate_timing no_cron 6000 (at 5000) ≡ err past_timestamp
unfolding validate_timing
in_the_past = refl

doubled :
    map
      (capped_delay (record { max_retries = 9; initial_delay_ms = 1000; max_delay_ms = 5000 }))
      (0 ∷ 1 ∷ 2 ∷ 3 ∷ [])
    ≡ 1000 ∷ 2000 ∷ 4000 ∷ 5000 ∷ []
unfolding capped_delay
doubled = refl

digits : map decimal_u8 (7 ∷ 42 ∷ 105 ∷ []) ≡ "7" ∷ "42" ∷ "105" ∷ []
unfolding decimal_u8
digits = refl

after_three : error_message (fails 0) 3 ≡ some "execution failed: no model (after 3 attempts)"
unfolding error_message
after_three = refl

-- With the most retries that a `u8` can say, no attempt is allowed.
no_attempt :
    max_attempts (some (record { max_retries = 255; initial_delay_ms = 1; max_delay_ms = 1 })) ≡ 0
no_attempt = refl

no_schedules-IsKept : IsKept no_schedules
unfolding lookup_entry
no_schedules-IsKept = record {
  keyed = λ id s h. absurd (ground (arith, h));
  tracked = λ id s h. absurd (ground (arith, h));
}

every_minute : validate_timing no_cron 100000 (every 60 (some 5000)) ≡ ok tt
unfolding validate_timing
every_minute = refl

every_minute_now : validate_timing no_cron 60000 (every 60 none) ≡ ok tt
unfolding validate_timing
every_minute_now = refl

watch_found : lookup_entry "watch" idle.cache.schedules ≡ some watch
unfolding lookup_entry
watch_found = refl

reminder_once : is_one_shot reminder ≡ true
unfolding is_one_shot
reminder_once = refl

watch_repeats : is_recurring watch ≡ true
unfolding is_recurring
watch_repeats = refl

apply_changes-Agrees_example :
    IsKept (
      apply_changes
        (creates watch ∷ sets_status "watch" cancelled ∷ deletes "watch" ∷ [])
        no_schedules)
    × Agrees (
        apply_changes
          (creates watch ∷ sets_status "watch" cancelled ∷ deletes "watch" ∷ [])
          no_schedules)
apply_changes-Agrees_example =
    apply_changes-Agrees (creates watch ∷ sets_status "watch" cancelled ∷ deletes "watch" ∷ [])
      no_schedules refl no_schedules-IsKept (λ id. refl)

calculate_next_run-later_example :
    (t : ℕ) × (n : ℕ) × (calculate_next_run no_cron 100000 (every 60 (some 5000)) none ≡ some t)
    × (t ≡ 5000 + (n + 1) * 60 * 1000)
    × (100000 < t)
    × (t ≤ 100000 + 60 * 1000)
calculate_next_run-later_example =
    calculate_next_run-later no_cron 8210266876799999 no_cron-IsExact 100000 60 (some 5000) none
      every_minute (omega arith)

execute-cancelled_example :
    execute_schedule no_cron fails keeps keeps 60000 5 "watch"
      (cancel_schedule "watch" "ops" idle).1
    ≡ (cancel_schedule "watch" "ops" idle).1
execute-cancelled_example =
    execute-cancelled no_cron fails keeps keeps 60000 5 "watch" "ops" watch idle watch_found refl

execute-finished_example :
    execute_schedule no_cron fails keeps keeps 9000 5 "reminder"
      (finish_run no_cron 5000 5 "reminder" reminder (ok tt) 1 idle)
    ≡ finish_run no_cron 5000 5 "reminder" reminder (ok tt) 1 idle
execute-finished_example =
    execute-finished no_cron fails keeps keeps 5000 5 9000 5 1 "reminder" reminder (ok tt) idle
      reminder_once

fire-Owns_example : Owns (
    fire no_cron second_works
      (run_turn no_cron)
      keeps
      60000
      5
      (record { task_id = 0; schedule_id = "watch"; deadline = 60000 })
      (set_timer "watch" 60000 idle))
fire-Owns_example =
    fire-Owns no_cron second_works (run_turn no_cron) keeps (run_turn-Owns no_cron) (λ k s o. o)
      60000 5 (record { task_id = 0; schedule_id = "watch"; deadline = 60000 })
      (set_timer "watch" 60000 idle) (set_timer-Owns "watch" 60000 idle idle-Owns)

finish_run-Reschedules_example :
    (t : Timer) × ((finish_run no_cron 60000 5 "watch" watch
        (ok tt)
        1
        (set_timer "reminder" 90000 idle)).waiting
      ≡ t ∷ retain (not_of "watch") (set_timer "reminder" 90000 idle).waiting)
    × (t.schedule_id ≡ "watch")
    × (60000 < t.deadline)
    × (waiting_for "watch"
          (finish_run no_cron 60000 5 "watch" watch
            (ok tt)
            1
            (set_timer "reminder" 90000 idle)).waiting
        ≡ 1)
finish_run-Reschedules_example =
    finish_run-Reschedules no_cron 8210266876799999 no_cron-IsExact 60000 5 1 60 none "watch" watch
      (set_timer "reminder" 90000 idle) (set_timer-Owns "reminder" 90000 idle idle-Owns) refl
      every_minute_now (omega arith)

finish_run-failed_example :
    (still_active "watch" (finish_run no_cron 60000 5 "watch" watch (err past_timestamp) 3 idle)
      ≡ still_active "watch" idle)
    × ((finish_run no_cron 60000 5 "watch" watch (err past_timestamp) 3 idle).waiting ≡ [])
    × (st : ScheduleState) × (lookup_entry "watch"
          (finish_run no_cron 60000 5 "watch" watch (err past_timestamp) 3 idle).cache.states
        ≡ some st)
    × (st.next_run_at ≡ none)
finish_run-failed_example =
    finish_run-failed no_cron 60000 5 3 "watch" watch past_timestamp idle watch_repeats
