-- ===== src/Scheduler/Service.antt =====
-- The service of crates/duragent/src/scheduler/service.rs: its handle, its timers and its commands.
-- A timer is a task that sleeps. `timers` has, for a schedule, the task that its cancel sender belongs
-- to: to drop or to use a sender ends its task, if the task still sleeps. `commands` is the channel,
-- `run_log` what was handed to the log. `now` is the time of the clock.
pub mod Timers
pub mod Ownership
use agnx.Common.{
  ℕ, suc, ◌+◌, ◌*◌, String, Bool, true, false, not, Option, none, some, List, [], ◌∷◌, ◌++◌, str_eq,
  ltb, ◌==◌, if◌then◌else◌, Result, ok, err, retain,
}
use agnx.Common.Entries.{insert, lookup_entry, remove_entry}
use agnx.Scheduler.{
  Schedule, ScheduleState, RunLogEntry, SchedulerError, not_found, not_authorized, cancelled, error,
}
use agnx.Scheduler.Cache.{
  ScheduleCache, Exec, update_status, create, load, list_active, list_by_agent,
  update_state_atomically,
}
use agnx.Scheduler.Timing.{TimeLibrary, validate_timing, calculate_next_run}

pub data SchedulerCommand : Type 0 where
  add_schedule : Schedule → SchedulerCommand
  cancel_command : String → SchedulerCommand
  shutdown_command : SchedulerCommand

-- A task that sleeps until its deadline.
pub record Timer : Type 0 where
  pub task_id : ℕ
  pub schedule_id : String
  pub deadline : ℕ

pub record SchedulerService : Type 0 where
  pub cache : ScheduleCache
  pub timers : List (String × ℕ)
  pub waiting : List Timer
  pub next_task : ℕ
  pub commands : List SchedulerCommand
  pub running : Bool
  pub run_log : List (String × RunLogEntry)

-- To drop a sender.
unfoldable pub drop_sender : Option ℕ → List Timer → List Timer
drop_sender none ts = ts
drop_sender (some n) ts = retain (λ (t : Timer). not (t.task_id == n)) ts

-- `timers.insert(id, cancel_tx)` and the `spawn` of the task with `cancel_rx`.
unfoldable pub set_timer : String → ℕ → SchedulerService → SchedulerService
unfolding drop_sender
set_timer id deadline s =
    let t : Timer = record { task_id = s.next_task; schedule_id = id; deadline = deadline } in
    record s {
      timers = insert id s.next_task s.timers;
      waiting = t ∷ drop_sender (lookup_entry id s.timers) s.waiting;
      next_task = suc s.next_task;
    }

unfoldable pub cancel_timer : String → SchedulerService → SchedulerService
unfolding drop_sender
cancel_timer id s = record s {
  timers = remove_entry id s.timers;
  waiting = drop_sender (lookup_entry id s.timers) s.waiting;
}

abbrev pub drain_timers : List (String × ℕ) → List Timer → List Timer
drain_timers [] ts = ts
drain_timers ((id, n) ∷ rest) ts = drain_timers rest (drop_sender (some n) ts)

-- `command_tx.send(..)`: a closed channel takes nothing.
unfoldable pub send_command : SchedulerCommand → SchedulerService → SchedulerService
send_command x s = if s.running then record s { commands = s.commands ++ x ∷ [] } else s

abbrev pub on_cache :
    {A : Type 0} → Exec A → SchedulerService → Result A SchedulerError × SchedulerService
on_cache f s = let (r, c) = f s.cache in (r, record s { cache = c })

abbrev pub and_send :
    SchedulerCommand
    → Result Unit SchedulerError × SchedulerService
    → Result Unit SchedulerError × SchedulerService
and_send x (ok u, s) = (ok tt, send_command x s)
and_send x (err e, s) = (err e, s)

-- `cancel_schedule` for what the cache has under the id.
unfoldable pub cancel_found :
    String
    → String
    → Option Schedule
    → SchedulerService
    → Result Unit SchedulerError × SchedulerService
unfolding send_command update_status
cancel_found id agent none s = (err (not_found id), s)
cancel_found id agent (some schedule) s =
    if not (str_eq schedule.agent agent)
    then (err (not_authorized schedule.agent), s)
    else and_send (cancel_command id) (on_cache (update_status id cancelled) s)

unfoldable pub cancel_schedule :
    String → String → SchedulerService → Result Unit SchedulerError × SchedulerService
unfolding cancel_found
cancel_schedule id agent s = cancel_found id agent (lookup_entry id s.cache.schedules) s

unfoldable pub list_schedules : String → SchedulerService → List Schedule
unfolding list_by_agent
list_schedules agent s = list_by_agent agent s.cache

abbrev pub is_linked : String → Option String → Bool
is_linked handle none = false
is_linked handle (some h) = str_eq h handle

abbrev pub cancel_linked : String → String → List Schedule → SchedulerService → SchedulerService
cancel_linked handle agent [] s = s
cancel_linked handle agent (x ∷ xs) s =
    cancel_linked handle agent xs
      (if is_linked handle x.process_handle then (cancel_schedule x.id agent s).1 else s)

unfoldable pub cancel_by_process_handle : String → String → SchedulerService → SchedulerService
unfolding cancel_schedule list_by_agent
cancel_by_process_handle handle agent s = cancel_linked handle agent (list_by_agent agent s.cache) s

-- `SchedulerHandle::shutdown`
unfoldable pub shutdown : SchedulerService → SchedulerService
unfolding send_command
shutdown s = send_command shutdown_command s

-- `STUCK_RUN_TIMEOUT_SECS`
abbrev pub stuck_run_timeout_secs : ℕ
stuck_run_timeout_secs = 7200

abbrev pub is_stuck : ℕ → ScheduleState → Bool
is_stuck now state = elim state.running_since [
  | none ↦ false
  | some t ↦ ltb (t + stuck_run_timeout_secs * 1000) now
]

abbrev pub stuck_entry : ℕ → RunLogEntry
stuck_entry now = record {
  ts = now;
  status = error;
  duration_ms = none;
  error = some "Run stuck (timeout)";
  next_run_at = none;
}

unfoldable pub clear_stuck : ℕ → String → Option ScheduleState → SchedulerService → SchedulerService
unfolding update_state_atomically
clear_stuck now id none s = s
clear_stuck now id (some state) s =
    if is_stuck now state
    then record s {
      cache =
          update_state_atomically id
            (λ st. record st {
              running_since = none;
              last_status = some error;
              last_error = some "Run stuck (timeout)";
            })
            s.cache;
      run_log = s.run_log ++ (id, stuck_entry now) ∷ [];
    }
    else s

abbrev pub clear_each : ℕ → List Schedule → SchedulerService → SchedulerService
clear_each now [] s = s
clear_each now (x ∷ xs) s =
    clear_each now xs (clear_stuck now x.id (lookup_entry x.id s.cache.states) s)

unfoldable pub clear_stuck_runs : ℕ → SchedulerService → SchedulerService
unfolding clear_stuck list_active
clear_stuck_runs now s = clear_each now (list_active s.cache) s

abbrev pub start_at : String → Option ℕ → SchedulerService → SchedulerService
start_at id none s = s
start_at id (some next_run) s = set_timer id next_run (record s {
  cache = update_state_atomically id (λ st. record st { next_run_at = some next_run }) s.cache;
})

module _ (time : TimeLibrary) where
  abbrev pub after_valid :
      Schedule
      → Result Unit SchedulerError
      → SchedulerService
      → Result Unit SchedulerError × SchedulerService
  after_valid schedule (err e) s = (err e, s)
  after_valid schedule (ok u) s = and_send (add_schedule schedule) (on_cache (create schedule) s)

  -- The result has the id no more: it is the id of the schedule.
  unfoldable pub create_schedule :
      ℕ → Schedule → SchedulerService → Result Unit SchedulerError × SchedulerService
  unfolding validate_timing create send_command
  create_schedule now schedule s = after_valid schedule (validate_timing time now schedule.timing) s

  unfoldable pub start_timer : ℕ → Schedule → SchedulerService → SchedulerService
  unfolding calculate_next_run set_timer update_state_atomically
  start_timer now schedule s =
      start_at schedule.id (calculate_next_run time now schedule.timing none) s

  abbrev pub start_timers : ℕ → List Schedule → SchedulerService → SchedulerService
  start_timers now [] s = s
  start_timers now (x ∷ xs) s = start_timers now xs (start_timer now x s)

  -- Before the loop of commands.
  unfoldable pub start : ℕ → SchedulerService → SchedulerService
  unfolding start_timer load clear_stuck_runs list_active
  start now s =
      let s1 : SchedulerService = (on_cache load s).1 in
      let s2 : SchedulerService = start_timers now (list_active s1.cache) s1 in
      record (clear_stuck_runs now s2) { running = true }

  -- One command of the loop.
  unfoldable pub run_command : ℕ → SchedulerCommand → SchedulerService → SchedulerService
  unfolding start_timer cancel_timer drop_sender
  run_command now (add_schedule schedule) s = start_timer now schedule s
  run_command now (cancel_command id) s = cancel_timer id s
  run_command now shutdown_command s = record s {
    timers = [];
    waiting = drain_timers s.timers s.waiting;
    running = false;
  }

  abbrev pub take_command : ℕ → List SchedulerCommand → SchedulerService → SchedulerService
  take_command now [] s = s
  take_command now (x ∷ xs) s = run_command now x (record s { commands = xs })

  -- One turn of the loop: the next command, if there is one and the loop has not ended.
  unfoldable pub run_turn : ℕ → SchedulerService → SchedulerService
  unfolding run_command
  run_turn now s = if s.running then take_command now s.commands s else s
