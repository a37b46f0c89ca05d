-- ===== src/Scheduler.antt =====
-- Schedules: crates/duragent-types/src/scheduler.rs and crates/duragent/src/scheduler.
-- A time is the number of milliseconds since the epoch.
mod Tests
pub mod Timing
pub mod Cache
pub mod Service
pub mod Execution
use agnx.Common.{ℕ, String, Bool, true, false, not, Option, none}

pub record ScheduleDestination : Type 0 where
  pub gateway : String
  pub chat_id : String

pub data ScheduleTiming : Type 0 where
  at : ℕ → ScheduleTiming
  every : ℕ → Option ℕ → ScheduleTiming
  cron : String → Option String → ScheduleTiming

pub data SchedulePayload : Type 0 where
  message : String → SchedulePayload
  task : String → SchedulePayload

pub data ScheduleStatus : Type 0 where
  active completed cancelled : ScheduleStatus

pub record RetryConfig : Type 0 where
  pub max_retries : ℕ
  pub initial_delay_ms : ℕ
  pub max_delay_ms : ℕ

pub record Schedule : Type 0 where
  pub id : String
  pub agent : String
  pub created_by_session : String
  pub destination : ScheduleDestination
  pub timing : ScheduleTiming
  pub payload : SchedulePayload
  pub created_at : ℕ
  pub status : ScheduleStatus
  pub retry : Option RetryConfig
  pub process_handle : Option String

pub data RunStatus : Type 0 where
  ok error skipped : RunStatus

pub record ScheduleState : Type 0 where
  pub next_run_at : Option ℕ
  pub running_since : Option ℕ
  pub last_run_at : Option ℕ
  pub last_status : Option RunStatus
  pub last_error : Option String
  pub last_duration_ms : Option ℕ

pub record RunLogEntry : Type 0 where
  pub ts : ℕ
  pub status : RunStatus
  pub duration_ms : Option ℕ
  pub error : Option String
  pub next_run_at : Option ℕ

pub data SchedulerError : Type 0 where
  not_found : String → SchedulerError
  invalid_schedule : String → SchedulerError
  invalid_cron : String → SchedulerError
  past_timestamp : SchedulerError
  storage : String → SchedulerError
  execution_failed : String → SchedulerError
  gateway_unavailable : String → SchedulerError
  agent_not_found : String → SchedulerError
  not_authorized : String → SchedulerError
  io : String → SchedulerError

unfoldable pub is_one_shot : Schedule → Bool
is_one_shot s = elim s.timing [ at _ ↦ true | _ ↦ false ]

unfoldable pub is_recurring : Schedule → Bool
unfolding is_one_shot
is_recurring s = not (is_one_shot s)

-- `status == ScheduleStatus::Active`
abbrev pub is_active : ScheduleStatus → Bool
is_active active = true
is_active completed = false
is_active cancelled = false

-- `ScheduleState::default()`
abbrev pub default_state : ScheduleState
default_state = record {
  next_run_at = none;
  running_since = none;
  last_run_at = none;
  last_status = none;
  last_error = none;
  last_duration_ms = none;
}
