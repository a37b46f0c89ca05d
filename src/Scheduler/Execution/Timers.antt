-- ===== src/Scheduler/Execution/Timers.antt =====
-- What a run does to the timers, crates/duragent/src/scheduler/service.rs.
use agnx.Scheduler.Timing.{TimeLibrary}
use agnx.Scheduler.Timing.Intervals.{IsExact, or_time, calculate_next_run-later}
use agnx.Common.Entries.{insert, lookup-insert, lookup_entry}
use agnx.Common.{
  ◌≤◌, ◌*◌, ◌+◌, max, eq_iff, List, true, ◌==◌, Bool, err, Bool-cases, inl, inr, not, ◌&&◌, false,
  arith, ◌∙◌, refl, ℕ, zero, suc, ◌<◌, String, ◌≡◌, Option, none, some, ◌∷◌, if◌then◌else◌, Result,
  ok, retain, if_both,
}
use agnx.Scheduler.{
  error, ScheduleState, execution_failed, is_active, is_one_shot, is_recurring, Schedule,
  SchedulerError, RetryConfig, every,
}
use agnx.Scheduler.Timing.{calculate_next_run, validate_timing}
use agnx.Scheduler.Cache.{update_state}
use agnx.Scheduler.Service.{set_timer, SchedulerService, Timer}
use agnx.Scheduler.Service.Timers.{
  waiting_for-not_of, not_of, retain-IsOwned, drop_sender-lookup, remove-IsOwned, waiting_for,
}
use agnx.Scheduler.Service.Ownership.{Owns, set_timer-Owns}
use agnx.Scheduler.Execution.{
  error_message, execute_active, still_active, Attempted, stopped, ended, waits_before, is_ok,
  run_attempts, finish_run, reschedule, complete, next_run, log_run, end_run, execute_found,
  execute_schedule, mark_running, fire, max_attempts,
}

abbrev service_of : Attempted → SchedulerService
service_of (stopped s) = s
service_of (ended result made s) = s

inserted :
    {V : Type 0} (id : String) (v : V) (m : List (String × V))
    → lookup_entry id (insert id v m) ≡ some v
inserted id v m = ground (arith, lookup-insert id id v m, eq_iff id id)

module _ (time : TimeLibrary) where
  complete-Owns : (id : String) (s : SchedulerService) → Owns s → Owns (complete time id s)
  unfolding complete
  complete-Owns id s k =
      rw (drop_sender-lookup s.timers s.waiting s.next_task id k)
        (remove-IsOwned s.timers s.waiting s.next_task id k)

  reschedule-Owns :
      (id : String) (next : Option ℕ) (s : SchedulerService)
      → Owns s
      → Owns (reschedule time id next s)
  unfolding reschedule
  reschedule-Owns id none s k = k
  reschedule-Owns id (some t) s k = set_timer-Owns id t s k

  finish_run-Owns :
      (start duration made : ℕ) (id : String) (x : Schedule) (result : Result Unit SchedulerError)
      (s : SchedulerService)
      → Owns s
      → Owns (finish_run time start duration id x result made s)
  unfolding finish_run log_run
  finish_run-Owns start duration made id x result s k =
      let s' : SchedulerService = log_run time start duration id x result made s in
      if_both (λ (t : SchedulerService). Owns t) _ (complete-Owns id s' k)
        (reschedule-Owns id (next_run time start x result) s' k)

  end_run-Owns :
      (start duration : ℕ) (id : String) (x : Schedule) (a : Attempted)
      → Owns (service_of a)
      → Owns (end_run time start duration id x a)
  end_run-Owns start duration id x (stopped s) k = k
  end_run-Owns start duration id x (ended result made s) k =
      finish_run-Owns start duration made id x result s k

  one_shot-every :
      (n : ℕ) (anchor : Option ℕ) (x : Schedule) → x.timing ≡ every n anchor → is_one_shot x ≡ false
  unfolding is_one_shot
  one_shot-every n anchor x e = rw e refl

  next_run-every :
      (start n : ℕ) (anchor : Option ℕ) (x : Schedule)
      → x.timing ≡ every n anchor
      → next_run time start x (ok tt) ≡ calculate_next_run time start (every n anchor) (some start)
  unfolding next_run is_recurring
  next_run-every start n anchor x e = rw (one_shot-every n anchor x e, e) refl

  set_timer-waiting :
      (id : String) (deadline : ℕ) (s : SchedulerService)
      → Owns s
      → (set_timer id deadline s).waiting
        ≡ record { task_id = s.next_task; schedule_id = id; deadline = deadline }
          ∷ retain (not_of id) s.waiting
  unfolding set_timer
  set_timer-waiting id deadline s k =
      rw (drop_sender-lookup s.timers s.waiting s.next_task id k) refl

  finish_run-set :
      (start duration made n t : ℕ) (anchor : Option ℕ) (id : String) (x : Schedule)
      (s : SchedulerService)
      → x.timing ≡ every n anchor
      → calculate_next_run time start (every n anchor) (some start) ≡ some t
      → Owns s
      → (finish_run time start duration id x (ok tt) made s).waiting
        ≡ record { task_id = s.next_task; schedule_id = id; deadline = t }
          ∷ retain (not_of id) s.waiting
  unfolding finish_run reschedule log_run
  finish_run-set start duration made n t anchor id x s e c k =
      let s' : SchedulerService = log_run time start duration id x (ok tt) made s in
      rw (one_shot-every n anchor x e, next_run-every start n anchor x e ∙ c)
        (set_timer-waiting id t s' k)

  -- If the timers are well formed, the library's sums are exact up to a last time that fits into 63
  -- bits, and the later of the start of the run and the anchor, with one interval added, is not past it,
  -- then behind a run that went well a valid schedule with an interval has one task that sleeps for it,
  -- which is due later than the start of the run, and the tasks of other schedules stay.
  pub finish_run-Reschedules :
      (max_time : ℕ) (exact : IsExact time max_time) (start duration made every_seconds : ℕ)
      (anchor : Option ℕ) (id : String) (x : Schedule) (s : SchedulerService)
      → Owns s
      → x.timing ≡ every every_seconds anchor
      → validate_timing time start (every every_seconds anchor) ≡ ok tt
      → max start (or_time start anchor) + every_seconds * 1000 ≤ max_time
      → (t : Timer) × ((finish_run time start duration id x (ok tt) made s).waiting
          ≡ t ∷ retain (not_of id) s.waiting)
        × (t.schedule_id ≡ id)
        × (start < t.deadline)
        × (waiting_for id (finish_run time start duration id x (ok tt) made s).waiting ≡ 1)
  finish_run-Reschedules max_time exact start duration made n anchor id x s k e v fits =
      let (t, m, c, a, l, u) =
        calculate_next_run-later time max_time exact start n anchor (some start) v fits in
      let w = finish_run-set start duration made n t anchor id x s e c k in
      (_, w, refl, l, rw w (ground (arith, eq_iff id id, waiting_for-not_of id s.waiting)))

  -- Behind a run that failed, a schedule that repeats stays as active as it was, its state has no next
  -- run, and no task is set for it.
  pub finish_run-failed :
      (start duration made : ℕ) (id : String) (x : Schedule) (e : SchedulerError)
      (s : SchedulerService)
      → is_recurring x ≡ true
      → (still_active id (finish_run time start duration id x (err e) made s) ≡ still_active id s)
        × ((finish_run time start duration id x (err e) made s).waiting ≡ s.waiting)
        × (st : ScheduleState) × (lookup_entry id
              (finish_run time start duration id x (err e) made s).cache.states
            ≡ some st)
        × (st.next_run_at ≡ none)
  unfolding finish_run reschedule log_run is_recurring next_run update_state
  finish_run-failed start duration made id x e s r =
      let o : is_one_shot x ≡ false = ground (arith, r) in
      let st : ScheduleState = record {
        next_run_at = none;
        running_since = none;
        last_run_at = some start;
        last_status = some error;
        last_error = error_message (err e) made;
        last_duration_ms = some duration;
      } in
      rw o (refl, refl, st, inserted id st s.cache.states, refl)

module _ (time : TimeLibrary) (outcome : ℕ → Result Unit SchedulerError)
    (waits runs : ℕ → SchedulerService → SchedulerService)
    (waits-Owns : (k : ℕ) (s : SchedulerService) → Owns s → Owns (waits k s))
    (runs-Owns : (k : ℕ) (s : SchedulerService) → Owns s → Owns (runs k s)) where
  run_attempts-Owns :
      (left k : ℕ) (retry : Option RetryConfig) (id : String) (last : Result Unit SchedulerError)
      (s : SchedulerService)
      → Owns s
      → Owns (service_of (run_attempts outcome waits runs left k retry id last s))
  unfolding run_attempts
  run_attempts-Owns zero k retry id last s o = o
  run_attempts-Owns (suc left) k retry id last s o =
      let s1 : SchedulerService = if waits_before k retry then waits k s else s in
      let o1 : Owns s1 = if_both (λ (t : SchedulerService). Owns t) _ (waits-Owns k s o) o in
      let o2 : Owns (runs k s1) = runs-Owns k s1 o1 in
      elim (Bool-cases (waits_before k retry && not (still_active id s1))) [
        | inl w ↦ rw w o1
        | inr w ↦ elim (Bool-cases (is_ok (outcome k))) [
          | inl g ↦ rw (w, g) o2
          | inr g ↦ rw (w, g) (run_attempts-Owns left (suc k) retry id (outcome k) (runs k s1) o2)
        ]
      ]

  execute_found-Owns :
      (start duration : ℕ) (id : String) (found : Option Schedule) (s : SchedulerService)
      → Owns s
      → Owns (execute_found time outcome waits runs start duration id found s)
  unfolding execute_found execute_active mark_running
  execute_found-Owns start duration id none s o = o
  execute_found-Owns start duration id (some x) s o = elim (Bool-cases (is_active x.status)) [
    | inl e ↦ rw e (
        end_run-Owns time start duration id x
          (run_attempts outcome waits runs (max_attempts x.retry) 0 x.retry id
            (err (execution_failed "not executed")) (mark_running start id s))
          (run_attempts-Owns (max_attempts x.retry) 0 x.retry id
            (err (execution_failed "not executed")) (mark_running start id s) o))
    | inr e ↦ rw e o
  ]

  -- When a task's time has come, its run keeps the timers well formed, whatever the payload gives, if
  -- what other tasks do meanwhile keeps them.
  pub fire-Owns :
      (start duration : ℕ) (t : Timer) (s : SchedulerService)
      → Owns s
      → Owns (fire time outcome waits runs start duration t s)
  unfolding fire execute_schedule
  fire-Owns start duration t s o =
      let p : Timer → Bool = λ w. not (w.task_id == t.task_id) in
      execute_found-Owns start duration t.schedule_id (lookup_entry t.schedule_id s.cache.schedules)
        (record s { waiting = retain p s.waiting })
        (retain-IsOwned s.timers s.waiting s.next_task p o)
