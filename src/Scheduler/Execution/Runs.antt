-- ===== src/Scheduler/Execution/Runs.antt =====
-- When a schedule runs again, crates/duragent/src/scheduler/service.rs.
use agnx.Common.Entries.{insert, lookup_entry, lookup-insert}
use agnx.Common.{
  if_both, ok, err, refl, ℕ, String, ◌≡◌, true, false, Option, none, some, List, arith, str_eq,
  eq_iff, Result,
}
use agnx.Scheduler.Timing.{TimeLibrary}
use agnx.Scheduler.{
  cancelled, completed, Schedule, SchedulerError, ScheduleStatus, is_active, is_one_shot,
}
use agnx.Scheduler.Cache.{ScheduleCache, store_call, update_found, update_status}
use agnx.Scheduler.Service.{
  and_send, cancel_command, on_cache, SchedulerCommand, SchedulerService, cancel_schedule,
  cancel_found, send_command,
}
use agnx.Scheduler.Execution.{
  log_run, still_active, is_found_active, execute_found, execute_schedule, finish_run,
}

store_call-schedules :
    (d : List (String × Schedule)) (c : ScheduleCache) → (store_call d c).1.schedules ≡ c.schedules
unfolding store_call
store_call-schedules d c = ground arith

update_found-inactive :
    (id : String) (status : ScheduleStatus) (found : Option Schedule) (c : ScheduleCache)
    → is_active status ≡ false
    → lookup_entry id c.schedules ≡ found
    → is_found_active (lookup_entry id (update_found id status found c).1.schedules) ≡ false
unfolding update_found
update_found-inactive id status none c a e = rw e refl
update_found-inactive id status (some x) c a e =
    let x' : Schedule = record x { status = status } in
    rw
      (
        store_call-schedules (insert x'.id x' c.disk)
            (record c { schedules = insert id x' c.schedules }),
        lookup-insert id id x' c.schedules,
      )
      (ground (arith, a, eq_iff id id))

-- Whatever the store does, the schedule is not active in the cache afterwards.
update_status-inactive :
    (id : String) (status : ScheduleStatus) (c : ScheduleCache)
    → is_active status ≡ false
    → is_found_active (lookup_entry id (update_status id status c).1.schedules) ≡ false
unfolding update_status
update_status-inactive id status c a = update_found-inactive id status _ c a refl

and_send-cache :
    (x : SchedulerCommand) (r : Result Unit SchedulerError) (s : SchedulerService)
    → (and_send x (r, s)).1.cache ≡ s.cache
unfolding send_command
and_send-cache x (ok u) s =
    if_both (λ (t : SchedulerService). t.cache ≡ s.cache) s.running refl refl
and_send-cache x (err e) s = refl

cancelled-inactive :
    (id agent : String) (x : Schedule) (s : SchedulerService)
    → str_eq x.agent agent ≡ true
    → still_active id (cancel_found id agent (some x) s).1 ≡ false
unfolding cancel_found send_command
cancelled-inactive id agent x s e =
    rw (e, and_send-cache (cancel_command id) _ (on_cache (update_status id cancelled) s).1)
      (update_status-inactive id cancelled s.cache refl)

module _ (time : TimeLibrary) (outcome : ℕ → Result Unit SchedulerError)
    (waits runs : ℕ → SchedulerService → SchedulerService) where
  found-skips :
      (start duration : ℕ) (id : String) (found : Option Schedule) (s : SchedulerService)
      → is_found_active found ≡ false
      → execute_found time outcome waits runs start duration id found s ≡ s
  unfolding execute_found
  found-skips start duration id none s e = refl
  found-skips start duration id (some x) s e = rw e refl

  inactive-skips :
      (start duration : ℕ) (id : String) (s : SchedulerService)
      → still_active id s ≡ false
      → execute_schedule time outcome waits runs start duration id s ≡ s
  unfolding execute_schedule
  inactive-skips start duration id s e = found-skips start duration id _ s e

  -- If the agent of a schedule cancels it, a later run of it does nothing, also if the store fails.
  pub execute-cancelled :
      (start duration : ℕ) (id agent : String) (x : Schedule) (s : SchedulerService)
      → lookup_entry id s.cache.schedules ≡ some x
      → str_eq x.agent agent ≡ true
      → execute_schedule time outcome waits runs start duration id (cancel_schedule id agent s).1
        ≡ (cancel_schedule id agent s).1
  unfolding cancel_schedule
  execute-cancelled start duration id agent x s h e =
      rw h (inactive-skips start duration id _ (cancelled-inactive id agent x s e))

  finished-inactive :
      (start duration made : ℕ) (id : String) (x : Schedule) (result : Result Unit SchedulerError)
      (s : SchedulerService)
      → is_one_shot x ≡ true
      → still_active id (finish_run time start duration id x result made s) ≡ false
  unfolding finish_run
  finished-inactive start duration made id x result s o =
      let s' : SchedulerService = log_run time start duration id x result made s in
      rw o (update_status-inactive id completed s'.cache refl)

  -- A schedule for one time is run once: when its run has ended, well or not, and whatever the store
  -- does, a second one does nothing.
  pub execute-finished :
      (start duration start' duration' made : ℕ) (id : String) (x : Schedule)
      (result : Result Unit SchedulerError) (s : SchedulerService)
      → is_one_shot x ≡ true
      → execute_schedule time outcome waits runs start' duration' id
          (finish_run time start duration id x result made s)
        ≡ finish_run time start duration id x result made s
  unfolding finish_run
  execute-finished start duration start' duration' made id x result s o =
      inactive-skips start' duration' id _ (finished-inactive start duration made id x result s o)
