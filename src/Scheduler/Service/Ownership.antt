-- ===== src/Scheduler/Service/Ownership.antt =====
-- The timers under the commands of crates/duragent/src/scheduler/service.rs.
use agnx.Scheduler.Timing.{TimeLibrary}
use agnx.Scheduler.Cache.{list_active, load}
use agnx.Scheduler.{Schedule, ScheduleState}
use agnx.Common.Entries.{lookup_entry}
use agnx.Common.{
  retain, if_both, ℕ, String, ◌≡◌, Option, none, some, List, [], All, refl, inl, inr, true, not,
  ◌∷◌, arith, ◌==◌, Bool-cases,
}
use agnx.Scheduler.Service.{
  drop_sender, is_stuck, clear_stuck_runs, clear_stuck, clear_each, on_cache, start, start_timers,
  take_command, run_command, run_turn, add_schedule, cancel_command, shutdown_command,
  SchedulerCommand, start_timer, Timer, SchedulerService, drain_timers, set_timer, cancel_timer,
  start_at,
}
use agnx.Scheduler.Service.Timers.{
  not_of, waiting_for, waiting_for-not_of, HasSender, All-retain, IsOwned, drop_sender-lookup,
  insert-IsOwned, remove-IsOwned,
}

-- Of a service.
abbrev pub Owns : SchedulerService → Type 0
Owns s = IsOwned s.timers s.waiting s.next_task

pub set_timer-Owns :
    (id : String) (deadline : ℕ) (s : SchedulerService) → Owns s → Owns (set_timer id deadline s)
unfolding set_timer
set_timer-Owns id deadline s k =
    rw (drop_sender-lookup s.timers s.waiting s.next_task id k)
      (insert-IsOwned s.timers s.waiting s.next_task id deadline k)

cancel_timer-Owns : (id : String) (s : SchedulerService) → Owns s → Owns (cancel_timer id s)
unfolding cancel_timer
cancel_timer-Owns id s k =
    rw (drop_sender-lookup s.timers s.waiting s.next_task id k)
      (remove-IsOwned s.timers s.waiting s.next_task id k)

no_entry : (id : String) (n : ℕ) → lookup_entry id [] ≡ some n → ⊥
unfolding lookup_entry
no_entry id n h = ground (arith, h)

rest_has :
    (id : String) (n : ℕ) (m : List (String × ℕ)) (t : Timer)
    → not (t.task_id == n) ≡ true
    → HasSender ((id, n) ∷ m) t
    → HasSender m t
unfolding lookup_entry
rest_has id n m t e h = ground (arith, e, h)

-- The senders of the timers end every task that has one.
drained : (m : List (String × ℕ)) (ts : List Timer) → All (HasSender m) ts → drain_timers m ts ≡ []
unfolding drop_sender lookup_entry
drained [] [] h = refl
drained [] (t ∷ ts) (h, hs) = absurd (ground (arith, h))
drained ((id, n) ∷ m) ts h = drained m _ (All-retain _ ts (λ t e x. rest_has id n m t e x) h)

start_at-Owns :
    (id : String) (next : Option ℕ) (s : SchedulerService) → Owns s → Owns (start_at id next s)
unfolding set_timer
start_at-Owns id none s k = k
start_at-Owns id (some t) s k = set_timer-Owns id t s k

clear_stuck-Owns :
    (now : ℕ) (id : String) (found : Option ScheduleState) (s : SchedulerService)
    → Owns s
    → Owns (clear_stuck now id found s)
unfolding clear_stuck
clear_stuck-Owns now id none s k = k
clear_stuck-Owns now id (some st) s k = elim (Bool-cases (is_stuck now st)) [
  | inl e ↦ rw e k
  | inr e ↦ rw e k
]

clear_each-Owns :
    (now : ℕ) (xs : List Schedule) (s : SchedulerService) → Owns s → Owns (clear_each now xs s)
clear_each-Owns now [] s k = k
clear_each-Owns now (x ∷ xs) s k =
    clear_each-Owns now xs (clear_stuck now x.id (lookup_entry x.id s.cache.states) s)
      (clear_stuck-Owns now x.id _ s k)

module _ (time : TimeLibrary) where
  start_timer-Owns :
      (now : ℕ) (x : Schedule) (s : SchedulerService) → Owns s → Owns (start_timer time now x s)
  unfolding start_timer
  start_timer-Owns now x s k = start_at-Owns x.id _ s k

  start_timers-Owns :
      (now : ℕ) (xs : List Schedule) (s : SchedulerService)
      → Owns s
      → Owns (start_timers time now xs s)
  start_timers-Owns now [] s k = k
  start_timers-Owns now (x ∷ xs) s k =
      start_timers-Owns now xs (start_timer time now x s) (start_timer-Owns now x s k)

  -- A start of the service keeps its timers well formed, if they were.
  pub start-Owns : (now : ℕ) (s : SchedulerService) → Owns s → Owns (start time now s)
  unfolding start clear_stuck_runs
  start-Owns now s k =
      let s1 : SchedulerService = (on_cache load s).1 in
      let s2 : SchedulerService = start_timers time now (list_active s1.cache) s1 in
      clear_each-Owns now (list_active s2.cache) s2
        (start_timers-Owns now (list_active s1.cache) s1 k)

  run_command-Owns :
      (now : ℕ) (x : SchedulerCommand) (s : SchedulerService)
      → Owns s
      → Owns (run_command time now x s)
  unfolding run_command
  run_command-Owns now (add_schedule x) s k = start_timer-Owns now x s k
  run_command-Owns now (cancel_command id) s k = cancel_timer-Owns id s k
  run_command-Owns now shutdown_command s k = rw (drained s.timers s.waiting k.owned) (record {
    owned = tt;
    single = λ id. omega arith;
    fresh = λ id n h. absurd (no_entry id n h);
    distinct = λ i j n h h'. absurd (no_entry i n h);
  })

  -- A turn of the loop keeps the timers well formed.
  pub run_turn-Owns : (now : ℕ) (s : SchedulerService) → Owns s → Owns (run_turn time now s)
  unfolding run_turn
  run_turn-Owns now s k = if_both (λ (x : SchedulerService). Owns x) s.running (taken s.commands) k
    where
      taken : (xs : List SchedulerCommand) → Owns (take_command time now xs s)
      taken [] = k
      taken (x ∷ xs) = run_command-Owns now x (record s { commands = xs }) k

  -- A cancel command ends the task that sleeps for the schedule and no other one, and a shutdown command
  -- ends all of them, if the timers are well formed.
  pub run_command-Ends :
      (now : ℕ) (id : String) (s : SchedulerService)
      → Owns s
      → ((run_command time now (cancel_command id) s).waiting ≡ retain (not_of id) s.waiting)
        × (waiting_for id (run_command time now (cancel_command id) s).waiting ≡ 0)
        × ((run_command time now shutdown_command s).waiting ≡ [])
  unfolding run_command cancel_timer
  run_command-Ends now id s k =
      let d = drop_sender-lookup s.timers s.waiting s.next_task id k in
      (d, rw d (waiting_for-not_of id s.waiting), drained s.timers s.waiting k.owned)
