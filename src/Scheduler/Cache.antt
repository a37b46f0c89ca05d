-- ===== src/Scheduler/Cache.antt =====
-- The cache of schedules over their store: crates/duragent/src/scheduler/schedule_cache.rs.
-- Each operation is taken as a whole. `outcomes` says which of the store's next calls succeed, and
-- `disk` is what the store holds; a call that fails changes nothing there.
pub mod Agreement
pub mod Sequences
use agnx.Common.{
  String, Bool, true, ◌&&◌, Option, none, some, List, [], ◌∷◌, Result, ok, err, retain, map, str_eq,
  if◌then◌else◌,
}
use agnx.Common.Entries.{insert, lookup_entry, remove_entry}
use agnx.Scheduler.{
  Schedule, ScheduleState, ScheduleStatus, SchedulerError, not_found, storage, default_state,
  is_active,
}

pub record ScheduleCache : Type 0 where
  pub schedules : List (String × Schedule)
  pub states : List (String × ScheduleState)
  pub disk : List (String × Schedule)
  pub outcomes : List Bool

abbrev pub Exec : Type 0 → Type 0
Exec A = ScheduleCache → Result A SchedulerError × ScheduleCache

-- Whether the store's next call succeeds.
abbrev pub next_outcome : List Bool → Bool
next_outcome [] = true
next_outcome (o ∷ os) = o

abbrev pub later_outcomes : List Bool → List Bool
later_outcomes [] = []
later_outcomes (o ∷ os) = os

-- A call of the store that makes `d` of the disk.
unfoldable pub store_call : List (String × Schedule) → Exec Unit
store_call d c =
    if next_outcome c.outcomes
    then (ok tt, record c { disk = d; outcomes = later_outcomes c.outcomes })
    else (err (storage "storage error"), record c { outcomes = later_outcomes c.outcomes })

abbrev pub save : Schedule → Exec Unit
save s c = store_call (insert s.id s c.disk) c

abbrev pub add : Schedule → ScheduleCache → ScheduleCache
add s c = record c {
  schedules = insert s.id s c.schedules;
  states = insert s.id default_state c.states;
}

-- The step behind a call of the store, if it succeeded.
abbrev pub when_saved :
    (ScheduleCache → ScheduleCache)
    → Result Unit SchedulerError × ScheduleCache
    → Result Unit SchedulerError × ScheduleCache
when_saved f (ok x, c) = (ok x, f c)
when_saved f (err e, c) = (err e, c)

unfoldable pub load_all : List (String × Schedule) → ScheduleCache → ScheduleCache
load_all [] c = c
load_all ((k, s) ∷ rest) c = load_all rest (add s c)

unfoldable pub load : Exec Unit
unfolding store_call
load c = when_saved (load_all c.disk) (store_call c.disk c)

unfoldable pub create : Schedule → Exec Unit
unfolding store_call
create s c = when_saved (add s) (save s c)

unfoldable pub get : String → ScheduleCache → Option Schedule
get id c = lookup_entry id c.schedules

unfoldable pub get_state : String → ScheduleCache → Option ScheduleState
get_state id c = lookup_entry id c.states

unfoldable pub update_state : String → ScheduleState → ScheduleCache → ScheduleCache
update_state id state c = record c { states = insert id state c.states }

abbrev or_default : Option ScheduleState → ScheduleState
or_default (some s) = s
or_default none = default_state

unfoldable pub update_state_atomically :
    String → (ScheduleState → ScheduleState) → ScheduleCache → ScheduleCache
update_state_atomically id f c = record c {
  states = insert id (f (or_default (lookup_entry id c.states))) c.states;
}

unfoldable pub list_active : ScheduleCache → List Schedule
list_active c = retain (λ (s : Schedule). is_active s.status) (map (λ e. e.1) c.schedules)

unfoldable pub list_by_agent : String → ScheduleCache → List Schedule
list_by_agent agent c =
    retain (λ (s : Schedule). str_eq s.agent agent && is_active s.status)
      (map (λ e. e.1) c.schedules)

-- `update_status` for the schedule that was found: the cache is changed before the store.
unfoldable pub update_found : String → ScheduleStatus → Option Schedule → Exec Unit
unfolding store_call
update_found id status none c = (err (not_found id), c)
update_found id status (some s) c =
    let s' : Schedule = record s { status = status } in
    save s' (record c { schedules = insert id s' c.schedules })

unfoldable pub update_status : String → ScheduleStatus → Exec Unit
unfolding update_found
update_status id status c = update_found id status (lookup_entry id c.schedules) c

unfoldable pub delete : String → Exec Unit
unfolding store_call
delete id c =
    store_call (remove_entry id c.disk)
      (record c { schedules = remove_entry id c.schedules; states = remove_entry id c.states })
