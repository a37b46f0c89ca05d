-- ===== src/Scheduler/Cache/Sequences.antt =====
-- Sequences of operations on the cache of crates/duragent/src/scheduler/schedule_cache.rs.
use agnx.Common.{err, false, String, ◌≡◌, refl, Option, none, some, List, [], ◌∷◌, arith}
use agnx.Common.Entries.{lookup_entry, insert, remove_entry}
use agnx.Scheduler.{storage, Schedule, ScheduleState, ScheduleStatus}
use agnx.Scheduler.Cache.{
  next_outcome, later_outcomes, ScheduleCache, store_call, create, update_found, update_status,
  delete, update_state, update_state_atomically,
}
use agnx.Scheduler.Cache.Agreement.{
  IsKept, Agrees, create-Agrees, create-IsKept, update_status-Agrees, update_found-IsKept,
  delete-Agrees, removed-IsKept, store_call-IsKept, state-IsKept,
}

-- The operations that change the cache.
pub data Change : Type 0 where
  creates : Schedule → Change
  sets_status : String → ScheduleStatus → Change
  deletes : String → Change
  sets_state : String → ScheduleState → Change
  updates_state : String → (ScheduleState → ScheduleState) → Change

abbrev pub apply_change : Change → ScheduleCache → ScheduleCache
apply_change (creates s) c = (create s c).1
apply_change (sets_status id status) c = (update_status id status c).1
apply_change (deletes id) c = (delete id c).1
apply_change (sets_state id state) c = update_state id state c
apply_change (updates_state id f) c = update_state_atomically id f c

abbrev pub apply_changes : List Change → ScheduleCache → ScheduleCache
apply_changes [] c = c
apply_changes (x ∷ xs) c = apply_changes xs (apply_change x c)

-- The store does not fail.
abbrev Good : ScheduleCache → Type 0
Good c = (c.outcomes ≡ []) × IsKept c × Agrees c

store_call-outcomes :
    (d : List (String × Schedule)) (c : ScheduleCache)
    → c.outcomes ≡ []
    → (store_call d c).1.outcomes ≡ []
unfolding store_call
store_call-outcomes d c h = ground (arith, h)

create-outcomes :
    (s : Schedule) (c : ScheduleCache) → c.outcomes ≡ [] → (create s c).1.outcomes ≡ []
unfolding create store_call
create-outcomes s c h = ground (arith, h)

update_found-outcomes :
    (id : String) (status : ScheduleStatus) (found : Option Schedule) (c : ScheduleCache)
    → c.outcomes ≡ []
    → (update_found id status found c).1.outcomes ≡ []
unfolding update_found
update_found-outcomes id status none c h = h
update_found-outcomes id status (some s) c h =
    let s' : Schedule = record s { status = status } in
    store_call-outcomes _ (record c { schedules = insert id s' c.schedules }) h

apply_change-Good : (x : Change) (c : ScheduleCache) → Good c → Good (apply_change x c)
unfolding update_status delete update_state update_state_atomically create
apply_change-Good (creates s) c (o, k, a) =
    (create-outcomes s c o, create-IsKept s c k, create-Agrees s c a)
apply_change-Good (sets_status id status) c (o, k, a) = (
  update_found-outcomes id status _ c o,
  update_found-IsKept id status _ c refl k,
  update_status-Agrees id status c (rw o refl) k a,
)
apply_change-Good (deletes id) c (o, k, a) = (
  store_call-outcomes _
      (record c { schedules = remove_entry id c.schedules; states = remove_entry id c.states }) o,
  store_call-IsKept _ _ (removed-IsKept id c k),
  delete-Agrees id c (rw o refl) a,
)
apply_change-Good (sets_state id state) c (o, k, a) = (o, state-IsKept id state c k, a)
apply_change-Good (updates_state id f) c (o, k, a) = (o, state-IsKept id _ c k, a)

-- Changes on a cache whose store does not fail keep every schedule under its own id and with a state,
-- and keep the store the same as the cache, if both hold before.
pub apply_changes-Agrees :
    (xs : List Change) (c : ScheduleCache)
    → c.outcomes ≡ []
    → IsKept c
    → Agrees c
    → IsKept (apply_changes xs c) × Agrees (apply_changes xs c)
apply_changes-Agrees [] c o k a = (k, a)
apply_changes-Agrees (x ∷ xs) c o k a =
    let (o', k', a') = apply_change-Good x c (o, k, a) in
    apply_changes-Agrees xs (apply_change x c) o' k' a'

-- When the store fails, a change of a status and a deletion say so and leave the store as it was, but the
-- cache is changed all the same; a schedule that is created stands in neither.
pub store-fails :
    (id : String) (status : ScheduleStatus) (x y : Schedule) (c : ScheduleCache)
    → lookup_entry id c.schedules ≡ some x
    → next_outcome c.outcomes ≡ false
    → (update_status id status c ≡ (
      err (storage "storage error"),
      record c {
        schedules = insert id (record x { status = status }) c.schedules;
        outcomes = later_outcomes c.outcomes;
      },
    ))
      × (delete id c ≡ (
        err (storage "storage error"),
        record c {
          schedules = remove_entry id c.schedules;
          states = remove_entry id c.states;
          outcomes = later_outcomes c.outcomes;
        },
      ))
      × (create y c
          ≡ (err (storage "storage error"), record c { outcomes = later_outcomes c.outcomes }))
unfolding update_status update_found store_call delete create
store-fails id status x y c h e = (rw (h, e) refl, rw e refl, rw e refl)
