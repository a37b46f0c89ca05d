-- ===== src/Scheduler/Cache/Agreement.antt =====
-- The cache of crates/duragent/src/scheduler/schedule_cache.rs beside what its store holds.
use agnx.Common.{
  String, some, List, str_eq, eq_iff, ◌≡◌, refl, arith, Bool-cases, inl, inr, sym, subst, true,
  Option, none,
}
use agnx.Common.Entries.{remove_entry, lookup-remove, insert, lookup_entry, lookup-insert}
use agnx.Scheduler.{ScheduleStatus, Schedule, ScheduleState, default_state}
use agnx.Scheduler.Cache.{
  update_found, update_status, delete, ScheduleCache, next_outcome, store_call, add, create,
}

-- Each schedule stands under its own id, and has a state.
pub record IsKept (c : ScheduleCache) : Type 0 where
  pub keyed : (id : String) (s : Schedule) → lookup_entry id c.schedules ≡ some s → s.id ≡ id
  pub tracked :
      (id : String) (s : Schedule)
      → lookup_entry id c.schedules ≡ some s
      → (st : ScheduleState) × (lookup_entry id c.states ≡ some st)

-- The store holds the schedules of the cache.
abbrev pub Agrees : ScheduleCache → Type 0
Agrees c = (id : String) → lookup_entry id c.schedules ≡ lookup_entry id c.disk

add-IsKept : (s : Schedule) (c : ScheduleCache) → IsKept c → IsKept (add s c)
add-IsKept s c k = record {
  keyed = λ id t h. elim (Bool-cases (str_eq s.id id)) [
    | inl e ↦
        let h' : some s ≡ some t = rw (lookup-insert s.id id s c.schedules, e) at h in
        ground (arith, h', eq_iff s.id id)
    | inr e ↦
        let h' : lookup_entry id c.schedules ≡ some t =
          rw (lookup-insert s.id id s c.schedules, e) at h in
        k.keyed id t h'
  ];
  tracked = λ id t h. elim (Bool-cases (str_eq s.id id)) [
    | inl e ↦ (default_state, rw (lookup-insert s.id id default_state c.states, e) refl)
    | inr e ↦
        let h' : lookup_entry id c.schedules ≡ some t =
          rw (lookup-insert s.id id s c.schedules, e) at h in
        let (st, t') = k.tracked id t h' in
        (st, rw (lookup-insert s.id id default_state c.states, e) t')
  ];
}

both_inserted :
    {V : Type 0} (k : String) (v : V) (a b : List (String × V))
    → ((id : String) → lookup_entry id a ≡ lookup_entry id b)
    → (id : String) → lookup_entry id (insert k v a) ≡ lookup_entry id (insert k v b)
both_inserted k v a b h id = rw (lookup-insert k id v a, lookup-insert k id v b, h id) refl

both_removed :
    {V : Type 0} (k : String) (a b : List (String × V))
    → ((id : String) → lookup_entry id a ≡ lookup_entry id b)
    → (id : String) → lookup_entry id (remove_entry k a) ≡ lookup_entry id (remove_entry k b)
both_removed k a b h id = rw (lookup-remove k id a, lookup-remove k id b, h id) refl

-- Whatever the store's call gives, a schedule is created in both places or in none.
pub create-Agrees : (s : Schedule) (c : ScheduleCache) → Agrees c → Agrees (create s c).1
unfolding create store_call
create-Agrees s c h = elim (Bool-cases (next_outcome c.outcomes)) [
  | inl e ↦ rw (e, create, store_call) (both_inserted s.id s c.schedules c.disk h)
  | inr e ↦ rw (e, create, store_call) h
]

update_found-Agrees :
    (id : String) (status : ScheduleStatus) (found : Option Schedule) (c : ScheduleCache)
    → next_outcome c.outcomes ≡ true
    → ((s : Schedule) → found ≡ some s → s.id ≡ id)
    → Agrees c
    → Agrees (update_found id status found c).1
unfolding update_found store_call
update_found-Agrees id status none c e k h = h
update_found-Agrees id status (some s) c e k h =
    let s' : Schedule = record s { status = status } in
    rw (e, update_found, store_call)
      (subst
        (λ i.
          (j : String)
          → lookup_entry j (insert id s' c.schedules) ≡ lookup_entry j (insert i s' c.disk))
        (sym (k s refl)) (both_inserted id s' c.schedules c.disk h))

pub update_status-Agrees :
    (id : String) (status : ScheduleStatus) (c : ScheduleCache)
    → next_outcome c.outcomes ≡ true
    → IsKept c
    → Agrees c
    → Agrees (update_status id status c).1
unfolding update_status
update_status-Agrees id status c e k h = update_found-Agrees id status _ c e (k.keyed id) h

pub delete-Agrees :
    (id : String) (c : ScheduleCache)
    → next_outcome c.outcomes ≡ true
    → Agrees c
    → Agrees (delete id c).1
unfolding delete store_call
delete-Agrees id c e h = rw (e, delete, store_call) (both_removed id c.schedules c.disk h)

-- The parts of a cache that an operation on the store leaves alone.
pub store_call-IsKept :
    (d : List (String × Schedule)) (c : ScheduleCache) → IsKept c → IsKept (store_call d c).1
unfolding store_call
store_call-IsKept d c k = elim (Bool-cases (next_outcome c.outcomes)) [
  | inl e ↦ rw (e, store_call) (record { keyed = k.keyed; tracked = k.tracked })
  | inr e ↦ rw (e, store_call) (record { keyed = k.keyed; tracked = k.tracked })
]

pub create-IsKept : (s : Schedule) (c : ScheduleCache) → IsKept c → IsKept (create s c).1
unfolding create store_call
create-IsKept s c k = elim (Bool-cases (next_outcome c.outcomes)) [
  | inl e ↦
      let a = add-IsKept s c k in
      rw (e, create, store_call) (record { keyed = a.keyed; tracked = a.tracked })
  | inr e ↦ rw (e, create, store_call) (record { keyed = k.keyed; tracked = k.tracked })
]

replace-IsKept :
    (id : String) (s : Schedule) (c : ScheduleCache)
    → s.id ≡ id
    → ((st : ScheduleState) × (lookup_entry id c.states ≡ some st))
    → IsKept c
    → IsKept (record c { schedules = insert id s c.schedules })
replace-IsKept id s c same has k = record {
  keyed = λ j t h. elim (Bool-cases (str_eq id j)) [
    | inl e ↦
        let h' : some s ≡ some t = rw (lookup-insert id j s c.schedules, e) at h in
        ground (arith, h', same, eq_iff id j)
    | inr e ↦
        let h' : lookup_entry j c.schedules ≡ some t =
          rw (lookup-insert id j s c.schedules, e) at h in
        k.keyed j t h'
  ];
  tracked = λ j t h. elim (Bool-cases (str_eq id j)) [
    | inl e ↦
        subst (λ i. (st : ScheduleState) × (lookup_entry i c.states ≡ some st)) ((eq_iff id j).0 e)
          has
    | inr e ↦
        let h' : lookup_entry j c.schedules ≡ some t =
          rw (lookup-insert id j s c.schedules, e) at h in
        k.tracked j t h'
  ];
}

pub update_found-IsKept :
    (id : String) (status : ScheduleStatus) (found : Option Schedule) (c : ScheduleCache)
    → lookup_entry id c.schedules ≡ found
    → IsKept c
    → IsKept (update_found id status found c).1
unfolding update_found
update_found-IsKept id status none c e k = k
update_found-IsKept id status (some s) c e k =
    let s' : Schedule = record s { status = status } in
    store_call-IsKept _ (record c { schedules = insert id s' c.schedules })
      (replace-IsKept id s' c (k.keyed id s e) (k.tracked id s e) k)

pub removed-IsKept :
    (id : String) (c : ScheduleCache)
    → IsKept c
    → IsKept
        (record c { schedules = remove_entry id c.schedules; states = remove_entry id c.states })
removed-IsKept id c k = record {
  keyed = λ j t h. elim (Bool-cases (str_eq id j)) [
    | inl e ↦
        let h' : none ≡ some t = rw (lookup-remove id j c.schedules, e) at h in
        absurd (ground (arith, h'))
    | inr e ↦ k.keyed j t (rw (lookup-remove id j c.schedules, e) at h)
  ];
  tracked = λ j t h. elim (Bool-cases (str_eq id j)) [
    | inl e ↦
        let h' : none ≡ some t = rw (lookup-remove id j c.schedules, e) at h in
        absurd (ground (arith, h'))
    | inr e ↦
        let (st, t') = k.tracked j t (rw (lookup-remove id j c.schedules, e) at h) in
        (st, rw (lookup-remove id j c.states, e) t')
  ];
}

pub state-IsKept :
    (id : String) (state : ScheduleState) (c : ScheduleCache)
    → IsKept c
    → IsKept (record c { states = insert id state c.states })
state-IsKept id state c k = record {
  keyed = k.keyed;
  tracked = λ j t h. elim (Bool-cases (str_eq id j)) [
    | inl e ↦ (state, rw (lookup-insert id j state c.states, e) refl)
    | inr e ↦ let (st, t') = k.tracked j t h in (st, rw (lookup-insert id j state c.states, e) t')
  ];
}
