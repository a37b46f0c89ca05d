-- ===== src/Scheduler/Service/Timers.antt =====
-- The timers of crates/duragent/src/scheduler/service.rs and the tasks that sleep for them.
use agnx.Common.{
  ap, Option, subst, none, sym, ◌∙◌, ◌⊎◌, eq_iff, inl, inr, ℕ, suc, ◌≤◌, ◌<◌, String, ◌≡◌, refl,
  Bool, true, not, some, List, [], ◌∷◌, arith, str_eq, ◌==◌, if◌then◌else◌, retain, All, Bool-cases,
}
use agnx.Common.Entries.{insert, lookup_entry, remove_entry, lookup-insert, lookup-remove}
use agnx.Scheduler.Service.{Timer, drop_sender}

-- How many tasks sleep for a schedule.
abbrev pub waiting_for : String → List Timer → ℕ
waiting_for id [] = 0
waiting_for id (t ∷ ts) =
    let rest = waiting_for id ts in if str_eq t.schedule_id id then suc rest else rest

abbrev pub HasSender : List (String × ℕ) → Timer → Type 0
HasSender m t = lookup_entry t.schedule_id m ≡ some t.task_id

-- The sender of each task that sleeps stands under its schedule, so that a command reaches it, at most
-- one task sleeps for a schedule, and no two senders belong to one task.
pub record IsOwned (m : List (String × ℕ)) (ts : List Timer) (next : ℕ) : Type 0 where
  pub owned : All (HasSender m) ts
  pub single : (id : String) → waiting_for id ts ≤ 1
  pub fresh : (id : String) (n : ℕ) → lookup_entry id m ≡ some n → n < next
  pub distinct :
      (i j : String) (n : ℕ) → lookup_entry i m ≡ some n → lookup_entry j m ≡ some n → i ≡ j

abbrev pub not_of : String → Timer → Bool
not_of id t = not (str_eq t.schedule_id id)

same_test :
    (m : List (String × ℕ)) (id : String) (t : Timer) (n : ℕ)
    → HasSender m t
    → lookup_entry id m ≡ some n
    → ((i j : String) (n : ℕ) → lookup_entry i m ≡ some n → lookup_entry j m ≡ some n → i ≡ j)
    → (t.task_id == n) ≡ str_eq t.schedule_id id
same_test m id t n h k d = elim (Bool-cases (str_eq t.schedule_id id)) [
  | inl e ↦
      let k' : lookup_entry t.schedule_id m ≡ some n =
        subst (λ i. lookup_entry i m ≡ some n) (sym ((eq_iff t.schedule_id id).0 e)) k in
      let g : some t.task_id ≡ some n = sym h ∙ k' in ground (arith, g, e)
  | inr e ↦
      let d' : (t.task_id ≡ n) → t.schedule_id ≡ id = λ g. d t.schedule_id id n (h ∙ ap some g) k in
      ground (arith, d', e, eq_iff t.schedule_id id)
]

drop_each :
    (m : List (String × ℕ)) (ts : List Timer) (id : String) (found : Option ℕ)
    → lookup_entry id m ≡ found
    → All (HasSender m) ts
    → ((i j : String) (n : ℕ) → lookup_entry i m ≡ some n → lookup_entry j m ≡ some n → i ≡ j)
    → drop_sender found ts ≡ retain (not_of id) ts
unfolding drop_sender
drop_each m [] id none e a d = refl
drop_each m [] id (some n) e a d = refl
drop_each m (t ∷ ts) id none e (x, a) d =
    let rest : ts ≡ retain (not_of id) ts = drop_each m ts id none e a d in
    let no : t.schedule_id ≡ id → none ≡ some t.task_id =
      λ g. sym e ∙ subst (λ i. lookup_entry i m ≡ some t.task_id) g x in
    ground (arith, no, rest, eq_iff t.schedule_id id)
drop_each m (t ∷ ts) id (some n) e (x, a) d =
    rw (same_test m id t n x e d, sym (drop_each m ts id (some n) e a d)) refl

-- To drop the sender of a schedule ends the tasks that sleep for it, and no other.
pub drop_sender-lookup :
    (m : List (String × ℕ)) (ts : List Timer) (next : ℕ) (id : String)
    → IsOwned m ts next
    → drop_sender (lookup_entry id m) ts ≡ retain (not_of id) ts
unfolding drop_sender
drop_sender-lookup m ts next id k = drop_each m ts id _ refl k.owned k.distinct

removed_some :
    (m : List (String × ℕ)) (id j : String) (n : ℕ)
    → lookup_entry j (remove_entry id m) ≡ some n
    → lookup_entry j m ≡ some n
removed_some m id j n h = ground (arith, h, lookup-remove id j m)

inserted_some :
    (m : List (String × ℕ)) (id j : String) (v n : ℕ)
    → lookup_entry j (insert id v m) ≡ some n
    → ((id ≡ j) × (v ≡ n)) ⊎ (lookup_entry j m ≡ some n)
inserted_some m id j v n h = elim (Bool-cases (str_eq id j)) [
  | inl e ↦ inl ((eq_iff id j).0 e, ground (arith, h, e, lookup-insert id j v m))
  | inr e ↦ inr (ground (arith, h, e, lookup-insert id j v m))
]

waiting_for-retain :
    (id : String) (p : Timer → Bool) (ts : List Timer)
    → waiting_for id (retain p ts) ≤ waiting_for id ts
waiting_for-retain id p [] = omega arith
waiting_for-retain id p (t ∷ ts) = ground (arith, waiting_for-retain id p ts)

pub waiting_for-not_of :
    (id : String) (ts : List Timer) → waiting_for id (retain (not_of id) ts) ≡ 0
waiting_for-not_of id [] = refl
waiting_for-not_of id (t ∷ ts) = ground (arith, waiting_for-not_of id ts)

pub All-retain :
    {P Q : Timer → Type 0} (p : Timer → Bool) (ts : List Timer)
    → ((t : Timer) → p t ≡ true → P t → Q t)
    → All P ts
    → All Q (retain p ts)
All-retain p [] f a = tt
All-retain p (t ∷ ts) f (x, xs) = elim (Bool-cases (p t)) [
  | inl e ↦ rw e (f t e x, All-retain p ts f xs)
  | inr e ↦ rw e (All-retain p ts f xs)
]

pub retain-IsOwned :
    (m : List (String × ℕ)) (ts : List Timer) (next : ℕ) (p : Timer → Bool)
    → IsOwned m ts next
    → IsOwned m (retain p ts) next
retain-IsOwned m ts next p k = record {
  owned = All-retain p ts (λ t e x. x) k.owned;
  single = λ id. ground (arith, waiting_for-retain id p ts, k.single id);
  fresh = k.fresh;
  distinct = k.distinct;
}

pub remove-IsOwned :
    (m : List (String × ℕ)) (ts : List Timer) (next : ℕ) (id : String)
    → IsOwned m ts next
    → IsOwned (remove_entry id m) (retain (not_of id) ts) next
remove-IsOwned m ts next id k = record {
  owned =
      All-retain (not_of id) ts
        (λ t e x. ground (arith, e, x, eq_iff id t.schedule_id, lookup-remove id t.schedule_id m))
        k.owned;
  single = λ j. ground (arith, waiting_for-retain j (not_of id) ts, k.single j);
  fresh = λ j n h. k.fresh j n (removed_some m id j n h);
  distinct = λ i j n h h'. k.distinct i j n (removed_some m id i n h) (removed_some m id j n h');
}

pub insert-IsOwned :
    (m : List (String × ℕ)) (ts : List Timer) (next : ℕ) (id : String) (d : ℕ)
    → IsOwned m ts next
    → IsOwned
        (insert id next m)
        (record { task_id = next; schedule_id = id; deadline = d } ∷ retain (not_of id) ts)
        (suc next)
insert-IsOwned m ts next id d k = record {
  owned = (
    ground (arith, eq_iff id id, lookup-insert id id next m),
    All-retain (not_of id) ts
        (λ t e x.
          ground (arith, e, x, eq_iff id t.schedule_id, lookup-insert id t.schedule_id next m))
        k.owned,
  );
  single = λ j. ground (
    arith,
    eq_iff id j,
    waiting_for-not_of id ts,
    waiting_for-retain j (not_of id) ts,
    k.single j,
  );
  fresh = λ j n h. elim (inserted_some m id j next n h) [
    | inl (e, g) ↦ omega arith
    | inr g ↦ ground (arith, k.fresh j n g)
  ];
  distinct = λ i j n h h'. elim (inserted_some m id i next n h) [
    | inl (e, g) ↦ elim (inserted_some m id j next n h') [
      | inl (e', g') ↦ sym e ∙ e'
      | inr g' ↦ absurd (ground (arith, g, k.fresh j n g'))
    ]
    | inr g ↦ elim (inserted_some m id j next n h') [
      | inl (e', g') ↦ absurd (ground (arith, g', k.fresh i n g))
      | inr g' ↦ k.distinct i j n g g'
    ]
  ];
}
