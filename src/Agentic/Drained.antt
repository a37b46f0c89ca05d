-- ===== src/Agentic/Drained.antt =====
-- What draining groups of messages leaves of the calls that want results.
use agnx.Context.Groups.{followers_le}
use agnx.Common.{
  take, drop, length-take, take-append-drop, drop-length_append, take-length_append, String, ◌≡◌,
  refl, true, some, List, [], ◌∷◌, arith, ℕ, subst, inl, inr, if_both, Bool-cases, ◌+◌, ◌∙◌, ◌++◌,
  append_assoc, length, length-append, zero, suc, Option, leb,
}
use agnx.Session.Message.{ToolCall, Message}
use agnx.Context.Dropping.{
  sub_u32, sum_tokens, slice, find_iteration_groups, groups_to_drop, drop_oldest_iterations,
  find_groups, followers, but_last, drain_group, drain_groups, IterationGroup, starts_group,
}
use agnx.Agentic.Answers.{owed, owed_by, IsAnswered}
use agnx.Agentic.Dropped.{single_owed, group_owed}

abbrev Prefix : List IterationGroup → List IterationGroup → Type 0
Prefix [] hs = Unit {0}
Prefix (g ∷ gs) [] = ⊥
Prefix (g ∷ gs) (h ∷ hs) = (g ≡ h) × Prefix gs hs

-- What is left behind `pre` when groups are drained.
abbrev Leaves : List IterationGroup → List Message → List Message → Type 0
Leaves gs pre ms = (x : List Message) × (drain_groups gs (pre ++ ms) ≡ pre ++ x) × IsAnswered true x

Leaves-all : (pre ms : List Message) → IsAnswered true ms → Leaves [] pre ms
unfolding drain_groups
Leaves-all pre ms h = (ms, refl, h)

-- The group `i` to `i + n` is drained after the groups behind it.
Leaves-group :
    (i n : ℕ) (gs : List IterationGroup) (pre group ms : List Message)
    → length pre ≡ i
    → length group ≡ n + 1
    → Leaves gs (pre ++ group) ms
    → Leaves ((record { start = i; end_ = i + n }) ∷ gs) pre (group ++ ms)
unfolding drain_groups drain_group
Leaves-group i n gs pre group ms h k (x, e, a) =
    let kept : take i ((pre ++ group) ++ x) ≡ pre =
      rw (← h, append_assoc pre group x) (take-length_append pre (group ++ x)) in
    let total : i + n + 1 ≡ length (pre ++ group) = omega (arith, length-append pre group) in
    let gone : drop (i + n + 1) ((pre ++ group) ++ x) ≡ x =
      rw total (drop-length_append (pre ++ group) x) in
    (x, rw (← append_assoc pre group ms, e, kept, gone) refl, a)

Leaves-message :
    (gs : List IterationGroup) (pre ms : List Message) (m : Message)
    → owed_by true [] m ≡ some []
    → Leaves gs (pre ++ m ∷ []) ms
    → Leaves gs pre (m ∷ ms)
unfolding owed
Leaves-message gs pre ms m o (x, e, a) =
    (m ∷ x, rw (← append_assoc pre (m ∷ []) ms) (e ∙ append_assoc pre (m ∷ []) x), rw o a)

Leaves-prefix :
    (fuel i : ℕ) (gs : List IterationGroup) (pre ms : List Message)
    → length pre ≡ i
    → Prefix gs (find_groups fuel i ms)
    → IsAnswered true ms
    → Leaves gs pre ms
unfolding find_groups
Leaves-prefix fuel i [] pre ms h p a = Leaves-all pre ms a
Leaves-prefix zero i (g ∷ gs) pre ms h p a = absurd p
Leaves-prefix (suc fuel) i (g ∷ gs) pre [] h p a = absurd p
Leaves-prefix (suc fuel) i (g ∷ gs) pre (m ∷ ms) h p a = elim (Bool-cases (starts_group m)) [
  | inl s ↦
      let n = followers ms in
      let p' : Prefix (g ∷ gs)
          ((record { start = i; end_ = i + n }) ∷ find_groups fuel (i + 1 + n) (drop n ms)) =
        rw s at p in
      let first : IterationGroup = record { start = i; end_ = i + n } in
      let long = followers_le ms in
      let group = m ∷ take n ms in
      let size : length group ≡ n + 1 = omega (arith, length-take n ms, long) in
      let later =
        Leaves-prefix fuel (i + 1 + n) gs (pre ++ group) (drop n ms)
          (omega (arith, length-append pre group, size, h)) p'.1 (group_owed m ms s a) in
      let whole = Leaves-group i n gs pre group (drop n ms) h size later in
      rw p'.0 (subst (λ l. Leaves (first ∷ gs) pre (m ∷ l)) (take-append-drop n ms) whole)
  | inr s ↦
      let (o, a') = single_owed m ms s a in
      Leaves-message (g ∷ gs) pre ms m o (
        Leaves-prefix fuel (i + 1) (g ∷ gs) (pre ++ m ∷ []) ms
          (omega (arith, length-append pre (m ∷ []), h)) (rw s at p) a')
]

prefix_trans : (fs gs hs : List IterationGroup) → Prefix fs gs → Prefix gs hs → Prefix fs hs
prefix_trans [] gs hs p q = tt
prefix_trans (f ∷ fs) [] hs p q = absurd p
prefix_trans (f ∷ fs) (g ∷ gs) [] p q = absurd q
prefix_trans (f ∷ fs) (g ∷ gs) (h ∷ hs) p q = (p.0 ∙ q.0, prefix_trans fs gs hs p.1 q.1)

but_last-Prefix : (gs : List IterationGroup) → Prefix (but_last gs) gs
unfolding but_last
but_last-Prefix [] = tt
but_last-Prefix (g ∷ []) = tt
but_last-Prefix (g ∷ h ∷ gs) = (refl, but_last-Prefix (h ∷ gs))

module _ (to_json : List ToolCall → Option String) where
  groups_to_drop-Prefix :
      (ms : List Message) (budget current : ℕ) (gs : List IterationGroup)
      → Prefix (groups_to_drop to_json ms budget current gs) gs
  unfolding groups_to_drop
  groups_to_drop-Prefix ms budget current [] = tt
  groups_to_drop-Prefix ms budget current (g ∷ gs) =
      let rest =
        groups_to_drop to_json ms budget (sub_u32 current (sum_tokens to_json (slice g ms))) gs in
      if_both (λ l. Prefix l (g ∷ gs)) (leb current budget) {x = []} {y = g ∷ rest} tt
        (
          refl,
          groups_to_drop-Prefix ms budget (sub_u32 current (sum_tokens to_json (slice g ms))) gs,
        )

  -- Dropping leaves no result without its call, if the messages behind the conversation have none
  -- between a response and its results.
  pub drop_oldest_iterations-IsAnswered :
      (conversation ms : List Message) (budget : ℕ)
      → IsAnswered true ms
      → (x : List Message) × (drop_oldest_iterations to_json
            (conversation ++ ms)
            (length conversation)
            budget
          ≡ conversation ++ x)
        × IsAnswered true x
  unfolding drop_oldest_iterations find_iteration_groups
  drop_oldest_iterations-IsAnswered conversation ms budget a =
      let messages = conversation ++ ms in
      let P : List Message → Type 0 =
        λ l. (x : List Message) × (l ≡ conversation ++ x) × IsAnswered true x in
      let groups = find_iteration_groups messages (length conversation) in
      let dropped =
        groups_to_drop to_json messages budget (sum_tokens to_json messages) (but_last groups) in
      let start = drop-length_append conversation ms in
      let dropped_prefix : Prefix dropped (find_groups (length messages) (length conversation) ms) =
        subst (λ l. Prefix dropped (find_groups (length messages) (length conversation) l)) start
          (prefix_trans dropped (but_last groups) groups
            (groups_to_drop-Prefix messages budget (sum_tokens to_json messages) (but_last groups))
            (but_last-Prefix groups)) in
      if_both P (leb (sum_tokens to_json messages) budget) {x = messages} (ms, refl, a)
        (if_both P (leb (length groups) 1) {x = messages} (ms, refl, a)
          (Leaves-prefix (length messages) (length conversation) dropped conversation ms refl
            dropped_prefix a))
