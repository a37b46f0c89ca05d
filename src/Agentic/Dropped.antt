-- ===== src/Agentic/Dropped.antt =====
-- The dropping of iteration groups, seen from the calls that want results.
use agnx.Common.{
  drop, drop-drop, String, ◌≡◌, refl, ◌⊎◌, true, false, none, some, List, [], ◌∷◌, arith, ℕ, subst,
  inl, inr, ◌&&◌, codes, if_both, Bool-cases, Option-cases,
}
use agnx.Session.Message.{content_str, Message}
use agnx.Context.Truncation.{is_tool}
use agnx.Context.Dropping.{followers, steering, is_user, starts_with, starts_group, leading_tools}
use agnx.Agentic.Answers.{owed, owed_by, call_ids, IsAnswered, settle}

pub starts_owed :
    (m : Message) → starts_group m ≡ true → owed_by true [] m ≡ some (call_ids m.tool_calls)
unfolding owed_by
starts_owed m h = ground arith

other_owed :
    (m : Message)
    → starts_group m ≡ false
    → (owed_by true [] m ≡ none) ⊎ (owed_by true [] m ≡ some [])
unfolding owed_by settle
other_owed m h = ground arith

stuck_owed :
    (m : Message) (i : String) (ids : List String)
    → is_tool m ≡ false
    → owed_by true (i ∷ ids) m ≡ none
unfolding owed_by
stuck_owed m i ids h = ground arith

owed_tools :
    (ids : List String) (ms : List Message)
    → owed true ids ms ≡ some []
    → IsAnswered true (drop (leading_tools ms) ms)
unfolding owed leading_tools
owed_tools ids [] h = refl
owed_tools ids (m ∷ ms) h = elim (Bool-cases (is_tool m)) [
  | inl e ↦ elim (Option-cases (owed_by true ids m)) [
    | inl n ↦ absurd (ground (arith, (rw n at h)))
    | inr (left, n) ↦ rw e (owed_tools left ms (rw n at h))
  ]
  | inr e ↦ rw e (not_tool ids m ms e h)
]
  where
    not_tool :
        (ids : List String) (m : Message) (ms : List Message)
        → is_tool m ≡ false
        → owed true ids (m ∷ ms) ≡ some []
        → IsAnswered true (m ∷ ms)
    not_tool [] m ms e h = h
    not_tool (i ∷ ids) m ms e h = absurd (ground (arith, (rw (stuck_owed m i ids e) at h)))

user_owed : (m : Message) → is_user m ≡ true → owed_by true [] m ≡ some []
unfolding owed_by
user_owed m h = ground arith

owed_steering : (ms : List Message) → IsAnswered true ms → IsAnswered true (drop (steering ms) ms)
unfolding owed steering
owed_steering [] h = h
owed_steering (m ∷ ms) h = elim (Bool-cases (is_user m)) [
  | inl u ↦
      let later : IsAnswered true ms = rw (user_owed m u) at h in
      if_both (λ (n : ℕ). IsAnswered true (drop n (m ∷ ms)))
        (is_user m && starts_with (codes "[steering]") (codes (content_str m))) {x = 1} {y = 0}
        later h
  | inr u ↦ rw u h
]

-- After a group, no call wants a result.
pub group_owed :
    (m : Message) (ms : List Message)
    → starts_group m ≡ true
    → IsAnswered true (m ∷ ms)
    → IsAnswered true (drop (followers ms) ms)
unfolding owed
group_owed m ms g h =
    let tools = owed_tools (call_ids m.tool_calls) ms (rw (starts_owed m g) at h) in
    subst (λ l. IsAnswered true l) (drop-drop (leading_tools ms) _ ms) (owed_steering _ tools)

-- A message that starts no group leaves no call without a result.
pub single_owed :
    (m : Message) (ms : List Message)
    → starts_group m ≡ false
    → IsAnswered true (m ∷ ms)
    → (owed_by true [] m ≡ some []) × IsAnswered true ms
unfolding owed
single_owed m ms g h = elim (other_owed m g) [
  | inl e ↦ absurd (ground (arith, (rw e at h)))
  | inr e ↦ (e, (rw e at h))
]
