-- ===== src/Context/Groups.antt =====
-- Where the iteration groups lie that `find_iteration_groups` of
-- crates/duragent/src/context/truncation.rs finds.
use agnx.Common.{
  last?, drop, length-drop, if_both, ℕ, zero, suc, ◌+◌, ◌≤◌, ◌<◌, List, [], ◌∷◌, arith, length, ◌≡◌,
  refl, subst, some,
}
use agnx.Session.Message.{Message}
use agnx.Context.Dropping.{
  starts_group, but_last, IterationGroup, leading_tools, steering, followers, find_groups,
}

-- The groups lie one after the other between two indices.
abbrev pub Between : ℕ → ℕ → List IterationGroup → Type 0
Between lo hi [] = Unit
Between lo hi (g ∷ gs) =
    (lo ≤ g.start) × (g.start ≤ g.end_) × (g.end_ < hi) × Between (g.end_ + 1) hi gs

leading_le : (ms : List Message) → leading_tools ms ≤ length ms
unfolding leading_tools
leading_le [] = omega arith
leading_le (m ∷ ms) = ground (arith, leading_le ms)

steering_le : (ms : List Message) → steering ms ≤ length ms
unfolding steering
steering_le [] = omega arith
steering_le (m ∷ ms) = ground arith

pub followers_le : (ms : List Message) → followers ms ≤ length ms
followers_le ms = omega (
  arith,
  leading_le ms,
  steering_le (drop (leading_tools ms) ms),
  length-drop (leading_tools ms) ms,
)

pub find_groups-Between :
    (fuel lo i : ℕ) (ms : List Message)
    → lo ≤ i
    → Between lo (i + length ms) (find_groups fuel i ms)
unfolding find_groups
find_groups-Between zero lo i ms h = tt
find_groups-Between (suc fuel) lo i [] h = tt
find_groups-Between (suc fuel) lo i (m ∷ ms) h =
    let f = followers ms in
    let n = followers_le ms in
    let hi = i + suc (length ms) in
    let after : Between (i + f + 1) hi (find_groups fuel (i + 1 + f) (drop f ms)) =
      subst (λ k. Between (i + f + 1) k (find_groups fuel (i + 1 + f) (drop f ms)))
        (omega (arith, n, length-drop f ms))
        (find_groups-Between fuel (i + f + 1) (i + 1 + f) (drop f ms) (omega arith)) in
    let group : Between lo hi
        ((record { start = i; end_ = i + f }) ∷ find_groups fuel (i + 1 + f) (drop f ms)) =
      (h, omega arith, omega (arith, n), after) in
    let later : Between lo hi (find_groups fuel (i + 1) ms) =
      subst (λ k. Between lo k (find_groups fuel (i + 1) ms)) {x = i + 1 + length ms} (omega arith)
        (find_groups-Between fuel lo (i + 1) ms (omega (arith, h))) in
    if_both (Between lo hi) (starts_group m)
      {x = (record { start = i; end_ = i + f }) ∷ find_groups fuel (i + 1 + f) (drop f ms)}
      {y = find_groups fuel (i + 1) ms} group later

-- Where the last of the groups starts, and the others before it.
pub but_last-Between :
    (lo hi : ℕ) (gs : List IterationGroup) (l : IterationGroup)
    → last? gs ≡ some l
    → Between lo hi gs
    → Between lo l.start (but_last gs) × (lo ≤ l.start) × (l.start < hi)
unfolding but_last
but_last-Between lo hi [] l e b = cc
but_last-Between lo hi (g ∷ []) l e b =
    let k : g ≡ l = cc in
    subst (λ x. Unit × (lo ≤ x.start) × (x.start < hi)) k (tt, b.0, omega (arith, b.1, b.2))
but_last-Between lo hi (g ∷ h ∷ gs) l e b =
    let (k, m, n) = but_last-Between (g.end_ + 1) hi (h ∷ gs) l e b.3 in
    ((b.0, b.1, omega (arith, m), k), omega (arith, b.0, b.1, m), n)

pub but_last_one : (gs : List IterationGroup) → length gs ≤ 1 → but_last gs ≡ []
unfolding but_last
but_last_one [] h = refl
but_last_one (g ∷ []) h = refl
but_last_one (g ∷ k ∷ gs) h = absurd (omega (arith, h))

-- More fuel than messages changes nothing.
find_groups_fuel :
    (f g i : ℕ) (ms : List Message)
    → length ms ≤ f
    → length ms ≤ g
    → find_groups f i ms ≡ find_groups g i ms
unfolding find_groups
find_groups_fuel zero zero i ms h k = refl
find_groups_fuel zero (suc g) i [] h k = refl
find_groups_fuel (suc f) zero i [] h k = refl
find_groups_fuel (suc f) (suc g) i [] h k = refl
find_groups_fuel zero g i (m ∷ ms) h k = absurd (omega (arith, h))
find_groups_fuel (suc f) zero i (m ∷ ms) h k = absurd (omega (arith, k))
find_groups_fuel (suc f) (suc g) i (m ∷ ms) h k =
    let n = followers ms in
    let l = length-drop n ms in
    cc (
      find_groups_fuel f g (i + 1 + n) (drop n ms) (omega (arith, h, l)) (omega (arith, k, l)),
      find_groups_fuel f g (i + 1) ms (omega (arith, h)) (omega (arith, k)),
    )
