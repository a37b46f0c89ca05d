-- ===== src/Context/Budget.antt =====
-- What `drop_oldest_iterations` of crates/duragent/src/context/truncation.rs leaves of the messages.
use agnx.Context.{estimate_message_tokens}
use agnx.Common.{
  leb→le, last?, take-take, take-append, take, drop, length-drop, if_both, take-append-drop,
  length-take, drop-length_append, ℕ, ◌+◌, ◌≤◌, ◌<◌, List, [], ◌∷◌, arith, length, ◌^◌, String, ◌≡◌,
  refl, sym, ap, ◌∙◌, Option, some, ◌++◌, append_assoc, ◌-◌, ◌⊎◌, inl, inr, leb, Bool-cases,
}
use agnx.Session.Message.{ToolCall, Message}
use agnx.Context.Groups.{Between, find_groups-Between, but_last-Between, but_last_one}
use agnx.Context.Dropping.{
  drop_oldest_iterations, sub_u32, find_iteration_groups, groups_to_drop, drain_group, drain_groups,
  slice, sum_tokens, but_last, IterationGroup,
}

module _ (to_json : List ToolCall → Option String) where
  -- The tokens of messages, without wrapping.
  abbrev pub total : List Message → ℕ
  total [] = 0
  total (m ∷ ms) = estimate_message_tokens to_json m + total ms

  total-append : (xs ys : List Message) → total (xs ++ ys) ≡ total xs + total ys
  total-append [] ys = omega arith
  total-append (x ∷ xs) ys = omega (arith, total-append xs ys)

  sum_tokens-total : (ms : List Message) → total ms < 2 ^ 32 → sum_tokens to_json ms ≡ total ms
  unfolding sum_tokens
  sum_tokens-total [] h = refl
  sum_tokens-total (m ∷ ms) h = omega (arith, h, sum_tokens-total ms (omega (arith, h)))

  abbrev total_groups : List IterationGroup → List Message → ℕ
  total_groups [] ms = 0
  total_groups (g ∷ gs) ms = total (slice g ms) + total_groups gs ms

  -- Before `lo`, and from `hi` on, nothing is drained, and the tokens of the groups go.
  abbrev Drained : ℕ → ℕ → List IterationGroup → List Message → Type 0
  Drained lo hi gs ms =
      ((x : List Message) × (drain_groups gs ms ≡ take lo ms ++ (x ++ drop hi ms)))
      × (total (drain_groups gs ms) + total_groups gs ms ≡ total ms)

  between :
      (lo hi : ℕ) (ms : List Message)
      → lo ≤ hi
      → ms ≡ take lo ms ++ (drop lo (take hi ms) ++ drop hi ms)
  between lo hi ms h =
      sym (take-append-drop hi ms)
      ∙ ap (λ l. l ++ drop hi ms)
          (sym (take-append-drop lo (take hi ms))
            ∙ ap (λ l. l ++ drop lo (take hi ms)) (take-take lo hi ms h))
      ∙ append_assoc (take lo ms) (drop lo (take hi ms)) (drop hi ms)

  drain_first :
      (lo hi : ℕ) (g : IterationGroup) (gs : List IterationGroup) (ms y : List Message)
      → lo ≤ g.start
      → g.start ≤ g.end_ + 1
      → g.end_ + 1 ≤ length ms
      → drain_groups gs ms ≡ take (g.end_ + 1) ms ++ (y ++ drop hi ms)
      → total (drain_groups gs ms) + total_groups gs ms ≡ total ms
      → Drained lo hi (g ∷ gs) ms
  unfolding drain_groups drain_group
  drain_first lo hi g gs ms y a b c e t =
      let front = take (g.end_ + 1) ms in
      let z = y ++ drop hi ms in
      let l : length front ≡ g.end_ + 1 = omega (arith, c, length-take (g.end_ + 1) ms) in
      let left : take g.start (front ++ z) ≡ take g.start ms =
        take-append g.start front z (omega (arith, l, b)) ∙ take-take g.start (g.end_ + 1) ms b in
      let right : drop (g.end_ + 1) (front ++ z) ≡ z =
        ap (λ n. drop n (front ++ z)) (sym l) ∙ drop-length_append front z in
      let whole : drain_groups (g ∷ gs) ms ≡ take g.start ms ++ z =
        ap (drain_group g) e
        ∙ ap (λ u. u ++ drop (g.end_ + 1) (front ++ z)) left
        ∙ ap (λ u. take g.start ms ++ u) right in
      let start : take g.start ms ≡ take lo ms ++ drop lo (take g.start ms) =
        sym (take-append-drop lo (take g.start ms))
        ∙ ap (λ u. u ++ drop lo (take g.start ms)) (take-take lo g.start ms a) in
      let cut : front ≡ take g.start ms ++ slice g ms =
        sym (take-append-drop g.start front)
        ∙ ap (λ u. u ++ slice g ms) (take-take g.start (g.end_ + 1) ms b) in
      (
        (
          drop lo (take g.start ms) ++ y,
          whole
              ∙ ap (λ u. u ++ z) start
              ∙ append_assoc (take lo ms) (drop lo (take g.start ms)) z
              ∙ ap (λ u. take lo ms ++ u)
                  (sym (append_assoc (drop lo (take g.start ms)) y (drop hi ms))),
        ),
        omega (
          arith,
          t,
          ap total e,
          total-append front z,
          ap total cut,
          total-append (take g.start ms) (slice g ms),
          ap total whole,
          total-append (take g.start ms) z,
        ),
      )

  drain_groups-Drained :
      (lo hi : ℕ) (gs : List IterationGroup) (ms : List Message)
      → Between lo hi gs
      → lo ≤ hi
      → hi ≤ length ms
      → Drained lo hi gs ms
  unfolding drain_groups
  drain_groups-Drained lo hi [] ms b h k = ((drop lo (take hi ms), between lo hi ms h), omega arith)
  drain_groups-Drained lo hi (g ∷ gs) ms b h k =
      let ((y, e), t) = drain_groups-Drained (g.end_ + 1) hi gs ms b.3 (omega (arith, b.2)) k in
      drain_first lo hi g gs ms y b.0 (omega (arith, b.1)) (omega (arith, b.2, k)) e t

  -- What is chosen lies between the same indices, and either is enough or is everything.
  groups_to_drop-Between :
      (lo hi : ℕ) (ms : List Message) (budget current : ℕ) (gs : List IterationGroup)
      → Between lo hi gs
      → Between lo hi (groups_to_drop to_json ms budget current gs)
  unfolding groups_to_drop
  groups_to_drop-Between lo hi ms budget current [] b = tt
  groups_to_drop-Between lo hi ms budget current (g ∷ gs) b =
      let rest : Between lo hi (
          g
          ∷ groups_to_drop to_json ms budget (sub_u32 current (sum_tokens to_json (slice g ms)))
              gs) =
        (b.0, b.1, b.2, groups_to_drop-Between (g.end_ + 1) hi ms budget _ gs b.3) in
      if_both (Between lo hi) (leb current budget) {x = []} tt rest

  groups_to_drop_enough :
      (ms : List Message) (budget current : ℕ) (gs : List IterationGroup)
      → current < 2 ^ 32
      → total_groups gs ms ≤ current
      → (current ≤ budget + total_groups (groups_to_drop to_json ms budget current gs) ms)
        ⊎ (groups_to_drop to_json ms budget current gs ≡ gs)
  unfolding groups_to_drop
  groups_to_drop_enough ms budget current [] h k = inr refl
  groups_to_drop_enough ms budget current (g ∷ gs) h k =
      let s = sum_tokens-total (slice g ms) (omega (arith, h, k)) in
      let next : sub_u32 current (sum_tokens to_json (slice g ms)) ≡ current - total (slice g ms) =
        omega (arith, s, h, k) in
      elim (Bool-cases (leb current budget)) [
        | inl e ↦ inl (omega (arith, leb→le current budget e))
        | inr e ↦
            rw (groups_to_drop, e, next)
              (elim (groups_to_drop_enough ms budget (current - total (slice g ms)) gs
                (omega (arith, h)) (omega (arith, k))) [
                  | inl x ↦ inl (omega (arith, x, k))
                  | inr x ↦ inr (ap (λ r. g ∷ r) x)
                ])
      ]

  -- The messages before the end of the conversation and those from the last group on are kept, and
  -- the result is within the budget, or every group but the last is dropped.
  abbrev pub Kept : List Message → ℕ → ℕ → IterationGroup → List Message → Type 0
  Kept ms end_ budget l result =
      ((x : List Message) × (result ≡ take end_ ms ++ (x ++ drop l.start ms)))
      × ((total result ≤ budget)
          ⊎ (result ≡ drain_groups (but_last (find_iteration_groups ms end_)) ms))

  untouched :
      (ms : List Message) (end_ : ℕ) (l : IterationGroup)
      → end_ ≤ l.start
      → (x : List Message) × (ms ≡ take end_ ms ++ (x ++ drop l.start ms))
  untouched ms end_ l h = (drop end_ (take l.start ms), between end_ l.start ms h)

  drained :
      (ms : List Message) (lo budget hi current : ℕ) (gs : List IterationGroup)
      → Between lo hi gs
      → lo ≤ hi
      → hi ≤ length ms
      → current ≡ total ms
      → total ms < 2 ^ 32
      → ((x : List Message) × (drain_groups (groups_to_drop to_json ms budget current gs) ms
            ≡ take lo ms ++ (x ++ drop hi ms)))
        × ((total (drain_groups (groups_to_drop to_json ms budget current gs) ms) ≤ budget)
            ⊎ (drain_groups (groups_to_drop to_json ms budget current gs) ms ≡ drain_groups gs ms))
  drained ms lo budget hi current gs b a c e h =
      let everything = drain_groups-Drained lo hi gs ms b a c in
      let chosen = groups_to_drop to_json ms budget current gs in
      let d =
        drain_groups-Drained lo hi chosen ms (groups_to_drop-Between lo hi ms budget current gs b) a
          c in
      (
        d.0,
        elim (groups_to_drop_enough ms budget current gs (omega (arith, e, h))
            (omega (arith, e, everything.1))) [
              | inl x ↦ inl (omega (arith, x, e, d.1))
              | inr x ↦ inr (ap (λ g. drain_groups g ms) x)
            ],
      )

  -- If the tokens of all messages fit into 32 bits and there is a group, then `drop_oldest_iterations`
  -- keeps the messages before the end of the conversation and those from the start of the last
  -- group on, and what it leaves is within the budget, or it has dropped every group but the last.
  pub drop_oldest_iterations-Kept :
      (ms : List Message) (end_ budget : ℕ) (l : IterationGroup)
      → total ms < 2 ^ 32
      → last? (find_iteration_groups ms end_) ≡ some l
      → Kept ms end_ budget l (drop_oldest_iterations to_json ms end_ budget)
  unfolding drop_oldest_iterations find_iteration_groups drain_groups
  drop_oldest_iterations-Kept ms end_ budget l h e =
      let groups = find_iteration_groups ms end_ in
      let all_between = find_groups-Between (length ms) end_ end_ (drop end_ ms) (omega arith) in
      let (older, lo, hi) =
        but_last-Between end_ (end_ + length (drop end_ ms)) groups l e all_between in
      let in_range : l.start ≤ length ms = omega (arith, lo, hi, length-drop end_ ms) in
      let sum = sum_tokens-total ms h in
      elim (Bool-cases (leb (sum_tokens to_json ms) budget)) [
        | inl f ↦ rw f (
          untouched ms end_ l lo,
          inl (omega (arith, sum, leb→le (sum_tokens to_json ms) budget f)),
        )
        | inr f ↦ elim (Bool-cases (leb (length groups) 1)) [
          | inl k ↦
              rw (f, k)
                (
                  untouched ms end_ l lo,
                  inr (
                      ap (λ gs. drain_groups gs ms)
                        (sym (but_last_one groups (leb→le (length groups) 1 k)))),
                )
          | inr k ↦
              rw (f, k)
                (drained ms end_ budget l.start (sum_tokens to_json ms) (but_last groups) older lo
                  in_range sum h)
        ]
      ]
