-- ===== src/Policy/Glob.antt =====
-- A description of the patterns that `matches_pattern` of crates/duragent/src/agent/policy_eval.rs
-- searches for.
use agnx.Common.{
  split, split_nonempty, ==_iff, Bool-cases, length-append, arith, drop-append, drop-length_append,
  true, length, none, strip_prefix-append, drop, ℕ, strip_prefix, Option-cases, strip_prefix→≡,
  Text, ◌≡◌, sym, ap, ◌∙◌, subst, inl, inr, some, List, [], ◌∷◌, ◌++◌, append_assoc, suc, refl, ◌↔◌,
  ◌==◌,
}
use agnx.Policy.{star, matches_pattern, contains, matches_parts, after_first}

-- `ps` occur in the text in their order, each after the end of the one before.
pub data InOrder : List Text → Text → Type 0 where
  done : {s : Text} → InOrder [] s
  found :
      {p : Text} {ps : List Text} (before after : Text)
      → InOrder ps after
      → InOrder (p ∷ ps) (before ++ (p ++ after))

pub InOrder-append : (y : Text) {ps : List Text} {s : Text} → InOrder ps s → InOrder ps (s ++ y)
InOrder-append y InOrder.done = InOrder.done
InOrder-append y (InOrder.found {p = p} {ps = ps} before after d) =
    subst (λ s. InOrder (p ∷ ps) s)
      (sym (append_assoc before (p ++ after) y ∙ ap (λ l. before ++ l) (append_assoc p after y)))
      (InOrder.found before (after ++ y) (InOrder-append y d))

pub InOrder-prepend : (x : Text) {ps : List Text} {s : Text} → InOrder ps s → InOrder ps (x ++ s)
InOrder-prepend x InOrder.done = InOrder.done
InOrder-prepend x (InOrder.found {p = p} {ps = ps} before after d) =
    subst (λ s. InOrder (p ∷ ps) s) (append_assoc x before (p ++ after))
      (InOrder.found (x ++ before) after d)

-- `after_first` on a text that has the part at its front, or has not.
after_first-here : (p s r : Text) → strip_prefix p s ≡ some r → after_first p s ≡ some r
unfolding after_first
after_first-here p [] r e = e
after_first-here p (c ∷ s) r e = rw (e, after_first)

after_first-later :
    (p : Text) (c : ℕ) (s : Text)
    → strip_prefix p (c ∷ s) ≡ none
    → after_first p (c ∷ s) ≡ after_first p s
unfolding after_first
after_first-later p c s e = rw (e, after_first)

-- What precedes the first occurrence.
after_first→≡ :
    (p s r : Text) → after_first p s ≡ some r → (before : Text) × (s ≡ before ++ (p ++ r))
unfolding after_first
after_first→≡ p [] r h = ([], strip_prefix→≡ p [] r h)
after_first→≡ p (c ∷ s) r h = elim (Option-cases (strip_prefix p (c ∷ s))) [
  | inr (q, e) ↦ ([], strip_prefix→≡ p (c ∷ s) r (e ∙ (sym (after_first-here p (c ∷ s) q e) ∙ h)))
  | inl e ↦
      let (before, e') = after_first→≡ p s r (sym (after_first-later p c s e) ∙ h) in
      (c ∷ before, ap (λ l. c ∷ l) e')
]

-- What a part leaves of a text that has it at its front and another occurrence later.
left_over :
    (before p after q : Text) → before ++ (p ++ after) ≡ p ++ q → (x : Text) × (q ≡ x ++ after)
left_over before p after q e = (
  drop (length p) (before ++ p),
  sym (drop-length_append p q)
      ∙ ap (drop (length p)) (sym e ∙ sym (append_assoc before p after))
      ∙ drop-append (length p) (before ++ p) after (omega (arith, length-append before p)),
)

-- No occurrence ends before the first one.
after_first-append :
    (before p after : Text)
    → (r : Text) × (x : Text) × (after_first p (before ++ (p ++ after)) ≡ some r) × (r ≡ x ++ after)
after_first-append [] p after =
    (after, [], after_first-here p (p ++ after) after (strip_prefix-append p after), refl)
after_first-append (c ∷ before) p after =
    elim (Option-cases (strip_prefix p (c ∷ (before ++ (p ++ after))))) [
      | inr (q, e) ↦
          let (x, e') = left_over (c ∷ before) p after q (strip_prefix→≡ p _ q e) in
          (q, x, after_first-here p _ q e, e')
      | inl e ↦
          let (r, x, e1, e2) = after_first-append before p after in
          (r, x, after_first-later p c _ e ∙ e1, e2)
    ]

pub matches_parts_sound : (ps : List Text) (s : Text) → matches_parts ps s ≡ true → InOrder ps s
unfolding matches_parts
matches_parts_sound [] s h = InOrder.done
matches_parts_sound ([] ∷ ps) s h = InOrder.found [] s (matches_parts_sound ps s h)
matches_parts_sound ((c ∷ p) ∷ ps) s h = elim (Option-cases (after_first (c ∷ p) s)) [
  | inl e ↦ absurd (ground (arith, (rw e at h)))
  | inr (r, e) ↦
      let (before, e') = after_first→≡ (c ∷ p) s r e in
      subst (λ s. InOrder ((c ∷ p) ∷ ps) s) (sym e')
        (InOrder.found before r (matches_parts_sound ps r (rw e at h)))
]

pub matches_parts_complete :
    (x : Text) {ps : List Text} {s : Text} → InOrder ps s → matches_parts ps (x ++ s) ≡ true
unfolding matches_parts
matches_parts_complete x InOrder.done = refl
matches_parts_complete x (InOrder.found {p = []} {ps = ps} before after d) =
    rw (sym (append_assoc x before after)) (matches_parts_complete (x ++ before) d)
matches_parts_complete x (InOrder.found {p = c ∷ p} {ps = ps} before after d) =
    let (r, y, e1, e2) = after_first-append (x ++ before) (c ∷ p) after in
    rw (sym (append_assoc x before ((c ∷ p) ++ after)), e1, e2) (matches_parts_complete y d)

-- A pattern without a star is its own only part.
split_alone : (d : ℕ) (s : Text) → length (split d s) ≡ 1 → split d s ≡ s ∷ []
unfolding split
split_alone d [] h = refl
split_alone d (c ∷ s) h =
    let (p, ps, e) = split_nonempty d s in
    elim (Bool-cases (c == d)) [
      | inl q ↦ absurd (omega (arith, (rw (q, e) at h)))
      | inr q ↦ let h' : suc (length ps) ≡ 1 = rw (q, e) at h in rw (q, split_alone d s (rw e h'))
    ]

contains_sound : (p s : Text) → contains p s ≡ true → InOrder (p ∷ []) s
unfolding contains
contains_sound p s h = elim (Option-cases (after_first p s)) [
  | inl e ↦ absurd (ground (arith, (rw (e, contains) at h)))
  | inr (r, e) ↦
      let (before, e') = after_first→≡ p s r e in
      subst (λ s. InOrder (p ∷ []) s) (sym e') (InOrder.found before r InOrder.done)
]

contains_complete : {p s : Text} → InOrder (p ∷ []) s → contains p s ≡ true
unfolding contains
contains_complete (InOrder.found {p = p} before after d) =
    let (r, x, e1, e2) = after_first-append before p after in rw (e1, contains)

-- A text matches a pattern exactly if the parts between the stars of the pattern occur in it in
-- their order, without overlap; so the search for each part's first occurrence loses nothing.
pub matches_pattern_iff :
    (pattern s : Text) → (matches_pattern pattern s ≡ true) ↔ InOrder (split star pattern) s
unfolding matches_pattern
matches_pattern_iff pattern s = elim (Bool-cases (length (split star pattern) == 1)) [
  | inl e ↦
      let alone = split_alone star pattern ((==_iff _ _).0 e) in
      rw (matches_pattern, e, alone) (contains_sound pattern s, contains_complete)
  | inr e ↦
      rw (matches_pattern, e)
        (matches_parts_sound (split star pattern) s, matches_parts_complete [])
]
