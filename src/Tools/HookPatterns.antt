-- ===== src/Tools/HookPatterns.antt =====
-- A description of the patterns that `matches_hook_pattern` of crates/duragent/src/tools/hooks.rs
-- accepts.
use agnx.Common.{
  last?, take, drop, text_eq_refl, take-append-drop, drop-length_append, ◌-◌, ◌≡◌, refl, sym, ap,
  ◌∙◌, inl, inr, true, not, ◌&&◌, some, List, [], ◌∷◌, ◌++◌, append-nil, arith, leb, length, Text,
  text_eq, text_eq→≡, strip_prefix, strip_prefix→≡, strip_prefix-append, is_empty, Option-cases,
  length-append, ◌≢◌, ◌↔◌, ◌==◌, if◌then◌else◌, split, split_nonempty, any, Bool-cases,
}
use agnx.Policy.{star, matches_parts, after_first}
use agnx.Policy.Glob.{matches_parts_complete, matches_parts_sound, InOrder}
use agnx.Tools.Hooks.{
  matches_hook_pattern, glob_parts, starts_with, ends_with, middle_parts, last_differs,
}

abbrev but_last : List Text → List Text
but_last [] = []
but_last (p ∷ []) = []
but_last (p ∷ q ∷ ps) = p ∷ but_last (q ∷ ps)

-- The text starts with the first part and ends with the last one, and the parts between them occur in
-- their order behind the first one; the last part may overlap the others.
abbrev pub IsGlob : List Text → Text → Type 0
IsGlob [] s = ⊥
IsGlob (first ∷ ps) s =
    ((rest : Text) × (s ≡ first ++ rest) × InOrder (but_last ps) rest)
    × ((last : Text) × (last? (first ∷ ps) ≡ some last) × ((before : Text) × (s ≡ before ++ last)))

middle_parts_lem : (ps : List Text) (s : Text) → middle_parts ps s ≡ matches_parts (but_last ps) s
unfolding middle_parts matches_parts
middle_parts_lem [] s = refl
middle_parts_lem (p ∷ []) s = refl
middle_parts_lem ([] ∷ q ∷ ps) s = middle_parts_lem (q ∷ ps) s
middle_parts_lem ((c ∷ p) ∷ q ∷ ps) s = elim (Option-cases (after_first (c ∷ p) s)) [
  | inl e ↦ rw e refl
  | inr (r, e) ↦ rw e (middle_parts_lem (q ∷ ps) r)
]

starts_sound : (p s : Text) → starts_with p s ≡ true → (r : Text) × (s ≡ p ++ r)
starts_sound p s h = elim (Option-cases (strip_prefix p s)) [
  | inl e ↦ absurd (ground (arith, (rw (e, starts_with) at h)))
  | inr (r, e) ↦ (r, strip_prefix→≡ p s r e)
]

starts_complete : (p r : Text) → starts_with p (p ++ r) ≡ true
starts_complete p r = rw (strip_prefix-append p r, starts_with) refl

ends_sound : (p s : Text) → ends_with p s ≡ true → (b : Text) × (s ≡ b ++ p)
unfolding ends_with
ends_sound p s h =
    let n = length s - length p in
    let e : text_eq p (drop n s) ≡ true = ground (arith, h) in
    (
      take n s,
      sym (take-append-drop n s) ∙ ap (λ l. take n s ++ l) (sym (text_eq→≡ p (drop n s) e)),
    )

ends_complete : (b p : Text) → ends_with p (b ++ p) ≡ true
unfolding ends_with
ends_complete b p =
    let long = length-append b p in
    let fits : leb (length p) (length (b ++ p)) ≡ true = ground (arith, long) in
    let rest : drop (length (b ++ p) - length p) (b ++ p) ≡ p =
      ap (λ n. drop n (b ++ p)) {x = length (b ++ p) - length p} {y = length b}
        (omega (arith, long))
      ∙ drop-length_append b p in
    rw (fits, rest) (text_eq_refl p)

-- The tests that a part is not empty change nothing.
first_test : (p s : Text) → (not (is_empty p) && not (starts_with p s)) ≡ not (starts_with p s)
first_test [] s = refl
first_test (c ∷ p) s = refl

last_test : (l : Text) (s : Text) → last_differs (some l) s ≡ not (ends_with l s)
unfolding last_differs
last_test [] s =
    let e : ends_with [] (s ++ []) ≡ true = ends_complete s [] in
    let e' : ends_with [] s ≡ true = rw (append-nil s) at e in rw e' refl
last_test (c ∷ l) s = refl

last_of : (first : Text) (ps : List Text) → (l : Text) × (last? (first ∷ ps) ≡ some l)
last_of first [] = (first, refl)
last_of first (p ∷ ps) = last_of p ps

-- The three tests together.
glob_parts_tests :
    (first : Text) (ps : List Text) (l s : Text)
    → last? (first ∷ ps) ≡ some l
    → glob_parts (first ∷ ps) s ≡ (
        starts_with first s
        && (ends_with l s && matches_parts (but_last ps) (drop (length first) s)))
unfolding glob_parts
glob_parts_tests first ps l s e =
    ground
      (arith, e, first_test first s, last_test l s, middle_parts_lem ps (drop (length first) s))

IsGlob-sound :
    (parts : List Text) (s : Text) → parts ≢ [] → glob_parts parts s ≡ true → IsGlob parts s
IsGlob-sound [] s n h = n refl
IsGlob-sound (first ∷ ps) s n h =
    let (l, e) = last_of first ps in
    let tests = sym (glob_parts_tests first ps l s e) ∙ h in
    let a : starts_with first s ≡ true = ground (arith, tests) in
    let b : ends_with l s ≡ true = ground (arith, tests) in
    let c : matches_parts (but_last ps) (drop (length first) s) ≡ true = ground (arith, tests) in
    let (r, e1) = starts_sound first s a in
    let rest : drop (length first) s ≡ r =
      ap (drop (length first)) e1 ∙ drop-length_append first r in
    let m : matches_parts (but_last ps) r ≡ true = rw rest at c in
    ((r, e1, matches_parts_sound (but_last ps) r m), (l, e, ends_sound l s b))

IsGlob-complete : (parts : List Text) (s : Text) → IsGlob parts s → glob_parts parts s ≡ true
IsGlob-complete [] s h = absurd h
IsGlob-complete (first ∷ ps) s ((r, e1, d), (l, e, (b, e2))) =
    let starts : starts_with first s ≡ true = rw e1 (starts_complete first r) in
    let ends : ends_with l s ≡ true = rw e2 (ends_complete b l) in
    let rest : drop (length first) s ≡ r =
      ap (drop (length first)) e1 ∙ drop-length_append first r in
    let middle : matches_parts (but_last ps) (drop (length first) s) ≡ true =
      rw rest (matches_parts_complete [] d) in
    rw (glob_parts_tests first ps l s e, starts, ends, middle) refl

parts_nonempty : (s : Text) → split star s ≢ []
parts_nonempty s h = let (p, ps, e) = split_nonempty star s in absurd (ground (arith, h, e))

-- A pattern without a star accepts the text that it is, and no other. A pattern with a star accepts
-- exactly the texts that start with its first part, end with its last part, and have the parts
-- between, in their order and without overlap, behind the first; the last part may overlap those.
pub matches_hook_pattern_iff :
    (pattern s : Text)
    → (matches_hook_pattern pattern s ≡ true)
      ↔ (if any (λ c. c == star) pattern then IsGlob (split star pattern) s else (pattern ≡ s))
unfolding matches_hook_pattern
matches_hook_pattern_iff pattern s = elim (Bool-cases (any (λ c. c == star) pattern)) [
  | inl e ↦
      rw (e, matches_hook_pattern)
        (
          IsGlob-sound (split star pattern) s (parts_nonempty pattern),
          IsGlob-complete (split star pattern) s,
        )
  | inr e ↦ rw (e, matches_hook_pattern) (text_eq→≡ pattern s, λ q. rw q (text_eq_refl s))
]
