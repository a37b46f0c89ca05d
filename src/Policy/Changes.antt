-- ===== src/Policy/Changes.antt =====
-- Decisions before and after a change: `merge`, `add_allow_pattern` and a longer invocation
-- (crates/duragent/src/agent/policy_eval.rs).
use agnx.Common.{
  split, split_once, text_eq→≡, Bool-cases, text_eq, any, Text, ◌≡◌, ◌⊎◌, inl, inr, true, List, [],
  ◌∷◌, ◌++◌, subst, arith,
}
use agnx.Policy.Glob.{InOrder, matches_pattern_iff, InOrder-prepend, InOrder-append}
use agnx.Policy.Decisions.{Decides, mode_cases, Fits, allow_inv, check_iff, Listed}
use agnx.Session.Event.{ToolType}
use agnx.Policy.{
  star, colon, as_str, typed_parts, PolicyMode, matches_pattern, ToolPolicy, PolicyDecision, check,
  merge, add_allow_pattern,
}

Listed-left :
    {t : ToolType} {i : Text} {xs : List Text} (ys : List Text)
    → Listed t i xs
    → Listed t i (xs ++ ys)
Listed-left ys (Listed.here f) = Listed.here f
Listed-left ys (Listed.there l) = Listed.there (Listed-left ys l)

Listed-right :
    {t : ToolType} {i : Text} (xs : List Text) {ys : List Text}
    → Listed t i ys
    → Listed t i (xs ++ ys)
Listed-right [] l = l
Listed-right (x ∷ xs) l = Listed.there (Listed-right xs l)

Listed-split :
    {t : ToolType} {i : Text} (xs : List Text) {ys : List Text}
    → Listed t i (xs ++ ys)
    → Listed t i xs ⊎ Listed t i ys
Listed-split [] l = inr l
Listed-split (x ∷ xs) (Listed.here f) = inl (Listed.here f)
Listed-split (x ∷ xs) (Listed.there l) = elim (Listed-split xs l) [
  | inl a ↦ inl (Listed.there a)
  | inr b ↦ inr b
]

mode-merge :
    (p q : ToolPolicy) → (merge p q).mode ≡ PolicyMode.dangerous → q.mode ≡ PolicyMode.dangerous
unfolding merge
mode-merge p q h = elim (mode_cases q.mode) [
  | inl m ↦ m
  | inr (inl m) ↦ absurd (ground (arith, (rw m at h)))
  | inr (inr m) ↦ absurd (ground (arith, (rw m at h)))
]

-- A merge denies what either policy has on its deny list, and allows nothing that neither of
-- them allows.
pub check-merge :
    (p q : ToolPolicy) (t : ToolType) (i : Text)
    → (Listed t i p.deny ⊎ Listed t i q.deny → check (merge p q) t i ≡ PolicyDecision.deny)
      × (check (merge p q) t i ≡ PolicyDecision.allow
          → (check p t i ≡ PolicyDecision.allow) ⊎ (check q t i ≡ PolicyDecision.allow))
unfolding merge
check-merge p q t i = (
  λ l.
      (check_iff (merge p q) t i PolicyDecision.deny).1
        (Decides.denied (elim l [ inl a ↦ Listed-left q.deny a | inr b ↦ Listed-right p.deny b ])),
  λ h.
      let (n, k) = allow_inv ((check_iff (merge p q) t i PolicyDecision.allow).0 h) in
      elim k [
        | inl m ↦ inr (
            (check_iff q t i PolicyDecision.allow).1
              (Decides.trusted (λ l. n (Listed-right p.deny l)) (mode-merge p q m)))
        | inr l ↦ elim (Listed-split p.allow l) [
          | inl a ↦ inl (
              (check_iff p t i PolicyDecision.allow).1
                (Decides.listed (λ x. n (Listed-left q.deny x)) a))
          | inr b ↦ inr (
              (check_iff q t i PolicyDecision.allow).1
                (Decides.listed (λ x. n (Listed-right p.deny x)) b))
        ]
      ],
)

Listed-longer :
    {t : ToolType} {i : Text} (x y : Text) {ps : List Text}
    → Listed t i ps
    → Listed t (x ++ (i ++ y)) ps
Listed-longer x y (Listed.here (k, m)) = Listed.here (k, InOrder-prepend x (InOrder-append y m))
Listed-longer x y (Listed.there l) = Listed.there (Listed-longer x y l)

none-Listed : {t : ToolType} {i : Text} → ¬ Listed t i []
none-Listed l = elim l [ ]

-- A pattern is not anchored: with an empty deny list, what a policy allows it also allows with any text
-- before and after it.
pub check-longer :
    (p : ToolPolicy) (t : ToolType) (i x y : Text)
    → p.deny ≡ []
    → check p t i ≡ PolicyDecision.allow
    → check p t (x ++ (i ++ y)) ≡ PolicyDecision.allow
check-longer p t i x y e h =
    let (n, k) = allow_inv ((check_iff p t i PolicyDecision.allow).0 h) in
    let n' : ¬ Listed t (x ++ (i ++ y)) p.deny =
      λ l. none-Listed (subst (λ ps. Listed t (x ++ (i ++ y)) ps) e l) in
    (check_iff p t (x ++ (i ++ y)) PolicyDecision.allow).1
      (elim k [ inl m ↦ Decides.trusted n' m | inr l ↦ Decides.listed n' (Listed-longer x y l) ])

full_pattern-Fits :
    (t : ToolType) (pattern i : Text)
    → InOrder (split star pattern) i
    → Fits (as_str t ++ colon ∷ pattern) t i
unfolding typed_parts split_once split
full_pattern-Fits ToolType.bash pattern i o = (inr (InOrder.found [] [] InOrder.done), o)
full_pattern-Fits ToolType.mcp pattern i o = (inr (InOrder.found [] [] InOrder.done), o)
full_pattern-Fits ToolType.builtin pattern i o = (inr (InOrder.found [] [] InOrder.done), o)
full_pattern-Fits ToolType.cli pattern i o = (inr (InOrder.found [] [] InOrder.done), o)

Fits-Listed :
    (t : ToolType) (i full : Text) (ps : List Text)
    → Fits full t i
    → any (text_eq full) ps ≡ true
    → Listed t i ps
Fits-Listed t i full [] f h = absurd (ground (arith, h))
Fits-Listed t i full (p ∷ ps) f h = elim (Bool-cases (text_eq full p)) [
  | inl e ↦ Listed.here (subst (λ x. Fits x t i) (text_eq→≡ full p e) f)
  | inr e ↦ Listed.there (Fits-Listed t i full ps f (rw e at h))
]

-- After `add_allow_pattern` an invocation that matches the pattern is allowed, in every mode, unless it is on the
-- deny list.
pub check-add_allow_pattern :
    (p : ToolPolicy) (t : ToolType) (pattern i : Text)
    → matches_pattern pattern i ≡ true
    → ¬ Listed t i p.deny
    → check (add_allow_pattern t pattern p) t i ≡ PolicyDecision.allow
unfolding add_allow_pattern
check-add_allow_pattern p t pattern i h n =
    let f = full_pattern-Fits t pattern i ((matches_pattern_iff pattern i).0 h) in
    let full = as_str t ++ colon ∷ pattern in
    elim (Bool-cases (any (text_eq full) p.allow)) [
      | inl e ↦ rw e (
          (check_iff p t i PolicyDecision.allow).1
            (Decides.listed n (Fits-Listed t i full p.allow f e)))
      | inr e ↦ rw e (
          (check_iff (record p { allow = p.allow ++ full ∷ [] }) t i PolicyDecision.allow).1
            (Decides.listed n (Listed-right p.allow (Listed.here f))))
    ]
