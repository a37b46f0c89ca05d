-- ===== src/Policy/Decisions.antt =====
-- A description of the decisions of `check` (crates/duragent/src/agent/policy_eval.rs).
use agnx.Session.Event.{ToolType}
use agnx.Common.{
  split, is_empty, text_eq→≡, Bool-cases, Text, ◌≡◌, ◌⊎◌, inl, inr, true, List, [], ◌∷◌, arith,
  refl, subst, ◌↔◌, Bool, false, not, ◌&&◌, if◌then◌else◌, sym,
}
use agnx.Policy.Glob.{matches_pattern_iff, InOrder}
use agnx.Policy.{
  check, star, typed_parts, matches_typed_pattern, matches_any_typed, ToolPolicy, PolicyMode,
  PolicyDecision, as_str, dangerous, restrict,
}

-- The pattern names the tool, or any tool, and its rest matches the invocation.
abbrev pub Fits : Text → ToolType → Text → Type 0
Fits pattern t invocation =
    (((typed_parts pattern).0 ≡ star ∷ [])
      ⊎ InOrder (split star (typed_parts pattern).0) (as_str t))
    × InOrder (split star (typed_parts pattern).1) invocation

pub data Listed (t : ToolType) (invocation : Text) : List Text → Type 0 where
  here : {p : Text} {ps : List Text} → Fits p t invocation → Listed t invocation (p ∷ ps)
  there : {p : Text} {ps : List Text} → Listed t invocation ps → Listed t invocation (p ∷ ps)

-- The guard of `matches_typed_pattern`.
guard_true :
    (a b c : Bool)
    → (if not a && not b then false else c) ≡ true
    → ((a ≡ true) ⊎ (b ≡ true)) × (c ≡ true)
guard_true true b c h = (inl refl, h)
guard_true false true c h = (inr refl, h)
guard_true false false c h = cc

true_guard :
    (a b c : Bool)
    → (a ≡ true) ⊎ (b ≡ true)
    → c ≡ true
    → (if not a && not b then false else c) ≡ true
true_guard a b c h k = ground (arith, h, k)

Fits-sound :
    (p : Text) (t : ToolType) (i : Text) → matches_typed_pattern p (as_str t) i ≡ true → Fits p t i
unfolding matches_typed_pattern
Fits-sound p t i h =
    let (k, m) = guard_true _ _ _ h in
    (
      elim k [
        | inl e ↦ inl (text_eq→≡ _ _ e)
        | inr e ↦ inr ((matches_pattern_iff _ (as_str t)).0 e)
      ],
      (matches_pattern_iff _ i).0 m,
    )

Fits-complete :
    (p : Text) (t : ToolType) (i : Text) → Fits p t i → matches_typed_pattern p (as_str t) i ≡ true
unfolding matches_typed_pattern
Fits-complete p t i (inl e, m) = rw (e, (matches_pattern_iff _ i).1 m)
Fits-complete p t i (inr o, m) =
    true_guard _ _ _ (inr ((matches_pattern_iff _ (as_str t)).1 o)) ((matches_pattern_iff _ i).1 m)

pub Listed-sound :
    (t : ToolType) (i : Text) (ps : List Text)
    → matches_any_typed ps (as_str t) i ≡ true
    → Listed t i ps
unfolding matches_any_typed
Listed-sound t i [] h = absurd (ground (arith, h))
Listed-sound t i (p ∷ ps) h = elim (Bool-cases (matches_typed_pattern p (as_str t) i)) [
  | inl e ↦ Listed.here (Fits-sound p t i e)
  | inr e ↦ Listed.there (Listed-sound t i ps (rw e at h))
]

pub Listed-complete :
    (t : ToolType) (i : Text) {ps : List Text}
    → Listed t i ps
    → matches_any_typed ps (as_str t) i ≡ true
unfolding matches_any_typed
Listed-complete t i (Listed.here {p = p} f) = rw (Fits-complete p t i f)
Listed-complete t i (Listed.there {p = p} {ps = ps} l) =
    ground (arith, Listed-complete t i {ps = ps} l)

-- An allowed invocation is on no deny list, and the mode trusts it or it is on the allow list.
pub data Decides (p : ToolPolicy) (t : ToolType) (i : Text) : PolicyDecision → Type 0 where
  denied : Listed t i p.deny → Decides p t i PolicyDecision.deny
  trusted : ¬ Listed t i p.deny → p.mode ≡ dangerous → Decides p t i PolicyDecision.allow
  listed : ¬ Listed t i p.deny → Listed t i p.allow → Decides p t i PolicyDecision.allow
  unlisted :
      ¬ Listed t i p.deny
      → p.mode ≡ restrict
      → ¬ Listed t i p.allow
      → Decides p t i PolicyDecision.deny
  asked :
      ¬ Listed t i p.deny
      → p.mode ≡ PolicyMode.ask
      → ¬ Listed t i p.allow
      → Decides p t i PolicyDecision.ask

in_or_out :
    (t : ToolType) (i : Text) (ps : List Text)
    → (Listed t i ps × (matches_any_typed ps (as_str t) i ≡ true))
      ⊎ (¬ Listed t i ps × (matches_any_typed ps (as_str t) i ≡ false))
in_or_out t i ps = elim (Bool-cases (matches_any_typed ps (as_str t) i)) [
  | inl e ↦ inl (Listed-sound t i ps e, e)
  | inr e ↦ inr (λ l. ground (arith, e, Listed-complete t i l), e)
]

-- `check` tests first whether there is a deny list.
deny_test :
    (ps : List Text) (t i : Text)
    → (not (is_empty ps) && matches_any_typed ps t i) ≡ matches_any_typed ps t i
unfolding matches_any_typed
deny_test [] t i = refl
deny_test (p ∷ ps) t i = refl

pub mode_cases : (m : PolicyMode) → (m ≡ dangerous) ⊎ (m ≡ PolicyMode.ask) ⊎ (m ≡ restrict)
mode_cases dangerous = inl refl
mode_cases PolicyMode.ask = inr (inl refl)
mode_cases restrict = inr (inr refl)

test_false :
    (t : ToolType) (i : Text) (ps : List Text)
    → ¬ Listed t i ps
    → matches_any_typed ps (as_str t) i ≡ false
test_false t i ps n = elim (in_or_out t i ps) [ inl (l, _) ↦ absurd (n l) | inr (_, e) ↦ e ]

check_complete :
    (p : ToolPolicy) (t : ToolType) (i : Text) {d : PolicyDecision}
    → Decides p t i d
    → check p t i ≡ d
unfolding check
check_complete p t i (Decides.denied l) = rw (deny_test p.deny (as_str t) i, Listed-complete t i l)
check_complete p t i (Decides.trusted n m) =
    rw (deny_test p.deny (as_str t) i, test_false t i p.deny n, m)
check_complete p t i (Decides.listed n l) = elim (mode_cases p.mode) [
  | inl m ↦ rw (deny_test p.deny (as_str t) i, test_false t i p.deny n, m)
  | inr (inl m) ↦
      rw (deny_test p.deny (as_str t) i, test_false t i p.deny n, m, Listed-complete t i l)
  | inr (inr m) ↦
      rw (deny_test p.deny (as_str t) i, test_false t i p.deny n, m, Listed-complete t i l)
]
check_complete p t i (Decides.unlisted n m k) =
    rw (deny_test p.deny (as_str t) i, test_false t i p.deny n, m, test_false t i p.allow k)
check_complete p t i (Decides.asked n m k) =
    rw (deny_test p.deny (as_str t) i, test_false t i p.deny n, m, test_false t i p.allow k)

decided :
    (p : ToolPolicy) (t : ToolType) (i : Text) {d : PolicyDecision}
    → Decides p t i d
    → Decides p t i (check p t i)
decided p t i k = subst (λ d. Decides p t i d) (sym (check_complete p t i k)) k

check_sound : (p : ToolPolicy) (t : ToolType) (i : Text) → Decides p t i (check p t i)
check_sound p t i = elim (in_or_out t i p.deny) [
  | inl (l, _) ↦ decided p t i (Decides.denied l)
  | inr (n, _) ↦ elim (mode_cases p.mode) [
    | inl m ↦ decided p t i (Decides.trusted n m)
    | inr (inl m) ↦ elim (in_or_out t i p.allow) [
      | inl (l, _) ↦ decided p t i (Decides.listed n l)
      | inr (k, _) ↦ decided p t i (Decides.asked n m k)
    ]
    | inr (inr m) ↦ elim (in_or_out t i p.allow) [
      | inl (l, _) ↦ decided p t i (Decides.listed n l)
      | inr (k, _) ↦ decided p t i (Decides.unlisted n m k)
    ]
  ]
]

-- The decision of `check` is the one that the description gives: a listed denial comes first in every
-- mode, then what the mode trusts or the allow list has is allowed, and the rest is denied or asked about.
pub check_iff :
    (p : ToolPolicy) (t : ToolType) (i : Text) (d : PolicyDecision)
    → (check p t i ≡ d) ↔ Decides p t i d
check_iff p t i d = (λ e. subst (λ x. Decides p t i x) e (check_sound p t i), check_complete p t i)

pub allow_inv :
    {p : ToolPolicy} {t : ToolType} {i : Text}
    → Decides p t i PolicyDecision.allow
    → ¬ Listed t i p.deny × ((p.mode ≡ dangerous) ⊎ Listed t i p.allow)
allow_inv (Decides.trusted n m) = (n, inl m)
allow_inv (Decides.listed n l) = (n, inr l)
