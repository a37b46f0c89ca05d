-- ===== src/Common/Texts.antt =====
-- Text as the list of its code points, for the code that searches and splits it.
use Prim.Native.Nat.{ℕ}
use Prim.Native.Char.{code}
use Prim.Native.String.{String}
use mathlib.Core.Path.{◌≡◌, refl}
use mathlib.Core.Logic.{inl, inr}
use mathlib.Core.Bool.{Bool, true, false}
use mathlib.Core.Option.{Option, none, some}
use mathlib.Core.List.{List, [], ◌∷◌, ◌++◌}
use native.Mathlib.Omega.{arith}
use agnx.Common.Tests.{Bool-cases, ◌==◌, if◌then◌else◌}

abbrev pub Text : Type 0
Text = List ℕ

abbrev pub codes : String → Text
codes String.[] = []
codes (String.◌∷◌ c s) = code c ∷ codes s

abbrev pub text_eq : Text → Text → Bool
text_eq [] [] = true
text_eq (x ∷ xs) (y ∷ ys) = if x == y then text_eq xs ys else false
text_eq _ _ = false

pub text_eq_refl : (s : Text) → text_eq s s ≡ true
text_eq_refl [] = refl
text_eq_refl (x ∷ xs) = ground (arith, text_eq_refl xs)

pub text_eq→≡ : (s t : Text) → text_eq s t ≡ true → s ≡ t
text_eq→≡ [] [] h = refl
text_eq→≡ [] (y ∷ ys) h = cc
text_eq→≡ (x ∷ xs) [] h = cc
text_eq→≡ (x ∷ xs) (y ∷ ys) h = ground (arith, text_eq→≡ xs ys)

-- `strip_prefix`: the text after `p`, if it starts with `p`.
abbrev pub strip_prefix : Text → Text → Option Text
strip_prefix [] s = some s
strip_prefix (c ∷ p) [] = none
strip_prefix (c ∷ p) (d ∷ s) = if c == d then strip_prefix p s else none

pub strip_prefix-append : (p s : Text) → strip_prefix p (p ++ s) ≡ some s
strip_prefix-append [] s = refl
strip_prefix-append (c ∷ p) s = ground (arith, strip_prefix-append p s)

pub strip_prefix→≡ : (p s r : Text) → strip_prefix p s ≡ some r → s ≡ p ++ r
strip_prefix→≡ [] s r h = cc
strip_prefix→≡ (c ∷ p) [] r h = cc
strip_prefix→≡ (c ∷ p) (d ∷ s) r h = ground (arith, strip_prefix→≡ p s r)

-- `split(d)`, whose result is never empty
abbrev pub extend : ℕ → List Text → List Text
extend c [] = (c ∷ []) ∷ []
extend c (p ∷ ps) = (c ∷ p) ∷ ps

unfoldable pub split : ℕ → Text → List Text
split d [] = [] ∷ []
split d (c ∷ s) = let rest = split d s in if c == d then [] ∷ rest else extend c rest

-- `split_once(d)`
unfoldable pub split_once : ℕ → Text → Option (Text × Text)
split_once d [] = none
split_once d (c ∷ s) =
    let rest = split_once d s in
    if c == d then some ([], s) else elim rest [ none ↦ none | some (a, b) ↦ some (c ∷ a, b) ]

pub split_nonempty : (d : ℕ) (s : Text) → (p : Text) × (ps : List Text) × (split d s ≡ p ∷ ps)
unfolding split
split_nonempty d [] = ([], [], refl)
split_nonempty d (c ∷ s) =
    let (p, ps, e) = split_nonempty d s in
    elim (Bool-cases (c == d)) [ inl q ↦ ([], split d s, rw q) | inr q ↦ (c ∷ p, ps, rw (q, e)) ]
