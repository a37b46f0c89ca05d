-- ===== src/Access/Order.antt =====
-- A description of `resolve_sender_disposition` (crates/duragent/src/agent/access_eval.rs), and
-- the order of the overrides.
use agnx.Common.{
  take-length_append, take, ◌-◌, ◌≤◌, ◌≡◌, ◌⊎◌, inl, inr, true, false, none, some, [], ◌∷◌, ◌++◌,
  arith, length, Text, Option-cases, sym, ap, ◌∙◌, Bool, ◌&&◌, text_eq→≡, strip_prefix,
  strip_prefix→≡, length-append, ℕ, subst, ◌↔◌, Option,
}
use mathlib.Core.List.{Memᴰ}
use agnx.Access.{
  resolve_sender_disposition, contains_star, GroupAccessConfig, SenderDisposition, star, strip_star,
  starts_with, matches_pattern, get, best_of,
}
use agnx.Access.Disposition.{
  differ, AreUnique, get-none, get_in, Overrides, applies, IsBest, IsBest-map, best_of-IsBest,
}

-- The entry for the sender itself decides, then the longest wildcard for it, then the default.
pub data Resolves (g : GroupAccessConfig) (id : Text) : SenderDisposition → Type 0 where
  exact : (d : SenderDisposition) → Memᴰ (id, d) g.sender_overrides → Resolves g id d
  wildcard :
      (p : Text) (d : SenderDisposition)
      → get id g.sender_overrides ≡ none
      → Memᴰ (p, d) g.sender_overrides
      → applies id p ≡ true
      → ((o : Text × SenderDisposition)
          → Memᴰ o g.sender_overrides
          → applies id o.0 ≡ true
          → length o.0 ≤ length p)
      → Resolves g id d
  default :
      get id g.sender_overrides ≡ none
      → ((o : Text × SenderDisposition) → Memᴰ o g.sender_overrides → applies id o.0 ≡ false)
      → Resolves g id g.sender_default

all-IsBest : (id : Text) (m : Overrides) → IsBest id (λ o. Memᴰ o m) (best_of id none m)
all-IsBest id m =
    IsBest-map id (λ o k. elim k [ inl x ↦ absurd x | inr y ↦ y ]) (λ o k. inr k)
      (best_of-IsBest id m {P = λ o. ⊥} (IsBest.nothing (λ o x. absurd x)))

strip_star→≡ : (s a : Text) → strip_star s ≡ some a → s ≡ a ++ star ∷ []
unfolding strip_star
strip_star→≡ [] a h = cc
strip_star→≡ (c ∷ []) a h = ground (arith, h)
strip_star→≡ (c ∷ d ∷ s) a h = elim (Option-cases (strip_star (d ∷ s))) [
  | inl e ↦ absurd (ground (arith, (rw (e, strip_star) at h)))
  | inr (b, e) ↦
      let k : some (c ∷ b) ≡ some a = rw (e, strip_star) at h in
      let j : c ∷ b ≡ a = cc in
      ap (λ l. c ∷ l) (strip_star→≡ (d ∷ s) b e) ∙ ap (λ l. l ++ star ∷ []) j
]

and_left : (a b : Bool) → (a && b) ≡ true → b ≡ true
and_left a b h = ground (arith, h)

-- A wildcard that applies, and is not the sender itself, is determined by its length.
shape : (id p : Text) → applies id p ≡ true → (p ≡ id) ⊎ (p ≡ take (length p - 1) id ++ star ∷ [])
unfolding matches_pattern starts_with
shape id p h = elim (Option-cases (strip_star p)) [
  | inl e ↦ inl (text_eq→≡ p id (rw (e, matches_pattern) at (and_left _ (matches_pattern p id) h)))
  | inr (a, e) ↦
      let m : starts_with a id ≡ true =
        rw (e, matches_pattern) at (and_left (contains_star p) (matches_pattern p id) h) in
      elim (Option-cases (strip_prefix a id)) [
        | inl n ↦ absurd (ground (arith, (rw (n, starts_with) at m)))
        | inr (r, n) ↦
            let q = strip_star→≡ p a e in
            let k : length p - 1 ≡ length a =
              omega (arith, ap length q, length-append a (star ∷ [])) in
            inr (
              q
              ∙ ap (λ l. l ++ star ∷ [])
                  (sym (
                    ap (λ l. take (length p - 1) l) (strip_prefix→≡ a id r n)
                    ∙ ap (λ i. take i (a ++ r)) k
                    ∙ take-length_append a r)))
      ]
]

same_shape :
    (id p q : Text)
    → ¬ (p ≡ id)
    → ¬ (q ≡ id)
    → applies id p ≡ true
    → applies id q ≡ true
    → length p ≡ length q
    → p ≡ q
same_shape id p q np nq hp hq e = elim (shape id p hp) [
  | inl x ↦ absurd (np x)
  | inr x ↦ elim (shape id q hq) [
    | inl y ↦ absurd (nq y)
    | inr y ↦ x ∙ ap (λ n. take (n - 1) id ++ star ∷ []) e ∙ sym y
  ]
]

abbrev decided : GroupAccessConfig → Option (ℕ × SenderDisposition) → SenderDisposition
decided g b = elim b [ some (_, d) ↦ d | none ↦ g.sender_default ]

from_best :
    (g : GroupAccessConfig) (id : Text) {b : Option (ℕ × SenderDisposition)}
    → get id g.sender_overrides ≡ none
    → IsBest id (λ o. Memᴰ o g.sender_overrides) b
    → Resolves g id (decided g b)
from_best g id e (IsBest.nothing h) = Resolves.default e h
from_best g id e (IsBest.longest p d m a h) = Resolves.wildcard p d e m a h

-- The disposition of a sender is that of the entry for the sender itself, if there is one, then that of
-- a longest wildcard for the sender, and the default if there is none.
pub resolve-Resolves :
    (g : GroupAccessConfig) (id : Text) → Resolves g id (resolve_sender_disposition g id)
unfolding resolve_sender_disposition
resolve-Resolves g id = elim (Option-cases (get id g.sender_overrides)) [
  | inr (d, e) ↦
      rw (resolve_sender_disposition, e) (Resolves.exact d (get_in id g.sender_overrides d e))
  | inl e ↦ rw (resolve_sender_disposition, e) (from_best g id e (all-IsBest id g.sender_overrides))
]

-- The two maps have the same entries.
abbrev pub SameEntries : Overrides → Overrides → Type 0
SameEntries m n = (o : Text × SenderDisposition) → Memᴰ o m ↔ Memᴰ o n

not_sender :
    (id p : Text) (m : Overrides) (d : SenderDisposition)
    → get id m ≡ none
    → Memᴰ (p, d) m
    → ¬ (p ≡ id)
not_sender id p m d n k e = get-none id m d n (subst (λ q. Memᴰ (q, d) m) e k)

Resolves-unique :
    (g h : GroupAccessConfig) (id : Text) {d e : SenderDisposition}
    → g.sender_default ≡ h.sender_default
    → SameEntries g.sender_overrides h.sender_overrides
    → AreUnique h.sender_overrides
    → Resolves g id d
    → Resolves h id e
    → d ≡ e
Resolves-unique g h id q s u (Resolves.exact d m) (Resolves.exact e n) =
    u id d e ((s (id, d)).0 m) n
Resolves-unique g h id q s u (Resolves.exact d m) (Resolves.wildcard p e n _ _ _) =
    absurd (get-none id h.sender_overrides d n ((s (id, d)).0 m))
Resolves-unique g h id q s u (Resolves.exact d m) (Resolves.default n _) =
    absurd (get-none id h.sender_overrides d n ((s (id, d)).0 m))
Resolves-unique g h id q s u (Resolves.wildcard p d n _ _ _) (Resolves.exact e m) =
    absurd (get-none id g.sender_overrides e n ((s (id, e)).1 m))
Resolves-unique g h id q s u (Resolves.default n _) (Resolves.exact e m) =
    absurd (get-none id g.sender_overrides e n ((s (id, e)).1 m))
Resolves-unique g h id q s u (Resolves.wildcard p d n m a l) (Resolves.wildcard r e n' m' a' l') =
    let k =
      same_shape id p r (not_sender id p g.sender_overrides d n m)
        (not_sender id r h.sender_overrides e n' m') a a'
        (omega (arith, l (r, e) ((s (r, e)).1 m') a', l' (p, d) ((s (p, d)).0 m) a)) in
    u r d e (subst (λ x. Memᴰ (x, d) h.sender_overrides) k ((s (p, d)).0 m)) m'
Resolves-unique g h id q s u (Resolves.wildcard p d n m a l) (Resolves.default n' l') =
    absurd (differ (l' (p, d) ((s (p, d)).0 m)) a)
Resolves-unique g h id q s u (Resolves.default n l) (Resolves.wildcard p d n' m a l') =
    absurd (differ (l (p, d) ((s (p, d)).1 m)) a)
Resolves-unique g h id q s u (Resolves.default n l) (Resolves.default n' l') = q

-- The disposition does not depend on the order in which the map of overrides is iterated: two configurations
-- with the same default and the same entries, no two of them with the same key, give the same one.
pub resolve_order :
    (g h : GroupAccessConfig) (id : Text)
    → g.sender_default ≡ h.sender_default
    → SameEntries g.sender_overrides h.sender_overrides
    → AreUnique h.sender_overrides
    → resolve_sender_disposition g id ≡ resolve_sender_disposition h id
resolve_order g h id q s u =
    Resolves-unique g h id q s u (resolve-Resolves g id) (resolve-Resolves h id)
