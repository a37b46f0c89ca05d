-- ===== src/Access/Disposition.antt =====
-- The loop over the overrides in `resolve_sender_disposition` of
-- crates/duragent/src/agent/access_eval.rs.
use mathlib.Core.List.{Memᴰ}
use agnx.Common.{
  text_eq_refl, ltb→lt, ℕ, ◌≤◌, ◌≡◌, Bool, true, false, ◌&&◌, Option, none, some, List, length,
  Text, sym, ap, ◌⊎◌, inl, inr, [], ◌∷◌, text_eq, text_eq→≡, Bool-cases, refl, ◌∙◌, arith, ltb,
}
use agnx.Access.{best_of, better, SenderDisposition, matches_pattern, contains_star, get}

abbrev pub Overrides : Type 0
Overrides = List (Text × SenderDisposition)

-- No two entries of the map have the same key.
abbrev pub AreUnique : List (Text × SenderDisposition) → Type 0
AreUnique m = (p : Text) (d e : SenderDisposition) → Memᴰ (p, d) m → Memᴰ (p, e) m → d ≡ e

-- The override is a wildcard for the sender.
abbrev pub applies : Text → Text → Bool
applies id p = contains_star p && matches_pattern p id

pub get_in :
    (id : Text) (m : Overrides) (d : SenderDisposition) → get id m ≡ some d → Memᴰ (id, d) m
unfolding get
get_in id [] d h = cc
get_in id ((j, e) ∷ m) d h = elim (Bool-cases (text_eq j id)) [
  | inl q ↦
      let k : some e ≡ some d = rw (q, get) at h in
      let j_id = text_eq→≡ j id q in
      let same : ◌≡◌ {A = Text × SenderDisposition} (id, d) (j, e) = cc in Memᴰ.head same
  | inr q ↦ Memᴰ.tail (get_in id m d (rw (q, get) at h))
]

pub get-none :
    (id : Text) (m : Overrides) (d : SenderDisposition) → get id m ≡ none → ¬ Memᴰ (id, d) m
unfolding get
get-none id [] d h k = elim k [ ]
get-none id (j ∷ m) d h (Memᴰ.head q) =
    let k : text_eq j.0 id ≡ true = rw (sym (ap (λ o. o.0) q)) (text_eq_refl id) in
    let n : ◌≡◌ {A = Option SenderDisposition} (some j.1) none = rw (k, get) at h in cc
get-none id (j ∷ m) d h (Memᴰ.tail k) = elim (Bool-cases (text_eq j.0 id)) [
  | inl q ↦ let n : ◌≡◌ {A = Option SenderDisposition} (some j.1) none = rw (q, get) at h in cc
  | inr q ↦ get-none id m d (rw (q, get) at h) k
]

-- The best candidate is the longest wildcard for the sender among the overrides in `P`.
pub data IsBest (id : Text) (P : Text × SenderDisposition → Type 0)
    : Option (ℕ × SenderDisposition) → Type 0 where
  nothing : ((o : Text × SenderDisposition) → P o → applies id o.0 ≡ false) → IsBest id P none
  longest :
      (p : Text) (d : SenderDisposition)
      → P (p, d)
      → applies id p ≡ true
      → ((o : Text × SenderDisposition) → P o → applies id o.0 ≡ true → length o.0 ≤ length p)
      → IsBest id P (some (length p, d))

pub differ : {b : Bool} → b ≡ false → b ≡ true → ⊥
differ e k = ground (arith, e, k)

module _ (id : Text) where
  pub IsBest-map :
      {P Q : Text × SenderDisposition → Type 0} {b : Option (ℕ × SenderDisposition)}
      → ((o : Text × SenderDisposition) → P o → Q o)
      → ((o : Text × SenderDisposition) → Q o → P o)
      → IsBest id P b
      → IsBest id Q b
  IsBest-map f g (IsBest.nothing h) = IsBest.nothing (λ o q. h o (g o q))
  IsBest-map f g (IsBest.longest p d m a h) = IsBest.longest p d (f (p, d) m) a (λ o q. h o (g o q))

  better-IsBest :
      {P : Text × SenderDisposition → Type 0} (o : Text × SenderDisposition)
      {b : Option (ℕ × SenderDisposition)}
      → IsBest id P b
      → IsBest id (λ x. P x ⊎ (x ≡ o)) (better id o b)
  unfolding better
  better-IsBest (q, e) (IsBest.nothing h) = elim (Bool-cases (applies id q)) [
    | inl a ↦ rw a (
        IsBest.longest q e (inr refl) a (λ o m k. elim m [
          | inl x ↦ absurd (differ (h o x) k)
          | inr x ↦ omega (arith, ap (λ o. length o.0) x)
        ]))
    | inr a ↦ rw a (IsBest.nothing (λ o m. elim m [ inl x ↦ h o x | inr x ↦ rw x a ]))
  ]
  better-IsBest (q, e) (IsBest.longest p d m a h) = elim (Bool-cases (applies id q)) [
    | inr n ↦ rw n (
        IsBest.longest p d (inl m) a (λ o k l. elim k [
          | inl x ↦ h o x l
          | inr x ↦ absurd (differ n (ap (λ o. applies id o.0) (sym x) ∙ l))
        ]))
    | inl n ↦ rw n (elim (Bool-cases (ltb (length p) (length q))) [
      | inl t ↦ rw t (
          IsBest.longest q e (inr refl) n (λ o k l. elim k [
            | inl x ↦ omega (arith, h o x l, ltb→lt (length p) (length q) t)
            | inr x ↦ omega (arith, ap (λ o. length o.0) x)
          ]))
      | inr t ↦ rw t (
          IsBest.longest p d (inl m) a (λ o k l. elim k [
            | inl x ↦ h o x l
            | inr x ↦ ground (arith, t, ap (λ o. length o.0) x)
          ]))
    ])
  ]

  pub best_of-IsBest :
      (os : Overrides) {P : Text × SenderDisposition → Type 0} {b : Option (ℕ × SenderDisposition)}
      → IsBest id P b
      → IsBest id (λ x. P x ⊎ Memᴰ x os) (best_of id b os)
  unfolding best_of
  best_of-IsBest [] k =
      IsBest-map (λ o m. inl m) (λ o m. elim m [ inl x ↦ x | inr y ↦ absurd (elim y [ ]) ]) k
  best_of-IsBest (o ∷ os) k =
      IsBest-map
        (λ x m. elim m [
          | inl (inl y) ↦ inl y
          | inl (inr e) ↦ inr (Memᴰ.head e)
          | inr y ↦ inr (Memᴰ.tail y)
        ])
        (λ x m. elim m [
          | inl y ↦ inl (inl y)
          | inr (Memᴰ.head e) ↦ inl (inr e)
          | inr (Memᴰ.tail y) ↦ inr y
        ])
        (best_of-IsBest os (better-IsBest o k))
