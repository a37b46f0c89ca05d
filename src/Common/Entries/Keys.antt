-- ===== src/Common/Entries/Keys.antt =====
-- Maps with texts as keys, no key twice, and how many keys they have.
use agnx.Common.Entries.{insert, lookup_entry, remove_entry, lookup-insert, lookup-remove}
use agnx.Common.{
  suc, ◌≤◌, String, ◌≡◌, refl, subst, inl, inr, false, none, some, List, [], ◌∷◌, arith, str_eq,
  eq_iff, length, Bool-cases,
}

module _ {V : Type 0} where
  -- No key stands in it twice.
  abbrev pub Unique : List (String × V) → Type 0
  Unique [] = Unit
  Unique ((k, v) ∷ m) = (lookup_entry k m ≡ none) × Unique m

  abbrev pub Has : String → List (String × V) → Type 0
  Has k m = (v : V) × (lookup_entry k m ≡ some v)

  missing-insert :
      (j k : String) (v : V) (m : List (String × V))
      → lookup_entry j m ≡ none
      → str_eq k j ≡ false
      → lookup_entry j (insert k v m) ≡ none
  missing-insert j k v m h e = rw (lookup-insert k j v m, e) h

  pub insert-Unique :
      (k : String) (v : V) (m : List (String × V)) → Unique m → Unique (insert k v m)
  unfolding insert lookup_entry
  insert-Unique k v [] u = (refl, tt)
  insert-Unique k v ((j, w) ∷ m) (n, u) = elim (Bool-cases (str_eq j k)) [
    | inl e ↦ rw e (subst (λ x. lookup_entry x m ≡ none) ((eq_iff j k).0 e) n, u)
    | inr e ↦ rw e (
      missing-insert j k v m n (ground (arith, e, eq_iff j k, eq_iff k j)),
      insert-Unique k v m u,
    )
  ]

  remove-Unique : (k : String) (m : List (String × V)) → Unique m → Unique (remove_entry k m)
  unfolding remove_entry
  remove-Unique k [] u = tt
  remove-Unique k ((j, w) ∷ m) (n, u) = elim (Bool-cases (str_eq j k)) [
    | inl e ↦ rw e (remove-Unique k m u)
    | inr e ↦ rw e (ground (arith, n, lookup-remove k j m), remove-Unique k m u)
  ]

  remove_missing :
      (k : String) (m : List (String × V)) → lookup_entry k m ≡ none → remove_entry k m ≡ m
  unfolding remove_entry lookup_entry
  remove_missing k [] h = refl
  remove_missing k ((j, w) ∷ m) h = elim (Bool-cases (str_eq j k)) [
    | inl e ↦ let h' : some w ≡ none = rw e at h in absurd (ground (arith, h'))
    | inr e ↦ let h' : lookup_entry k m ≡ none = rw e at h in rw (e, remove_missing k m h') refl
  ]

  length-remove :
      (k : String) (m : List (String × V))
      → Unique m
      → Has k m
      → length m ≡ suc (length (remove_entry k m))
  unfolding remove_entry lookup_entry
  length-remove k [] u (v, h) = absurd (ground (arith, h))
  length-remove k ((j, w) ∷ m) (n, u) (v, h) = elim (Bool-cases (str_eq j k)) [
    | inl e ↦
        let n' : lookup_entry k m ≡ none =
          subst (λ i. lookup_entry i m ≡ none) ((eq_iff j k).0 e) n in
        rw (e, remove_missing k m n') refl
    | inr e ↦
        let h' : lookup_entry k m ≡ some v = rw e at h in rw (e, length-remove k m u (v, h')) refl
  ]

  pub has_tail :
      (j i : String) (v z : V) (a : List (String × V))
      → lookup_entry j a ≡ none
      → lookup_entry i a ≡ some z
      → (str_eq j i ≡ false) × (lookup_entry i ((j, v) ∷ a) ≡ some z)
  unfolding lookup_entry
  has_tail j i v z a n h = elim (Bool-cases (str_eq j i)) [
    | inl e ↦
        let n' : lookup_entry i a ≡ none =
          subst (λ x. lookup_entry x a ≡ none) ((eq_iff j i).0 e) n in
        absurd (ground (arith, n', h))
    | inr e ↦ (e, rw e h)
  ]

  has_rest :
      (j i : String) (z : V) (b : List (String × V))
      → str_eq j i ≡ false
      → lookup_entry i b ≡ some z
      → lookup_entry i (remove_entry j b) ≡ some z
  has_rest j i z b e h = rw (lookup-remove j i b, e) h

  rest-Has :
      (j : String) (v : V) (a b : List (String × V))
      → lookup_entry j a ≡ none
      → ((k : String) → Has k ((j, v) ∷ a) → Has k b)
      → (i : String) → Has i a
      → Has i (remove_entry j b)
  rest-Has j v a b n f i (z, g) =
      let (d, g') = has_tail j i v z a n g in let (y, q) = f i (z, g') in (y, has_rest j i y b d q)

  -- A map with as many keys as another one that has all of them has all the other's keys.
  pub as_many :
      (a b : List (String × V))
      → Unique a
      → Unique b
      → length a ≡ length b
      → ((k : String) → Has k a → Has k b)
      → (k : String) → Has k b
      → Has k a
  unfolding lookup_entry
  as_many [] [] u w e f k h = h
  as_many [] (x ∷ b) u w e f k h = absurd (ground (arith, e))
  as_many ((j, v) ∷ a) b (n, u) w e f k (x, h) = elim (Bool-cases (str_eq j k)) [
    | inl s ↦ (v, rw s refl)
    | inr s ↦
        let l = length-remove j b w (f j (v, ground (arith, eq_iff j j))) in
        let (y, g) =
          as_many a (remove_entry j b) u (remove-Unique j b w) (ground (arith, e, l))
            (rest-Has j v a b n f) k (x, has_rest j k x b s h) in
        (y, rw s g)
  ]

  pub at_most :
      (a b : List (String × V))
      → Unique a
      → Unique b
      → ((k : String) → Has k a → Has k b)
      → length a ≤ length b
  unfolding lookup_entry
  at_most [] b u w f = omega arith
  at_most ((j, v) ∷ a) b (n, u) w f =
      let l = length-remove j b w (f j (v, ground (arith, eq_iff j j))) in
      let m = at_most a (remove_entry j b) u (remove-Unique j b w) (rest-Has j v a b n f) in
      ground (arith, l, m)
