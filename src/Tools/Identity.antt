-- ===== src/Tools/Identity.antt =====
-- When two calls agree on the arguments of a guard: `extract_identity` and the equality of two
-- `HashMap`s in crates/duragent/src/tools/hooks.rs.
use agnx.Tools.Hooks.{extract_identity, identity_eq, option_eq, extract}
use agnx.Common.Entries.{insert, lookup_entry, lookup-insert}
use agnx.Common.{
  String, ◌≡◌, refl, subst, inl, inr, true, false, Option, none, some, List, [], ◌∷◌, arith, str_eq,
  eq_iff, length, Bool-cases, Bool, any, All, Option-cases, sym, ap, ◌∙◌, ◌↔◌, ◌||◌, if◌then◌else◌,
  all, ◌⊎◌,
}
use agnx.Common.Entries.Keys.{Unique, Has, insert-Unique, has_tail, as_many, at_most}
use agnx.Tools.Json.{Json}

-- Two values that may be missing.
abbrev pub SameValue : {V : Type 0} → Json V → Option V → Option V → Type 0
SameValue json none none = Unit
SameValue json (some a) (some b) = json.eq a b ≡ true
SameValue json _ _ = ⊥

-- What a key leads to: the value of the arguments if the guard names it.
abbrev pub found : {V : Type 0} → Bool → Option V → Option V → Option V
found true (some v) old = some v
found true none old = old
found false val old = old

abbrev pub named : String → List String → Bool
named k keys = any (λ j. str_eq j k) keys

found-none : {V : Type 0} (b : Bool) (old : Option V) → found b none old ≡ old
found-none true old = refl
found-none false old = refl

found_same : {V : Type 0} (b : Bool) (v : V) → found b (some v) (some v) ≡ some v
found_same true v = refl
found_same false v = refl

All-named :
    (P : String → Type 0) (keys : List String)
    → ((k : String) → named k keys ≡ true → P k)
    → All P keys
All-named P [] f = tt
All-named P (j ∷ keys) f =
    (f j (ground (arith, eq_iff j j)), All-named P keys (λ k h. f k (ground (arith, h))))

at_named :
    (P : String → Type 0) (keys : List String) (k : String) → All P keys → named k keys ≡ true → P k
at_named P [] k a h = absurd (ground (arith, h))
at_named P (j ∷ keys) k (x, a) h = elim (Bool-cases (str_eq j k)) [
  | inl e ↦ subst P ((eq_iff j k).0 e) x
  | inr e ↦ at_named P keys k a (ground (arith, h, e))
]

module _ {V : Type 0} (json : Json V) where
  extract-Unique :
      (args : V) (keys : List String) (m : List (String × V))
      → Unique m
      → Unique (extract json args keys m)
  unfolding extract
  extract-Unique args [] m u = u
  extract-Unique args (k ∷ keys) m u = elim (Option-cases (json.get args k)) [
    | inl e ↦ rw e (extract-Unique args keys m u)
    | inr (v, e) ↦ rw e (extract-Unique args keys (insert k v m) (insert-Unique k v m u))
  ]

  lookup-extract :
      (args : V) (keys : List String) (m : List (String × V)) (k : String)
      → lookup_entry k (extract json args keys m)
        ≡ found (named k keys) (json.get args k) (lookup_entry k m)
  unfolding extract
  lookup-extract args [] m k = refl
  lookup-extract args (j ∷ keys) m k = elim (Option-cases (json.get args j)) [
    | inl e ↦ rw e (lookup-extract args keys m k ∙ skipped e (str_eq j k) refl)
    | inr (v, e) ↦ rw e (
        lookup-extract args keys (insert j v m) k
        ∙ (rw (lookup-insert j k v m) (taken v e (str_eq j k) refl)))
  ]
    where
      same : str_eq j k ≡ true → json.get args j ≡ json.get args k
      same h = ap (json.get args) ((eq_iff j k).0 h)

      skipped :
          json.get args j ≡ none
          → (b : Bool) → str_eq j k ≡ b
          → found (named k keys) (json.get args k) (lookup_entry k m)
            ≡ found (b || named k keys) (json.get args k) (lookup_entry k m)
      skipped e false h = refl
      skipped e true h = rw (sym (same h) ∙ e) (found-none (named k keys) _)

      taken :
          (v : V)
          → json.get args j ≡ some v
          → (b : Bool) → str_eq j k ≡ b
          → found (named k keys) (json.get args k) (if b then some v else lookup_entry k m)
            ≡ found (b || named k keys) (json.get args k) (lookup_entry k m)
      taken v e false h = refl
      taken v e true h = rw (sym (same h) ∙ e) (found_same (named k keys) v)

  -- The arguments of two calls have the same values under the keys, or miss the same of them.
  abbrev pub SameArguments : V → V → List String → Type 0
  SameArguments a b keys = All (λ k. SameValue json (json.get a k) (json.get b k)) keys

  pub option_eq_iff : (a b : Option V) → (option_eq json.eq a b ≡ true) ↔ SameValue json a b
  option_eq_iff none none = (λ h. tt, λ h. refl)
  option_eq_iff none (some b) = (λ h. absurd (ground (arith, h)), λ h. absurd h)
  option_eq_iff (some a) none = (λ h. absurd (ground (arith, h)), λ h. absurd h)
  option_eq_iff (some a) (some b) = (λ h. h, λ h. h)

  -- The values of the first map are in the second one.
  abbrev Within : List (String × V) → List (String × V) → Type 0
  Within a b =
      (k : String) (v : V) → lookup_entry k a ≡ some v → SameValue json (some v) (lookup_entry k b)

  all-Within :
      (a b : List (String × V))
      → all (λ (k, v). option_eq json.eq (some v) (lookup_entry k b)) a ≡ true
      → Within a b
  unfolding lookup_entry
  all-Within [] b h k v g = absurd (ground (arith, g))
  all-Within ((j, w) ∷ a) b h k v g = elim (Bool-cases (str_eq j k)) [
    | inl e ↦
        let g' : some w ≡ some v = rw e at g in
        let x : option_eq json.eq (some w) (lookup_entry j b) ≡ true = ground (arith, h) in
        subst (λ i. SameValue json (some v) (lookup_entry i b)) ((eq_iff j k).0 e)
          (subst (λ o. SameValue json o (lookup_entry j b)) g'
            ((option_eq_iff (some w) (lookup_entry j b)).0 x))
    | inr e ↦
        let g' : lookup_entry k a ≡ some v = rw e at g in all-Within a b (ground (arith, h)) k v g'
  ]

  Within-all :
      (a b : List (String × V))
      → Unique a
      → Within a b
      → all (λ (k, v). option_eq json.eq (some v) (lookup_entry k b)) a ≡ true
  unfolding lookup_entry
  Within-all [] b u h = refl
  Within-all ((j, w) ∷ a) b (n, u) h =
      let x = (option_eq_iff (some w) (lookup_entry j b)).1 (h j w (ground (arith, eq_iff j j))) in
      let y = Within-all a b u (λ k v g. let (d, g') = has_tail j k w v a n g in h k v g') in
      rw (x, y) refl

  there : (v : V) (o : Option V) → SameValue json (some v) o → (w : V) × (o ≡ some w)
  there v none h = absurd h
  there v (some w) h = (w, refl)

  module _ (a b : V) (keys : List String) where
    abbrev A : List (String × V)
    A = extract json a keys []

    abbrev B : List (String × V)
    B = extract json b keys []

    lookup-named :
        (args : V) (k : String)
        → named k keys ≡ true
        → lookup_entry k (extract json args keys []) ≡ json.get args k
    unfolding lookup_entry
    lookup-named args k n = lookup-extract args keys [] k ∙ (rw n (of (json.get args k)))
      where
        of : (o : Option V) → found true o (lookup_entry k []) ≡ o
        of none = refl
        of (some v) = refl

    named-has :
        (args : V) (k : String) (v : V)
        → lookup_entry k (extract json args keys []) ≡ some v
        → named k keys ≡ true
    unfolding lookup_entry
    named-has args k v h = elim (Bool-cases (named k keys)) [
      | inl e ↦ e
      | inr e ↦
          let h' : found (named k keys) (json.get args k) none ≡ some v =
            sym (lookup-extract args keys [] k) ∙ h in
          absurd (ground (arith, h', e))
    ]

    Within-SameArguments : length A ≡ length B → Within A B → SameArguments a b keys
    Within-SameArguments l w = All-named _ keys (λ k n. of k n (Option-cases (json.get a k)))
      where
        of :
            (k : String)
            → named k keys ≡ true
            → (json.get a k ≡ none) ⊎ ((v : V) × (json.get a k ≡ some v))
            → SameValue json (json.get a k) (json.get b k)
        of k n (inr (v, e)) = rw (e, ← (lookup-named b k n)) (w k v (lookup-named a k n ∙ e))
        of k n (inl e) = elim (Option-cases (json.get b k)) [
          | inl f ↦ rw (e, f) tt
          | inr (v, f) ↦
              let (x, g) =
                as_many A B (extract-Unique a keys [] tt) (extract-Unique b keys [] tt) l
                  (λ i (y, h). there y _ (w i y h)) k (v, lookup-named b k n ∙ f) in
              let g' : none ≡ some x = sym e ∙ sym (lookup-named a k n) ∙ g in
              absurd (ground (arith, g'))
        ]

    SameArguments-Within : SameArguments a b keys → Within A B
    SameArguments-Within s k v h =
        let n = named-has a k v h in
        let x = at_named _ keys k s n in
        rw (lookup-named b k n)
          (subst (λ o. SameValue json o (json.get b k)) (sym (lookup-named a k n) ∙ h) x)

    SameArguments-Has : SameArguments a b keys → (k : String) → Has k B → Has k A
    SameArguments-Has s k (v, h) =
        let n = named-has b k v h in
        let x : SameValue json (json.get a k) (some v) =
          subst (λ o. SameValue json (json.get a k) o) (sym (lookup-named b k n) ∙ h)
            (at_named _ keys k s n) in
        rw (lookup-named a k n) (of (json.get a k) v x)
      where
        of : (o : Option V) (v : V) → SameValue json o (some v) → (w : V) × (o ≡ some w)
        of none v h = absurd h
        of (some w) v h = (w, refl)

    pub identity_eq_iff :
        (identity_eq json (extract_identity json a keys) (extract_identity json b keys) ≡ true)
        ↔ SameArguments a b keys
    unfolding identity_eq extract_identity
    identity_eq_iff = (
      λ h. Within-SameArguments (ground (arith, h)) (all-Within A B (ground (arith, h))),
      λ s.
          let u = extract-Unique a keys [] tt in
          let w = extract-Unique b keys [] tt in
          let in_ = SameArguments-Within s in
          let l = at_most A B u w (λ i (y, h). there y _ (in_ i y h)) in
          let g = at_most B A w u (SameArguments-Has s) in
          let e = Within-all A B u in_ in
          let e' : length A ≡ length B = omega arith in ground (arith, e, e'),
    )
