-- ===== src/ChatSessions/Agreement.antt =====
-- What callers of `get_or_insert_with` in crates/duragent/src/session/chat_session_cache.rs are told.
use agnx.Common.{
  true, refl, ◌⊎◌, text_eq_refl, ◌≡◌, inl, inr, Bool, some, Result, ok, err, Text, Option-cases, ap,
  not, [], ◌∷◌, arith, text_eq, retain, Bool-cases,
}
use agnx.ChatSessions.{
  remove_by_session_id, get, Cache, key, lookup, remove, put, create, get_or_insert_with,
}

lookup-put : (k v : Text) (c : Cache) → lookup k (put k v c) ≡ some v
unfolding lookup put
lookup-put k v c = rw (text_eq_refl k)

lookup_removed :
    (k id : Text) (c : Cache) → ¬ (lookup k (retain (λ (k, v). not (text_eq v id)) c) ≡ some id)
unfolding lookup
lookup_removed k id [] h = cc
lookup_removed k id ((j, v) ∷ c) h = elim (Bool-cases (text_eq v id)) [
  | inl e ↦ lookup_removed k id c (rw e at h)
  | inr e ↦ elim (Bool-cases (text_eq j k)) [
    | inl f ↦
        let q : some v ≡ some id = rw (e, f) at h in
        let v_id : v ≡ id = cc in ground (arith, e, text_eq_refl id, ap (λ x. text_eq x id) v_id)
    | inr f ↦ lookup_removed k id c (rw (e, f) at h)
  ]
]

module _ {E : Type 0} where
  -- An answer is what the cache holds afterwards.
  abbrev pub Agrees : Text → Result Text E × Cache → Type 0
  Agrees k (ok session_id, c) = lookup k c ≡ some session_id
  Agrees k (err e, c) = Unit

  create-Agrees :
      (k : Text) (r : Result Text E) (others : Cache → Cache) (c : Cache)
      → Agrees k (create k r others c)
  unfolding create
  create-Agrees k (err e) others c = tt
  create-Agrees k (ok id) others c = elim (Option-cases (lookup k (others c))) [
    | inl e ↦ rw (create, e) (lookup-put k id (others c))
    | inr (x, e) ↦ rw (create, e) e
  ]

  -- The session that a call found in `c` is given out, with what other tasks made of the cache.
  abbrev pub GivesCached :
      Text → (Text → Bool) → (Cache → Cache) → Cache → Result Text E × Cache → Type 0
  GivesCached k validator meanwhile c r =
      (id : Text) × (lookup k c ≡ some id) × (validator id ≡ true) × (r ≡ (ok id, meanwhile c))

  -- Whatever other tasks do in between, a call that gives out a session gives out the one that the
  -- cache had at the lookup, if the validator accepts it, and then changes nothing itself, or else the
  -- one that the cache has afterwards.
  pub get_or_insert_with-Agrees :
      (g c a : Text) (validator : Text → Bool) (created : Result Text E)
      (meanwhile others : Cache → Cache) (cache : Cache)
      → GivesCached
          (key g c a)
          validator
          meanwhile
          cache
          (get_or_insert_with g c a validator created meanwhile others cache)
        ⊎ Agrees (key g c a) (get_or_insert_with g c a validator created meanwhile others cache)
  unfolding get_or_insert_with
  get_or_insert_with-Agrees g c a validator created meanwhile others cache =
      let k = key g c a in
      elim (Option-cases (lookup k cache)) [
        | inl e ↦ inr (rw (get_or_insert_with, e) (create-Agrees k created others cache))
        | inr (x, e) ↦ elim (Bool-cases (validator x)) [
          | inl v ↦ inl (rw (get_or_insert_with, e, v) (x, refl, v, refl))
          | inr v ↦ inr (
              rw (get_or_insert_with, e, v)
                (create-Agrees k created others (remove k (meanwhile cache))))
        ]
      ]

-- After `remove_by_session_id` no chat leads to the removed session.
get-remove_by_session_id :
    (g c a id : Text) (cache : Cache) → ¬ (get g c a (remove_by_session_id id cache) ≡ some id)
unfolding get remove_by_session_id
get-remove_by_session_id g c a id cache = lookup_removed (key g c a) id cache
