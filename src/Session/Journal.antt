-- ===== src/Session/Journal.antt =====
-- Events with consecutive numbers, and the part of them after a sequence number: the order of
-- events.jsonl and of the actor's queue.
use agnx.Common.{
  some, none, ℕ, ◌+◌, ◌≤◌, ◌≡◌, refl, ap, ◌∙◌, List, [], ◌∷◌, ◌++◌, map, arith, ltb, last?, length,
  retain, lt→ltb, le→ltb, Bool-cases, inl, inr, ltb→lt,
}
use agnx.Session.Event.{SessionEvent}
use agnx.Session.Store.{unfinished, Line, entry, malformed, blank, events_after, retained_lines}
use agnx.Session.Persist.{seq_of_last}

module _ {V : Type 0} where
  abbrev pub after : ℕ → List (SessionEvent V) → List (SessionEvent V)
  after seq = retain (λ e. ltb seq e.seq)

  -- The events of the log, in its order.
  abbrev pub entries : List (Line V) → List (SessionEvent V)
  entries [] = []
  entries (entry e ∷ lines) = e ∷ entries lines
  entries (unfinished none ∷ lines) = entries lines
  entries (unfinished (some e) ∷ lines) = e ∷ entries lines
  entries (malformed _ ∷ lines) = entries lines
  entries (blank ∷ lines) = entries lines

  -- The numbers n + 1, …, m, in this order.
  abbrev pub Numbered : ℕ → List (SessionEvent V) → ℕ → Type 0
  Numbered n [] m = n ≡ m
  Numbered n (e ∷ es) m = (e.seq ≡ n + 1) × Numbered (n + 1) es m

  pub Numbered-le : (n m : ℕ) (es : List (SessionEvent V)) → Numbered n es m → n ≤ m
  Numbered-le n m [] h = omega arith
  Numbered-le n m (e ∷ es) h = omega (arith, Numbered-le (n + 1) m es h.1)

  pub Numbered-append :
      (n k m : ℕ) (es fs : List (SessionEvent V))
      → Numbered n es k
      → Numbered k fs m
      → Numbered n (es ++ fs) m
  Numbered-append n k m [] fs h g = rw h g
  Numbered-append n k m (e ∷ es) fs h g = (h.0, Numbered-append (n + 1) k m es fs h.1 g)

  -- The length of a numbered list is the distance of its ends.
  pub Numbered-length : (n m : ℕ) (es : List (SessionEvent V)) → Numbered n es m → n + length es ≡ m
  Numbered-length n m [] h = omega arith
  Numbered-length n m (e ∷ es) h = omega (arith, Numbered-length (n + 1) m es h.1)

  pub after_all :
      (n m c : ℕ) (es : List (SessionEvent V)) → Numbered n es m → c ≤ n → after c es ≡ es
  after_all n m c [] h l = refl
  after_all n m c (e ∷ es) h l =
      rw (lt→ltb c e.seq (omega arith))
        (ap (λ l. e ∷ l) (after_all (n + 1) m c es h.1 (omega arith)))

  pub after_none :
      (n m c : ℕ) (es : List (SessionEvent V)) → Numbered n es m → m ≤ c → after c es ≡ []
  after_none n m c [] h l = refl
  after_none n m c (e ∷ es) h l =
      rw (le→ltb c e.seq (omega (arith, Numbered-le (n + 1) m es h.1)))
        (after_none (n + 1) m c es h.1 l)

  -- What comes after `c` is numbered from `c` on.
  pub Numbered-after :
      (n m c : ℕ) (es : List (SessionEvent V))
      → Numbered n es m
      → n ≤ c
      → c ≤ m
      → Numbered c (after c es) m
  Numbered-after n m c [] h l k = omega arith
  Numbered-after n m c (e ∷ es) h l k = elim (Bool-cases (ltb c e.seq)) [
    | inl t ↦
        let q : c ≡ n = omega (arith, ltb→lt c e.seq t) in
        rw (t, after_all (n + 1) m c es h.1 (omega arith), q) h
    | inr f ↦ rw f (Numbered-after (n + 1) m c es h.1 (ground arith) k)
  ]

  -- Whatever the default is: the list is not empty.
  pub seq_of_last-Numbered :
      (n m d : ℕ) (e : SessionEvent V) (es : List (SessionEvent V))
      → Numbered n (e ∷ es) m
      → seq_of_last d (last? (e ∷ es)) ≡ m
  seq_of_last-Numbered n m d e [] h = h.0 ∙ h.1
  seq_of_last-Numbered n m d e (f ∷ es) h = seq_of_last-Numbered (n + 1) m d f es h.1

  pub after-after :
      (c k : ℕ) (es : List (SessionEvent V)) → c ≤ k → after k (after c es) ≡ after k es
  after-after c k [] l = refl
  after-after c k (e ∷ es) l = ground (arith, after-after c k es)

  pub entries-append : (xs ys : List (Line V)) → entries (xs ++ ys) ≡ entries xs ++ entries ys
  entries-append [] ys = refl
  entries-append (entry e ∷ xs) ys = ap (λ l. e ∷ l) (entries-append xs ys)
  entries-append (unfinished none ∷ xs) ys = entries-append xs ys
  entries-append (unfinished (some e) ∷ xs) ys = ap (λ l. e ∷ l) (entries-append xs ys)
  entries-append (malformed t ∷ xs) ys = entries-append xs ys
  entries-append (blank ∷ xs) ys = entries-append xs ys

  pub entries-map-entry : (es : List (SessionEvent V)) → entries (map entry es) ≡ es
  entries-map-entry [] = refl
  entries-map-entry (e ∷ es) = ap (λ l. e ∷ l) (entries-map-entry es)

  -- What `load_events` returns, and what `compact_events` keeps.
  pub events_after-eq-after :
      (c : ℕ) (lines : List (Line V)) → events_after c lines ≡ after c (entries lines)
  unfolding events_after
  events_after-eq-after c [] = refl
  events_after-eq-after c (entry e ∷ xs) = rw (events_after-eq-after c xs)
  events_after-eq-after c (unfinished none ∷ xs) = events_after-eq-after c xs
  events_after-eq-after c (unfinished (some e) ∷ xs) = rw (events_after-eq-after c xs)
  events_after-eq-after c (malformed t ∷ xs) = events_after-eq-after c xs
  events_after-eq-after c (blank ∷ xs) = events_after-eq-after c xs

  pub entries-retained_lines :
      (c : ℕ) (lines : List (Line V)) → entries (retained_lines c lines) ≡ after c (entries lines)
  unfolding retained_lines
  entries-retained_lines c [] = refl
  entries-retained_lines c (entry e ∷ xs) = ground (arith, entries-retained_lines c xs)
  entries-retained_lines c (unfinished none ∷ xs) = entries-retained_lines c xs
  entries-retained_lines c (unfinished (some e) ∷ xs) = ground (arith, entries-retained_lines c xs)
  entries-retained_lines c (malformed t ∷ xs) = entries-retained_lines c xs
  entries-retained_lines c (blank ∷ xs) = entries-retained_lines c xs
