-- ===== src/Session/Store/Finished.antt =====
-- Logs whose last line has its line end, and appends that fail without having written anything
-- (crates/duragent/src/store/file/session.rs).
use agnx.Common.{
  take, drop, length, append-nil, zero, suc, ◌≤◌, arith, ℕ, ◌≡◌, refl, ap, Bool, true, false,
  Option, none, some, List, [], ◌∷◌, ◌++◌, map, leb, All, if_both,
}
use agnx.Session.Event.{SessionEvent}
use agnx.Session.Store.{
  Line, entry, malformed, blank, unfinished, Failure, nothing, write_lines, write_after, partial,
  begin, retained_lines,
}

-- An append that fails has written nothing.
abbrev pub Clean : Option Failure → Type 0
Clean none = Unit
Clean (some f) = (f.whole ≡ 0) × (f.begun ≡ nothing)

module _ {V : Type 0} where
  abbrev is_unfinished : Line V → Bool
  is_unfinished (unfinished e) = true
  is_unfinished l = false

  abbrev pub ends_unfinished : List (Line V) → Bool
  ends_unfinished [] = false
  ends_unfinished (x ∷ []) = is_unfinished x
  ends_unfinished (x ∷ y ∷ xs) = ends_unfinished (y ∷ xs)

  write_after-finished :
      (x : Line V) (ls : List (Line V)) → is_unfinished x ≡ false → write_after x ls ≡ x ∷ ls
  write_after-finished (unfinished e) ls h = absurd (ground (arith, h))
  write_after-finished (entry e) ls h = refl
  write_after-finished (malformed t) ls h = refl
  write_after-finished blank ls h = refl

  -- An append to a log whose last line is finished adds its lines.
  pub write_lines-append :
      (log ls : List (Line V)) → ends_unfinished log ≡ false → write_lines log ls ≡ log ++ ls
  unfolding write_lines
  write_lines-append [] ls h = refl
  write_lines-append (x ∷ []) ls h = write_after-finished x ls h
  write_lines-append (x ∷ y ∷ xs) ls h = ap (λ l. x ∷ l) (write_lines-append (y ∷ xs) ls h)

  write_after-nil : (x : Line V) → write_after x [] ≡ x ∷ []
  write_after-nil (unfinished e) = refl
  write_after-nil (entry e) = refl
  write_after-nil (malformed t) = refl
  write_after-nil blank = refl

  write_lines-nil : (log : List (Line V)) → write_lines log [] ≡ log
  unfolding write_lines
  write_lines-nil [] = refl
  write_lines-nil (x ∷ []) = write_after-nil x
  write_lines-nil (x ∷ y ∷ xs) = ap (λ l. x ∷ l) (write_lines-nil (y ∷ xs))

  begin-nothing : (ls : List (Line V)) → begin nothing ls ≡ []
  begin-nothing [] = refl
  begin-nothing (l ∷ ls) = refl

  partial-nil : (f : Failure) (ls : List (Line V)) → Clean (some f) → partial f ls ≡ []
  unfolding partial
  partial-nil f ls (w, b) = rw (w, b) (begin-nothing ls)

  -- An append that fails and has written nothing leaves the log.
  pub write_lines-partial :
      (f : Failure) (log ls : List (Line V)) → Clean (some f) → write_lines log (partial f ls) ≡ log
  write_lines-partial f log ls c = rw (partial-nil f ls c) (write_lines-nil log)

  AllFinished : List (Line V) → Type 0
  AllFinished = All (λ (x : Line V). is_unfinished x ≡ false)

  AllFinished-ends : (xs : List (Line V)) → AllFinished xs → ends_unfinished xs ≡ false
  unfolding AllFinished
  AllFinished-ends [] h = refl
  AllFinished-ends (x ∷ []) h = h.0
  AllFinished-ends (x ∷ y ∷ xs) h = AllFinished-ends (y ∷ xs) h.1

  retained_lines-AllFinished : (seq : ℕ) (xs : List (Line V)) → AllFinished (retained_lines seq xs)
  unfolding retained_lines AllFinished
  retained_lines-AllFinished seq [] = tt
  retained_lines-AllFinished seq (entry e ∷ xs) =
      let r = retained_lines-AllFinished seq xs in if_both AllFinished (leb e.seq seq) r (refl, r)
  retained_lines-AllFinished seq (unfinished (some e) ∷ xs) =
      let r = retained_lines-AllFinished seq xs in if_both AllFinished (leb e.seq seq) r (refl, r)
  retained_lines-AllFinished seq (unfinished none ∷ xs) = (refl, retained_lines-AllFinished seq xs)
  retained_lines-AllFinished seq (malformed t ∷ xs) = (refl, retained_lines-AllFinished seq xs)
  retained_lines-AllFinished seq (blank ∷ xs) = retained_lines-AllFinished seq xs

  -- A compaction ends every line.
  pub ends-retained_lines :
      (seq : ℕ) (xs : List (Line V)) → ends_unfinished (retained_lines seq xs) ≡ false
  ends-retained_lines seq xs = AllFinished-ends _ (retained_lines-AllFinished seq xs)

  entries-finished : (es : List (SessionEvent V)) → ends_unfinished (map entry es) ≡ false
  entries-finished [] = refl
  entries-finished (e ∷ []) = refl
  entries-finished (e ∷ f ∷ es) = entries-finished (f ∷ es)

  -- Whole events keep the log finished.
  pub ends-append :
      (xs : List (Line V)) (es : List (SessionEvent V))
      → ends_unfinished xs ≡ false
      → ends_unfinished (xs ++ map entry es) ≡ false
  ends-append [] es h = entries-finished es
  ends-append (x ∷ []) [] h = h
  ends-append (x ∷ []) (e ∷ es) h = entries-finished (e ∷ es)
  ends-append (x ∷ y ∷ xs) es h = ends-append (y ∷ xs) es h

  take_nil : (n : ℕ) → take {A = Line V} n [] ≡ []
  take_nil zero = refl
  take_nil (suc n) = refl

  take_all : (n : ℕ) (ls : List (Line V)) → length ls ≤ n → take n ls ≡ ls
  take_all n [] h = take_nil n
  take_all zero (l ∷ ls) h = absurd (omega (arith, h))
  take_all (suc n) (l ∷ ls) h = ap (λ x. l ∷ x) (take_all n ls (omega (arith, h)))

  drop_all : (n : ℕ) (ls : List (Line V)) → length ls ≤ n → drop n ls ≡ []
  drop_all zero [] h = refl
  drop_all (suc n) [] h = refl
  drop_all zero (l ∷ ls) h = absurd (omega (arith, h))
  drop_all (suc n) (l ∷ ls) h = drop_all n ls (omega (arith, h))

  -- A failure behind all lines has written them.
  pub partial_all : (f : Failure) (ls : List (Line V)) → length ls ≤ f.whole → partial f ls ≡ ls
  unfolding partial
  partial_all f ls h = rw (take_all f.whole ls h, drop_all f.whole ls h) (append-nil ls)
