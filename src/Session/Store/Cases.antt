-- ===== src/Session/Store/Cases.antt =====
-- The outcomes of `compact_events` (crates/duragent/src/store/file/session.rs).
use agnx.Common.{
  is_empty, if_both, ℕ, String, Bool, true, false, Option, none, some, List, [], ◌∷◌, Result,
}
use agnx.Session.Store.{
  Failure, write_lines, partial, Disk, Line, retained_lines, old_lines, next_outcome,
  append_archive, rewrite_log, compact_events,
}

-- `Q` is what is known of the outcomes to come.
module _ {ℓ} {V : Type 0} (P : Disk V → Type ℓ) (Q : List (Option Failure) → Type 0)
    (Q-later : (o : Option Failure) (os : List (Option Failure)) → Q (o ∷ os) → Q os) where
  append_archive-cases :
      (b : Bool) (old : List (Line V)) (d : Disk V) (os : List (Option Failure))
      → Q os
      → ((archive : List (Line V)) (outcomes : List (Option Failure))
          → Q outcomes
          → P (record d { archive = archive; outcomes = outcomes }))
      → P (append_archive b old (record d { outcomes = os })).1
  unfolding append_archive next_outcome
  append_archive-cases false old d os q h = h d.archive os q
  append_archive-cases true old d [] q h = h (write_lines d.archive old) [] q
  append_archive-cases true old d (none ∷ os) q h =
      h (write_lines d.archive old) os (Q-later none os q)
  append_archive-cases true old d (some f ∷ os) q h =
      h (write_lines d.archive (partial f old)) os (Q-later (some f) os q)

  rewrite_log-cases :
      (old retained : List (Line V)) (b : Bool) (d : Disk V) (os : List (Option Failure))
      → Q os
      → ((archive : List (Line V)) (outcomes : List (Option Failure))
          → Q outcomes
          → P (record d { archive = archive; outcomes = outcomes }))
      → ((archive : List (Line V)) (outcomes : List (Option Failure))
          → Q outcomes
          → P (record d { log = retained; archive = archive; outcomes = outcomes }))
      → P (rewrite_log old retained b (record d { outcomes = os })).1
  unfolding rewrite_log next_outcome
  rewrite_log-cases old retained b d [] q h g =
      append_archive-cases b old (record d { log = retained }) [] q g
  rewrite_log-cases old retained b d (none ∷ os) q h g =
      append_archive-cases b old (record d { log = retained }) os (Q-later none os q) g
  rewrite_log-cases old retained b d (some f ∷ os) q h g = h d.archive os (Q-later (some f) os q)

  compact_outcomes :
      (seq : ℕ) (b : Bool) (d : Disk V) (os : List (Option Failure))
      → Q os
      → ((archive : List (Line V)) (outcomes : List (Option Failure))
          → Q outcomes
          → P (record d { archive = archive; outcomes = outcomes }))
      → ((archive : List (Line V)) (outcomes : List (Option Failure))
          → Q outcomes
          → P (record d { log = retained_lines seq d.log; archive = archive; outcomes = outcomes }))
      → P (compact_events seq b (record d { outcomes = os })).1
  unfolding compact_events next_outcome
  compact_outcomes seq b d [] q h g =
      if_both (λ (r : Result Unit String × Disk V). P r.1) (is_empty (old_lines seq d.log))
        (h d.archive [] q) (rewrite_log-cases _ _ b d [] q h g)
  compact_outcomes seq b d (none ∷ os) q h g =
      let q' = Q-later none os q in
      if_both (λ (r : Result Unit String × Disk V). P r.1) (is_empty (old_lines seq d.log))
        (h d.archive os q') (rewrite_log-cases _ _ b d os q' h g)
  compact_outcomes seq b d (some f ∷ os) q h g = h d.archive os (Q-later (some f) os q)

  -- The log stays, or loses the lines up to `seq`; the archive may grow.
  pub compact_events-cases :
      (seq : ℕ) (b : Bool) (d : Disk V)
      → Q d.outcomes
      → ((archive : List (Line V)) (outcomes : List (Option Failure))
          → Q outcomes
          → P (record d { archive = archive; outcomes = outcomes }))
      → ((archive : List (Line V)) (outcomes : List (Option Failure))
          → Q outcomes
          → P (record d { log = retained_lines seq d.log; archive = archive; outcomes = outcomes }))
      → P (compact_events seq b d).1
  compact_events-cases seq b d = compact_outcomes seq b d d.outcomes
