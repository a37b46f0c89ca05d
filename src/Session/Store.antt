-- ===== src/Session/Store.antt =====
-- The files of one session: crates/duragent/src/store/file/session.rs.
-- The file system is not part of the program. `outcomes` lists what its next calls report, `none`
-- for success and a failure with its message; after the list every call succeeds. A failed append may
-- have written some of its lines all the same: `write_all` stops midway, or `sync_all` fails behind it.
-- The other calls that write replace a file by a rename at the end, and leave it as it was if they fail.
pub mod Cases
pub mod Finished
use agnx.Common.{
  take, drop, ℕ, String, Bool, true, false, Option, none, some, List, [], ◌∷◌, ◌++◌, map, leb, ltb,
  is_empty, if◌then◌else◌, Result, ok, err,
}
use agnx.Session.Event.{SessionEvent, SessionSnapshot, is_compatible}

-- A line of events.jsonl: an event, text that is no event, or white space. The last line may lack its
-- line end; it is then the text of an event but for the line end, or less.
pub data Line (V : Type 0) : Type 0 where
  unfinished : Option (SessionEvent V) → Line V
  entry : SessionEvent V → Line V
  malformed : String → Line V
  blank : Line V

-- What an append that fails has begun of the line behind the last whole one.
pub data Begun : Type 0 where
  nothing some_bytes all_but_end : Begun

-- A failure, with the number of whole lines that an append has written before it.
pub record Failure : Type 0 where
  pub message : String
  pub whole : ℕ
  pub begun : Begun

pub record Disk (V : Type 0) : Type 0 where
  pub log : List (Line V)
  pub archive : List (Line V)
  pub snapshot : Option (SessionSnapshot V)
  pub outcomes : List (Option Failure)

module _ {V : Type 0} where
  unfoldable pub next_outcome : Disk V → Option Failure × Disk V
  next_outcome d = elim d.outcomes [ [] ↦ (none, d) | o ∷ os ↦ (o, record d { outcomes = os }) ]

  -- The events of the log that the loop of `load_events` collects.
  unfoldable pub events_after : ℕ → List (Line V) → List (SessionEvent V)
  events_after seq [] = []
  events_after seq (entry e ∷ lines) =
      if ltb seq e.seq then e ∷ events_after seq lines else events_after seq lines
  events_after seq (unfinished none ∷ lines) = events_after seq lines
  events_after seq (unfinished (some e) ∷ lines) =
      if ltb seq e.seq then e ∷ events_after seq lines else events_after seq lines
  events_after seq (malformed _ ∷ lines) = events_after seq lines
  events_after seq (blank ∷ lines) = events_after seq lines

  unfoldable pub load_events : ℕ → Disk V → Result (List (SessionEvent V)) String × Disk V
  load_events after_seq d =
      let (o, d') = next_outcome d in
      elim o [ none ↦ (ok (events_after after_seq d'.log), d') | some f ↦ (err f.message, d') ]

  -- What a text becomes behind an unfinished line.
  abbrev join : Line V → Line V
  join (unfinished e) = unfinished none
  join l = malformed ""

  abbrev write_after : Line V → List (Line V) → List (Line V)
  write_after (unfinished e) (l ∷ ls) = join l ∷ ls
  write_after x ls = x ∷ ls

  -- A file that is opened to append to it.
  unfoldable pub write_lines : List (Line V) → List (Line V) → List (Line V)
  write_lines [] ls = ls
  write_lines (x ∷ []) ls = write_after x ls
  write_lines (x ∷ y ∷ xs) ls = x ∷ write_lines (y ∷ xs) ls

  abbrev event_of : Line V → Option (SessionEvent V)
  event_of (entry e) = some e
  event_of l = none

  abbrev begin : Begun → List (Line V) → List (Line V)
  begin b [] = []
  begin nothing (l ∷ ls) = []
  begin some_bytes (l ∷ ls) = unfinished none ∷ []
  begin all_but_end (l ∷ ls) = unfinished (event_of l) ∷ []

  -- The lines that an append has written when it fails.
  unfoldable pub partial : Failure → List (Line V) → List (Line V)
  partial f ls = take f.whole ls ++ begin f.begun (drop f.whole ls)

  unfoldable pub append_events : List (SessionEvent V) → Disk V → Result Unit String × Disk V
  append_events events d =
      let (o, d') = next_outcome d in
      if is_empty events then (ok tt, d) else elim o [
        | none ↦ (ok tt, record d' { log = write_lines d'.log (map entry events) })
        | some f ↦
            (err f.message, record d' { log = write_lines d'.log (partial f (map entry events)) })
      ]

  abbrev checked : Option (SessionSnapshot V) → Result (Option (SessionSnapshot V)) String
  checked none = ok none
  checked (some s) = if is_compatible s then ok (some s) else err "incompatible schema version"

  unfoldable pub load_snapshot : Disk V → Result (Option (SessionSnapshot V)) String × Disk V
  load_snapshot d =
      let (o, d') = next_outcome d in
      elim o [ none ↦ (checked d'.snapshot, d') | some f ↦ (err f.message, d') ]

  unfoldable pub save_snapshot : SessionSnapshot V → Disk V → Result Unit String × Disk V
  save_snapshot s d =
      let (o, d') = next_outcome d in
      elim o [ none ↦ (ok tt, record d' { snapshot = some s }) | some f ↦ (err f.message, d') ]

  -- The partition of the lines that `compact_events` makes.
  unfoldable pub old_lines : ℕ → List (Line V) → List (Line V)
  old_lines seq [] = []
  old_lines seq (entry e ∷ lines) =
      if leb e.seq seq then entry e ∷ old_lines seq lines else old_lines seq lines
  old_lines seq (unfinished none ∷ lines) = old_lines seq lines
  old_lines seq (unfinished (some e) ∷ lines) =
      if leb e.seq seq then entry e ∷ old_lines seq lines else old_lines seq lines
  old_lines seq (malformed _ ∷ lines) = old_lines seq lines
  old_lines seq (blank ∷ lines) = old_lines seq lines

  unfoldable pub retained_lines : ℕ → List (Line V) → List (Line V)
  retained_lines seq [] = []
  retained_lines seq (entry e ∷ lines) =
      if leb e.seq seq then retained_lines seq lines else entry e ∷ retained_lines seq lines
  retained_lines seq (unfinished none ∷ lines) = malformed "" ∷ retained_lines seq lines
  retained_lines seq (unfinished (some e) ∷ lines) =
      if leb e.seq seq then retained_lines seq lines else entry e ∷ retained_lines seq lines
  retained_lines seq (malformed t ∷ lines) = malformed t ∷ retained_lines seq lines
  retained_lines seq (blank ∷ lines) = retained_lines seq lines

  -- The archive is written after the log, by an append of its own.
  unfoldable pub append_archive : Bool → List (Line V) → Disk V → Result Unit String × Disk V
  append_archive false old d = (ok tt, d)
  append_archive true old d =
      let (o, d') = next_outcome d in
      elim o [
        | none ↦ (ok tt, record d' { archive = write_lines d'.archive old })
        | some f ↦ (err f.message, record d' { archive = write_lines d'.archive (partial f old) })
      ]

  -- The atomic write of the retained lines, then the archive.
  unfoldable pub rewrite_log :
      List (Line V) → List (Line V) → Bool → Disk V → Result Unit String × Disk V
  rewrite_log old retained archive d =
      let (o, d') = next_outcome d in
      elim o [
        | none ↦ append_archive archive old (record d' { log = retained })
        | some f ↦ (err f.message, d')
      ]

  unfoldable pub compact_events : ℕ → Bool → Disk V → Result Unit String × Disk V
  compact_events up_to_seq archive d =
      let (o, d') = next_outcome d in
      elim o [
        | none ↦
            let old = old_lines up_to_seq d'.log in
            if is_empty old
            then (ok tt, d')
            else rewrite_log old (retained_lines up_to_seq d'.log) archive d'
        | some f ↦ (err f.message, d')
      ]
