-- ===== src/Gateway/Queue/Exclusive.antt =====
-- Who processes the messages of a session: the flag `busy` of crates/duragent/src/gateway/queue.rs
-- and the tasks of crates/duragent/src/gateway/handler.rs.
use agnx.Gateway.Queue.Marks.{clear_steered, mark, mark_steered, mark_persisted}
use agnx.Common.{
  subst, ◌≤◌, Option-cases, if_both, Bool-cases, ℕ, ◌+◌, ◌-◌, String, ◌≡◌, Bool, true, false, List,
  [], ◌∷◌, arith, refl, sym, inl, inr, Option, none, some, ◌==◌,
}
use agnx.Gateway.Queue.{
  SessionMessageQueue, QueuedMessage, QueueConfig, try_enqueue, drain, push_overflow,
}
use agnx.Gateway.Queue.Debounce.{
  notify, combine_messages, debounce_or_enqueue, take_buffer, push_flushed,
}
use agnx.Gateway.Queue.Tasks.{
  run, push_next, Action, step, take_timer, Tasks, starts, ends, enqueue,
}

abbrev pub count : Bool → ℕ
count true = 1
count false = 0

busy_of : (n : ℕ) (b : Bool) → n ≤ count b → (n == 0) ≡ false → (b ≡ true) × (n ≡ 1)
busy_of n true h k = (refl, ground (arith, h, k))
busy_of n false h k = absurd (ground (arith, h, k))

module _ {V F : Type 0} where
  -- At most one task processes the messages of the session, and only while it is busy.
  abbrev pub IsExclusive : Tasks V F → Type 0
  IsExclusive s = s.processing ≤ count s.queue.busy

  starts-push_overflow :
      (config : QueueConfig) (m : QueuedMessage V F) (ms : List (QueuedMessage V F))
      → starts (push_overflow config m ms).0 ≡ 0
  unfolding push_overflow
  starts-push_overflow config m ms = ground arith

  starts-enqueue :
      (m : QueuedMessage V F) (config : QueueConfig) (q : SessionMessageQueue V F)
      → count q.busy + starts (enqueue m config q).0 ≡ count (enqueue m config q).1.busy
  unfolding enqueue debounce_or_enqueue try_enqueue
  starts-enqueue m config q = ground (arith, starts-push_overflow config m q.pending)

  busy-take_buffer :
      (id : String) (q : SessionMessageQueue V F) → (take_buffer id q).1.busy ≡ q.busy
  unfolding take_buffer
  busy-take_buffer id q = ground arith

  busy-push_flushed :
      (m : QueuedMessage V F) (config : QueueConfig) (q : SessionMessageQueue V F)
      → (push_flushed m config q).1.busy ≡ q.busy
  unfolding push_flushed notify
  busy-push_flushed m config q = ground arith

  ends-drain :
      (config : QueueConfig) (q : SessionMessageQueue V F)
      → q.busy ≡ true
      → 1 - ends (drain config q).0 ≡ count (drain config q).1.busy
  unfolding drain
  ends-drain config q h = ground (arith, h)

  take_timer-IsExclusive :
      (r : Option (List (QueuedMessage V F)) × SessionMessageQueue V F) (s : Tasks V F)
      → s.processing ≤ count r.1.busy
      → IsExclusive (take_timer r s)
  unfolding take_timer
  take_timer-IsExclusive (none, q) s h = h
  take_timer-IsExclusive (some ms, q) s h = elim (Option-cases (combine_messages ms)) [
    | inl e ↦ rw (e, take_timer) h
    | inr (_, e) ↦ rw (e, take_timer) h
  ]

  push_next-IsExclusive :
      (config : QueueConfig) (ms : List (QueuedMessage V F)) (s : Tasks V F)
      → IsExclusive s
      → IsExclusive (push_next config ms s)
  unfolding push_next
  push_next-IsExclusive config [] s h = h
  push_next-IsExclusive config (m ∷ ms) s h =
      subst (λ b. s.processing ≤ count b) (sym (busy-push_flushed m config s.queue)) h

  step-IsExclusive :
      (config : QueueConfig) (a : Action V F) (s : Tasks V F)
      → IsExclusive s
      → IsExclusive (step config a s)
  unfolding step mark_persisted mark_steered mark clear_steered
  step-IsExclusive config (Action.message m) s h = omega (arith, h, starts-enqueue m config s.queue)
  step-IsExclusive config (Action.timer id) s h =
      take_timer-IsExclusive (take_buffer id s.queue) s
        (subst (λ b. s.processing ≤ count b) (sym (busy-take_buffer id s.queue)) h)
  step-IsExclusive config Action.flushed s h = push_next-IsExclusive config s.flushing s h
  step-IsExclusive config (Action.persisted m) s h = h
  step-IsExclusive config (Action.steered m) s h = h
  step-IsExclusive config Action.loop_ends s h = if_both IsExclusive _ h h
  step-IsExclusive config Action.drains s h = elim (Bool-cases (s.processing == 0)) [
    | inl e ↦ rw e h
    | inr e ↦
        let (b, n) = busy_of s.processing s.queue.busy h e in
        rw e (omega (arith, n, ends-drain config s.queue b))
  ]
  step-IsExclusive config Action.cut_off s h = omega (arith, h)

  -- If at most one task processes the messages of a session, and only while the session is busy, then
  -- this stays so through every interleaving of the tasks, also where tasks are cut off.
  pub run-IsExclusive :
      (config : QueueConfig) (as_ : List (Action V F)) (s : Tasks V F)
      → IsExclusive s
      → IsExclusive (run config as_ s)
  unfolding run
  run-IsExclusive config [] s h = h
  run-IsExclusive config (a ∷ as_) s h =
      run-IsExclusive config as_ (step config a s) (step-IsExclusive config a s h)

  -- The session is busy, but no task processes its messages.
  abbrev pub IsStuck : Tasks V F → Type 0
  IsStuck s = (s.queue.busy ≡ true) × (s.processing ≡ 0)
