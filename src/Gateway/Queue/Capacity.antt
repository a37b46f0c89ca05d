-- ===== src/Gateway/Queue/Capacity.antt =====
-- The size of the queue, and the counter of what the debounce buffers hold, in each operation of
-- crates/duragent/src/gateway/queue.rs.
use agnx.Common.{
  Option-cases, drop as list_drop, length-append, length-drop, length-retain-le, retain, is_empty,
  Bool-cases, ℕ, suc, ◌+◌, ◌≤◌, max, String, ◌≡◌, refl, ap, some, List, [], ◌∷◌, map, arith, length,
  ◌<◌, sym, ◌∙◌, inl, inr, not, ◌&&◌, if◌then◌else◌, Bool,
}
use agnx.Gateway.Queue.{
  EnqueueResult, usize_max, drain, try_enqueue, SessionMessageQueue, QueuedMessage, QueueConfig,
  push_overflow, Buffers,
}
use agnx.Gateway.Queue.Debounce.{
  contains_key, push_flushed, notify, take_buffer, debounce_or_enqueue, push_buffer, buffer_of,
  remove_buffer,
}
use agnx.Gateway.Queue.Marks.{clear_steered, mark, clear_buffers}

module _ {V F : Type 0} where
  -- What the buffers hold.
  abbrev pub buffered : Buffers V F → ℕ
  buffered [] = 0
  buffered ((_, b) ∷ bs) = length b + buffered bs

  -- A queue of capacity 0 takes one message where the oldest gives way.
  pub record Fits (config : QueueConfig) (q : SessionMessageQueue V F) : Type 0 where
    pub pending : length q.pending ≤ max 1 config.max_pending
    pub counted : q.debounce_buffered ≡ buffered q.debounce_buffers

  length-push_overflow :
      (config : QueueConfig) (m : QueuedMessage V F) (ms : List (QueuedMessage V F))
      → length ms ≤ max 1 config.max_pending
      → length (push_overflow config m ms).1 ≤ max 1 config.max_pending
  unfolding push_overflow
  length-push_overflow config m ms h = ground (
    arith,
    h,
    length-append ms (m ∷ []),
    length-append (list_drop 1 ms) (m ∷ []),
    length-drop 1 ms,
  )

  buffered-push_buffer :
      (id : String) (m : QueuedMessage V F) (bs : Buffers V F)
      → buffered (push_buffer id m bs) ≡ buffered bs + 1
  unfolding push_buffer
  buffered-push_buffer id m [] = omega arith
  buffered-push_buffer id m ((k, b) ∷ bs) =
      ground (arith, buffered-push_buffer id m bs, length-append b (m ∷ []))

  buffered-remove_buffer :
      (id : String) (ms : List (QueuedMessage V F)) (bs : Buffers V F)
      → buffer_of id bs ≡ some ms
      → buffered bs ≡ length ms + buffered (remove_buffer id bs)
  unfolding buffer_of remove_buffer
  buffered-remove_buffer id ms [] h = absurd (ground (arith, h))
  buffered-remove_buffer id ms ((k, b) ∷ bs) h = ground (arith, h, buffered-remove_buffer id ms bs)

  buffered_kept :
      (k : String) (kept : List (QueuedMessage V F)) (bs : Buffers V F)
      → buffered (if is_empty kept then bs else (k, kept) ∷ bs) ≡ length kept + buffered bs
  buffered_kept k [] bs = omega arith
  buffered_kept k (m ∷ ms) bs = refl

  buffered-clear_buffers :
      (bs : Buffers V F) → buffered bs ≡ (clear_buffers bs).1 + buffered (clear_buffers bs).0
  unfolding clear_buffers
  buffered-clear_buffers [] = omega arith
  buffered-clear_buffers ((k, b) ∷ bs) = omega (
    arith,
    buffered-clear_buffers bs,
    length-retain-le (λ m. not m.steered) b,
    buffered_kept k (retain (λ m. not m.steered) b) (clear_buffers bs).0,
  )

  length-mark :
      (f : QueuedMessage V F → QueuedMessage V F) (ms : List (QueuedMessage V F))
      → length (map f ms) ≡ length ms
  length-mark f [] = refl
  length-mark f (m ∷ ms) = ap suc (length-mark f ms)

  buffered-mark :
      (f : QueuedMessage V F → QueuedMessage V F) (bs : Buffers V F)
      → buffered (map (λ (k, b). (k, map f b)) bs) ≡ buffered bs
  buffered-mark f [] = refl
  buffered-mark f ((k, b) ∷ bs) = omega (arith, length-mark f b, buffered-mark f bs)

  -- The queue fits, and holds at most `n` messages in its buffers.
  abbrev pub FitsWith : QueueConfig → ℕ → SessionMessageQueue V F → Type 0
  FitsWith config n q = Fits config q × (buffered q.debounce_buffers ≤ n)

  pub try_enqueue-Fits :
      (config : QueueConfig) (m : QueuedMessage V F) (q : SessionMessageQueue V F)
      → Fits config q
      → FitsWith config (buffered q.debounce_buffers + 1) (try_enqueue m config q).1
  unfolding try_enqueue
  try_enqueue-Fits config m q h = elim (Bool-cases q.busy) [
    | inl e ↦ rw e (
      record { pending = length-push_overflow config m q.pending h.pending; counted = h.counted },
      omega arith,
    )
    | inr e ↦ rw e (record { pending = h.pending; counted = h.counted }, omega arith)
  ]

  pub debounce-Fits :
      (config : QueueConfig) (m : QueuedMessage V F) (q : SessionMessageQueue V F)
      → buffered q.debounce_buffers < usize_max
      → Fits config q
      → FitsWith config (buffered q.debounce_buffers + 1) (debounce_or_enqueue m config q).1
  unfolding debounce_or_enqueue
  debounce-Fits config m q r h =
      let b = buffered-push_buffer m.data_.sender.id m q.debounce_buffers in
      elim (Bool-cases (not q.busy && not (contains_key m.data_.sender.id q.debounce_buffers))) [
        | inl e ↦ rw e (record { pending = h.pending; counted = h.counted }, omega arith)
        | inr e ↦ rw e (
          record { pending = h.pending; counted = omega (arith, h.counted, r, b) },
          omega (arith, b),
        )
      ]

  pub take_buffer-Fits :
      (config : QueueConfig) (id : String) (q : SessionMessageQueue V F)
      → Fits config q
      → Fits config (take_buffer id q).1
        × (buffered (take_buffer id q).1.debounce_buffers ≤ buffered q.debounce_buffers)
  unfolding take_buffer
  take_buffer-Fits config id q h = elim (Option-cases (buffer_of id q.debounce_buffers)) [
    | inl e ↦ rw (e, take_buffer) (h, omega arith)
    | inr (ms, e) ↦
        let b = buffered-remove_buffer id ms q.debounce_buffers e in
        rw (e, take_buffer)
          (record { pending = h.pending; counted = omega (arith, h.counted, b) }, omega (arith, b))
  ]

  notify-Fits :
      (config : QueueConfig) (b : Bool) (r : EnqueueResult) (q : SessionMessageQueue V F)
      → Fits config q
      → Fits config (notify b r q)
        × (buffered (notify b r q).debounce_buffers ≡ buffered q.debounce_buffers)
  unfolding notify
  notify-Fits config b EnqueueResult.queued q h =
      (record { pending = h.pending; counted = h.counted }, refl)
  notify-Fits config b EnqueueResult.process_now q h = (h, refl)
  notify-Fits config b EnqueueResult.debounced q h = (h, refl)
  notify-Fits config b EnqueueResult.dropped_new q h = (h, refl)
  notify-Fits config b EnqueueResult.rejected q h = (h, refl)

  pub push_flushed-Fits :
      (config : QueueConfig) (m : QueuedMessage V F) (q : SessionMessageQueue V F)
      → Fits config q
      → Fits config (push_flushed m config q).1
        × (buffered (push_flushed m config q).1.debounce_buffers ≡ buffered q.debounce_buffers)
  unfolding push_flushed
  push_flushed-Fits config m q h =
      notify-Fits config (not q.busy) (push_overflow config m q.pending).0
        (record q { pending = (push_overflow config m q.pending).1 })
        (record {
          pending = length-push_overflow config m q.pending h.pending;
          counted = h.counted;
        })

  pub drain-Fits :
      (config : QueueConfig) (q : SessionMessageQueue V F)
      → Fits config q
      → Fits config (drain config q).1
        × (buffered (drain config q).1.debounce_buffers ≡ buffered q.debounce_buffers)
  unfolding drain
  drain-Fits config q h = (
    record { pending = ground (arith, h.pending); counted = ground (arith, h.counted) },
    ground arith,
  )

  pub mark-Fits :
      (config : QueueConfig) (f : QueuedMessage V F → QueuedMessage V F)
      (q : SessionMessageQueue V F)
      → Fits config q
      → Fits config (mark f q)
        × (buffered (mark f q).debounce_buffers ≡ buffered q.debounce_buffers)
  unfolding mark
  mark-Fits config f q h = (
    record {
      pending = rw (length-mark f q.pending) h.pending;
      counted = h.counted ∙ sym (buffered-mark f q.debounce_buffers);
    },
    buffered-mark f q.debounce_buffers,
  )

  pub clear_steered-Fits :
      (config : QueueConfig) (q : SessionMessageQueue V F)
      → buffered q.debounce_buffers < usize_max
      → Fits config q
      → Fits config (clear_steered q)
        × (buffered (clear_steered q).debounce_buffers ≤ buffered q.debounce_buffers)
  unfolding clear_steered
  clear_steered-Fits config q r h =
      let b = buffered-clear_buffers q.debounce_buffers in
      (
        record {
          pending = omega (arith, h.pending, length-retain-le (λ m. not m.steered) q.pending);
          counted = omega (arith, h.counted, b, r);
        },
        omega (arith, b),
      )
