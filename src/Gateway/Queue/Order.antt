-- ===== src/Gateway/Queue/Order.antt =====
-- The order of the messages through `try_enqueue` and `drain` of
-- crates/duragent/src/gateway/queue.rs.
use agnx.Common.{
  ◌≡◌, ◌≢◌, List, [], ◌∷◌, ◌++◌, refl, sym, ap, ◌∙◌, ◌⊎◌, inl, inr, append-nil, append_assoc, leb,
  length, Bool-cases,
}
use agnx.Gateway.Queue.{
  SessionMessageQueue, QueuedMessage, QueueConfig, QueueMode, OverflowStrategy, EnqueueResult,
  DrainResult, push_overflow, try_enqueue, drain,
}

pub data Call (V F : Type 0) : Type 0 where
  enqueues : QueuedMessage V F → Call V F
  drains : Call V F

overflow_cases :
    (o : OverflowStrategy)
    → (o ≡ OverflowStrategy.drop_old)
      ⊎ (o ≡ OverflowStrategy.drop_new)
      ⊎ (o ≡ OverflowStrategy.reject)
overflow_cases OverflowStrategy.drop_old = inl refl
overflow_cases OverflowStrategy.drop_new = inr (inl refl)
overflow_cases OverflowStrategy.reject = inr (inr refl)

mode_cases :
    (m : QueueMode) → (m ≡ QueueMode.batch) ⊎ (m ≡ QueueMode.sequential) ⊎ (m ≡ QueueMode.drop)
mode_cases QueueMode.batch = inl refl
mode_cases QueueMode.sequential = inr (inl refl)
mode_cases QueueMode.drop = inr (inr refl)

list_cases : {A : Type 0} (xs : List A) → (xs ≡ []) ⊎ ((y : A) × (ys : List A) × (xs ≡ y ∷ ys))
list_cases [] = inl refl
list_cases (y ∷ ys) = inr (y, ys, refl)

module _ {V F : Type 0} where
  -- What a drain hands out.
  abbrev pub handed : DrainResult V F → List (QueuedMessage V F)
  handed DrainResult.idle = []
  handed (DrainResult.batched ms) = ms
  handed (DrainResult.sequential m) = m ∷ []

  -- What an enqueue puts into the queue.
  abbrev pub accepted : QueuedMessage V F → EnqueueResult → List (QueuedMessage V F)
  accepted m EnqueueResult.queued = m ∷ []
  accepted m _ = []

  pub calls_queue :
      QueueConfig → List (Call V F) → SessionMessageQueue V F → SessionMessageQueue V F
  calls_queue config [] q = q
  calls_queue config (Call.enqueues m ∷ cs) q = calls_queue config cs (try_enqueue m config q).1
  calls_queue config (Call.drains ∷ cs) q = calls_queue config cs (drain config q).1

  pub calls_accepted :
      QueueConfig → List (Call V F) → SessionMessageQueue V F → List (QueuedMessage V F)
  calls_accepted config [] q = []
  calls_accepted config (Call.enqueues m ∷ cs) q =
      let (result, q') = try_enqueue m config q in accepted m result ++ calls_accepted config cs q'
  calls_accepted config (Call.drains ∷ cs) q = calls_accepted config cs (drain config q).1

  unfoldable pub calls_handed :
      QueueConfig → List (Call V F) → SessionMessageQueue V F → List (QueuedMessage V F)
  calls_handed config [] q = []
  calls_handed config (Call.enqueues m ∷ cs) q = calls_handed config cs (try_enqueue m config q).1
  calls_handed config (Call.drains ∷ cs) q =
      let (result, q') = drain config q in handed result ++ calls_handed config cs q'

  push_in_order :
      (config : QueueConfig) (m : QueuedMessage V F) (ms : List (QueuedMessage V F))
      → config.overflow ≢ OverflowStrategy.drop_old
      → (push_overflow config m ms).1 ≡ ms ++ accepted m (push_overflow config m ms).0
  unfolding push_overflow
  push_in_order config m ms h = elim (Bool-cases (leb config.max_pending (length ms))) [
    | inr e ↦ rw e
    | inl e ↦ elim (overflow_cases config.overflow) [
      | inl o ↦ absurd (h o)
      | inr (inl o) ↦ rw (e, o) (sym (append-nil ms))
      | inr (inr o) ↦ rw (e, o) (sym (append-nil ms))
    ]
  ]

  enqueue_in_order :
      (config : QueueConfig) (m : QueuedMessage V F) (q : SessionMessageQueue V F)
      → config.overflow ≢ OverflowStrategy.drop_old
      → (try_enqueue m config q).1.pending ≡ q.pending ++ accepted m (try_enqueue m config q).0
  unfolding try_enqueue
  enqueue_in_order config m q h = elim (Bool-cases q.busy) [
    | inl e ↦ rw e (push_in_order config m q.pending h)
    | inr e ↦ rw e (sym (append-nil q.pending))
  ]

  drain_in_order :
      (config : QueueConfig) (q : SessionMessageQueue V F)
      → config.mode ≢ QueueMode.drop
      → q.pending ≡ handed (drain config q).0 ++ (drain config q).1.pending
  unfolding drain
  drain_in_order config q h = elim (mode_cases config.mode) [
    | inr (inr m) ↦ absurd (h m)
    | inl m ↦ elim (list_cases q.pending) [
      | inl e ↦ rw (m, e)
      | inr (y, ys, e) ↦ rw (m, e) (sym (append-nil (y ∷ ys)))
    ]
    | inr (inl m) ↦ elim (list_cases q.pending) [ inl e ↦ rw (m, e) | inr (y, ys, e) ↦ rw (m, e) ]
  ]

  -- With a mode that drops nothing and an overflow strategy that keeps what is queued, the messages
  -- are handed out in the order in which they were accepted, none twice, and those that were not
  -- handed out are still pending.
  pub calls_in_order :
      (config : QueueConfig) (cs : List (Call V F)) (q : SessionMessageQueue V F)
      → config.mode ≢ QueueMode.drop
      → config.overflow ≢ OverflowStrategy.drop_old
      → calls_handed config cs q ++ (calls_queue config cs q).pending
        ≡ q.pending ++ calls_accepted config cs q
  unfolding calls_handed calls_queue calls_accepted
  calls_in_order config [] q h k = sym (append-nil q.pending)
  calls_in_order config (Call.enqueues m ∷ cs) q h k =
      let (r, q') = try_enqueue m config q in
      calls_in_order config cs q' h k
      ∙ ap (λ ms. ms ++ calls_accepted config cs q') (enqueue_in_order config m q k)
      ∙ append_assoc q.pending (accepted m r) (calls_accepted config cs q')
  calls_in_order config (Call.drains ∷ cs) q h k =
      let (r, q') = drain config q in
      append_assoc (handed r) (calls_handed config cs q') (calls_queue config cs q').pending
      ∙ ap (λ ms. handed r ++ ms) (calls_in_order config cs q' h k)
      ∙ sym (append_assoc (handed r) q'.pending (calls_accepted config cs q'))
      ∙ ap (λ ms. ms ++ calls_accepted config cs q') (sym (drain_in_order config q h))
