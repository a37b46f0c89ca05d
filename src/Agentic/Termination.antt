-- ===== src/Agentic/Termination.antt =====
-- How often the agentic loop turns, and how often it calls the model.
use agnx.Session.Commands.{SessionCommand}
use agnx.Agentic.Counters.{prepare-Keeps, after_answer-Keeps}
use agnx.Agentic.Loop.{
  after_iteration, agentic_loop, next_iteration, run_agentic_loop, start, iteration, prepare,
}
use agnx.Agentic.Model.{delay, slept_for, attempt, call_llm, requested, open_stream, after_attempt}
use agnx.Common.{
  ℕ, String, ◌≡◌, List, length, Result, ok, err, zero, suc, ◌+◌, ◌-◌, ◌≤◌, refl, Option, arith, ltb,
  ◌*◌, ◌^◌, ◌<◌, ap, ◌∙◌, inl, inr, none, some, Bool-cases,
}
use agnx.Session.Message.{Message, ToolCall}
use agnx.Tools.Json.{Json}
use agnx.Tools.Executor.{ToolExecutor, Environment}
use agnx.Agentic.{
  AgenticResult, max_iterations_exceeded, LlmError, rate_limit, other, StreamEvent, AgenticError,
  max_retries, World, AgentSpec, LoopState,
}

abbrev Ticks : ℕ → ℕ → ℕ → ℕ → ℕ → ℕ → ToolExecutor → Type 0
Ticks i r n a b c ex = (a ≡ i) × (b ≡ r) × (c ≡ n)

-- At most `n` requests.
abbrev Within : {V : Type 0} → ℕ → ℕ → ℕ → LoopState V → Type 0
Within i r n st = (st.iterations ≡ i) × (st.round_trips ≡ r) × (length st.requests ≤ n)

module _ {V : Type 0} (json : Json V) (env : Environment) (world : World) (spec : AgentSpec V) where
  after_attempt-Within :
      {i r n : ℕ}
      (retry : Option ℕ
        → LoopState V
        → Result (List (Result StreamEvent LlmError)) AgenticError × LoopState V)
      (answer : Result (List (Result StreamEvent LlmError)) LlmError) (st : LoopState V)
      → ((after : Option ℕ) → Within i r n (retry after st).1)
      → Within i r n st
      → Within i r n (after_attempt json env world spec retry answer st).1
  unfolding after_attempt
  after_attempt-Within retry (ok stream) st ih h = h
  after_attempt-Within retry (err (rate_limit after)) st ih h = ih after
  after_attempt-Within retry (err (other e)) st ih h = h

  open_stream-Within :
      (left : ℕ) (st : LoopState V)
      → Within st.iterations st.round_trips
          (length st.requests + suc left)
          (open_stream json env world spec left st).1
  unfolding open_stream
  open_stream-Within zero st =
      let h : Within st.iterations st.round_trips (length st.requests + 1)
          (requested json env world spec st) =
        (refl, refl, omega arith) in
      after_attempt-Within _ (attempt json env world spec st) (requested json env world spec st)
        (λ after. h) h
  open_stream-Within (suc left) st =
      after_attempt-Within _ (attempt json env world spec st) (requested json env world spec st)
        (λ after.
          let next = open_stream-Within left (
            slept_for json env world spec (delay json env world spec after (max_retries - left))
              (requested json env world spec st)) in
          (next.0, next.1, omega (arith, next.2)))
        (refl, refl, omega arith)

  iteration-Within :
      (to_json : List ToolCall → Option String) (end_ : ℕ) (st : LoopState V)
      → Within st.iterations
          (st.round_trips + 1)
          (length st.requests + 4)
          (iteration json env world spec to_json end_ st).1
  unfolding iteration call_llm
  iteration-Within to_json end_ st =
      let st1 : LoopState V = prepare json env world spec to_json end_ st in
      let same =
        prepare-Keeps json env world spec (Ticks st.iterations st.round_trips (length st.requests))
          (λ call i r n ex h. h) (λ i r n ex h. h) to_json end_ st (refl, refl, refl) in
      let opened = open_stream-Within 3 st1 in
      let (answer, st2) = call_llm json env world spec st1 in
      let after =
        after_answer-Keeps json env world spec
          (Ticks st2.iterations st2.round_trips (length st2.requests)) (λ call i r n ex h. h)
          (λ i r n ex h. h) answer st2 (refl, refl, refl) in
      (
        after.0 ∙ (opened.0 ∙ same.0),
        after.1 ∙ ap (λ k. k + 1) same.1,
        omega (arith, after.2, opened.2, same.2),
      )

  -- The loop has a result, within the limit.
  abbrev pub Finishes : Option (Result (AgenticResult V) AgenticError) × LoopState V → Type 0
  Finishes o =
      ((r : Result (AgenticResult V) AgenticError) × (o.0 ≡ some r))
      × (o.1.round_trips ≤ spec.max_tool_iterations)
      × (length o.1.requests ≤ 4 * spec.max_tool_iterations)

  abbrev InTime : ℕ → LoopState V → Type 0
  InTime fuel st =
      (st.iterations + fuel ≡ suc spec.max_tool_iterations)
      × (st.iterations ≤ spec.max_tool_iterations)
      × (st.round_trips ≤ st.iterations)
      × (length st.requests ≤ 4 * st.round_trips)

  after_iteration-Finishes :
      (rest : LoopState V → Option (Result (AgenticResult V) AgenticError) × LoopState V)
      (o : Option (Result (AgenticResult V) AgenticError) × LoopState V) (fuel : ℕ)
      → ((s : LoopState V) → InTime fuel s → Finishes (rest s))
      → InTime fuel o.1
      → Finishes (after_iteration json env world spec rest o)
  unfolding after_iteration
  after_iteration-Finishes rest (some r, st) fuel ih h =
      ((r, refl), omega (arith, h), omega (arith, h))
  after_iteration-Finishes rest (none, st) fuel ih h = ih st h

  agentic_loop-Finishes :
      (to_json : List ToolCall → Option String) (end_ fuel : ℕ) (st : LoopState V)
      → spec.max_tool_iterations + 1 < 2 ^ 32
      → InTime fuel st
      → Finishes (agentic_loop json env world spec to_json end_ fuel st)
  unfolding agentic_loop
  agentic_loop-Finishes to_json end_ zero st m h = absurd (omega (arith, h))
  agentic_loop-Finishes to_json end_ (suc fuel) st m h =
      let st1 : LoopState V = next_iteration json env world spec st in
      let exceeded : Result (AgenticResult V) AgenticError =
        err (max_iterations_exceeded spec.max_tool_iterations) in
      let turn = iteration-Within to_json end_ st1 in
      elim (Bool-cases (ltb spec.max_tool_iterations st1.iterations)) [
        | inl e ↦ rw e ((exceeded, refl), omega (arith, h), omega (arith, h))
        | inr e ↦ rw e (
            after_iteration-Finishes (agentic_loop json env world spec to_json end_ fuel) _ fuel
              (λ s k. agentic_loop-Finishes to_json end_ fuel s m k)
              (
                omega (arith, turn, h, m),
                (let below : st1.iterations ≤ spec.max_tool_iterations = ground (arith, e) in
                    omega (arith, turn, below)),
                omega (arith, turn, h, m),
                omega (arith, turn, h, m),
              ))
      ]

  -- If the limit is below 2^32 - 1, the loop returns, and it has then made at most as many round trips
  -- to the model as the limit allows iterations, and at most four times as many requests as that.
  pub run_agentic_loop-Finishes :
      (to_json : List ToolCall → Option String) (executor : ToolExecutor)
      (commands : List (SessionCommand V)) (initial : List Message)
      → spec.max_tool_iterations + 1 < 2 ^ 32
      → Finishes (run_agentic_loop json env world spec to_json executor commands initial)
  unfolding run_agentic_loop
  run_agentic_loop-Finishes to_json executor commands initial m =
      agentic_loop-Finishes to_json (length initial) _
        (start json env world spec executor commands initial) m
        (omega arith, omega arith, omega arith, omega arith)
