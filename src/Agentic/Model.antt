-- ===== src/Agentic/Model.antt =====
-- The round trip to the model of crates/duragent/src/session/agentic_loop.rs, with its retries.
use agnx.Common.{
  ℕ, zero, suc, ◌+◌, ◌-◌, ◌^◌, String, Option, none, some, List, [], ◌∷◌, if◌then◌else◌, length,
  Result, ok, err,
}
use agnx.Session.Event.{Usage}
use agnx.Session.Message.{ToolCall}
use agnx.Tools.Json.{Json}
use agnx.Tools.Executor.{Environment}
use agnx.Agentic.{
  LlmError, rate_limit, other, StreamEvent, AgenticError, llm, llm_timeout, AgentSpec, World,
  LoopState, max_retries, consume,
}

module _ {V : Type 0} (json : Json V) (env : Environment) (world : World) (spec : AgentSpec V) where
  abbrev pub requested : LoopState V → LoopState V
  requested st = record st { requests = st.messages ∷ st.requests }

  abbrev pub delay : Option ℕ → ℕ → ℕ
  delay (some seconds) attempt = seconds
  delay none attempt = 2 ^ attempt

  abbrev pub slept_for : ℕ → LoopState V → LoopState V
  slept_for seconds st = record st { slept = seconds ∷ st.slept }

  -- What follows an attempt; `retry` goes on after a rate limit.
  unfoldable pub after_attempt :
      (Option ℕ
        → LoopState V
        → Result (List (Result StreamEvent LlmError)) AgenticError × LoopState V)
      → Result (List (Result StreamEvent LlmError)) LlmError
      → LoopState V
      → Result (List (Result StreamEvent LlmError)) AgenticError × LoopState V
  after_attempt retry (ok stream) st = (ok stream, st)
  after_attempt retry (err (rate_limit retry_after)) st = retry retry_after st
  after_attempt retry (err (other e)) st = (err (llm (other e)), st)

  abbrev pub attempt : LoopState V → Result (List (Result StreamEvent LlmError)) LlmError
  attempt st = world.chat (length st.requests) st.messages st.executor.rebuilds

  -- The loop over the attempts to open the stream, with `left` retries left.
  unfoldable pub open_stream :
      ℕ → LoopState V → Result (List (Result StreamEvent LlmError)) AgenticError × LoopState V
  open_stream zero st =
      after_attempt (λ retry_after st1. (err (llm (rate_limit retry_after)), st1)) (attempt st)
        (requested st)
  open_stream (suc left) st =
      after_attempt
        (λ retry_after st1.
          open_stream left (slept_for (delay retry_after (max_retries - left)) st1))
        (attempt st) (requested st)

  abbrev pub and_then : {A B E : Type 0} → Result A E → (A → Result B E) → Result B E
  and_then (ok a) f = f a
  and_then (err e) f = err e

  -- The round trip to the model under its timeout.
  unfoldable pub call_llm :
      LoopState V → Result (String × List ToolCall × Option Usage) AgenticError × LoopState V
  call_llm st =
      let (stream, st1) = open_stream max_retries st in
      let st2 = record st1 { round_trips = st.round_trips + 1 } in
      let answer = and_then stream (consume "" [] none) in
      (
        if world.timed_out st.round_trips
            then err (llm_timeout spec.llm_timeout_seconds)
            else answer,
        st2,
      )
