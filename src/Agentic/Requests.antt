-- ===== src/Agentic/Requests.antt =====
-- The requests that the agentic loop sends to the model.
use agnx.Session.Event.{Usage}
use agnx.Agentic.Outcomes.{NeverAsks}
use agnx.Common.{
  String, ◌≡◌, refl, true, Option, none, some, List, [], ◌∷◌, str_eq, ltb, length, Result, ok, All,
  if_both, ℕ, zero, suc, false, err,
}
use agnx.Session.Message.{Message, ToolCall, assistant_tool_calls}
use agnx.Context.Dropping.{drop_oldest_iterations}
use agnx.Tools.Json.{Json}
use agnx.Tools.Executor.{Environment}
use agnx.Agentic.{
  max_iterations_exceeded, wait, next, other, ToolsOutcome, rate_limit, LlmError, StreamEvent,
  World, AgentSpec, LoopState, AgenticError, AgenticResult, awaiting_approval, SteeringMessage,
  build_assistant_message,
}
use agnx.Agentic.Calls.{drain_steering, drained}
use agnx.Agentic.Loop.{
  after_answer, after_tools, next_iteration, record_response, agentic_loop, after_iteration,
  iteration, record_final, rebuild_if, prepare, prepare_later, mask_later, inject_if_any,
  loop_token_budget,
}
use agnx.Agentic.Model.{requested, attempt, call_llm, open_stream, after_attempt}
use agnx.Agentic.Answers.{Owes-after, owed, owed_by, Owes, call_ids}
use agnx.Agentic.Pairing.{run_tool_calls-Paired, Paired, inject-Holds}
use agnx.Agentic.Masked.{mask_tool_results-IsAnswered}
use agnx.Agentic.Drained.{drop_oldest_iterations-IsAnswered}

owed_response :
    (content : String) (calls : List ToolCall)
    → owed true [] (build_assistant_message content calls ∷ []) ≡ some (call_ids (some calls))
unfolding owed owed_by build_assistant_message
owed_response content calls =
    if_both (λ m. owed true [] (m ∷ []) ≡ some (call_ids (some calls))) (str_eq content "")
      {x = assistant_tool_calls calls} refl refl

module _ (conversation : List Message) where
  -- Each request has the conversation, and behind it no call without a result.
  abbrev pub AllAnswered : List (List Message) → Type 0
  AllAnswered requests = All (λ r. Owes true conversation r []) requests

  abbrev pub Sound : {V : Type 0} → LoopState V → Type 0
  Sound st = Owes true conversation st.messages [] × AllAnswered st.requests

  -- A pause leaves one call without a result, the one that waits for approval.
  abbrev pub IsResumable : {V : Type 0} → Option (Result (AgenticResult V) AgenticError) → Type 0
  IsResumable (some (ok (awaiting_approval p content usage iterations calls))) =
      Owes true conversation p.messages (p.call_id ∷ [])
  IsResumable _ = Unit {0}

  abbrev pub Ends :
      {V : Type 0} → Option (Result (AgenticResult V) AgenticError) × LoopState V → Type 0
  Ends (none, st) = Sound st
  Ends (some r, st) = AllAnswered st.requests × IsResumable (some r)

module _ {V : Type 0} (json : Json V) (env : Environment) (world : World) (spec : AgentSpec V)
    (to_json : List ToolCall → Option String) (conversation : List Message) where
  abbrev P : List Message → Type 0
  P l = Owes true conversation l []

  mask_later-Sound :
      (st : LoopState V)
      → Sound conversation st
      → Sound conversation (mask_later json env world spec to_json (length conversation) st)
  mask_later-Sound st ((x, e, h), r) =
      (rw e (mask_tool_results-IsAnswered to_json world.placeholder true conversation x _ _ h), r)

  inject_if_any-Sound :
      (steered : List SteeringMessage) (st : LoopState V)
      → Sound conversation st
      → Sound conversation (inject_if_any json env world spec steered st)
  inject_if_any-Sound [] st h = h
  inject_if_any-Sound (m ∷ steered) st (h, r) =
      let (h', e) = inject-Holds true conversation st.requests (m ∷ steered) st (h, refl) in
      (h', rw e r)

  drop-Sound :
      (st : LoopState V)
      → Sound conversation st
      → P (
          drop_oldest_iterations to_json st.messages
            (length conversation)
            (loop_token_budget json env world spec))
        × AllAnswered conversation st.requests
  drop-Sound st ((x, e, h), r) =
      (rw e (drop_oldest_iterations-IsAnswered to_json conversation x _ h), r)

  prepare-Sound :
      (st : LoopState V)
      → Sound conversation st
      → Sound conversation (prepare json env world spec to_json (length conversation) st)
  unfolding prepare prepare_later
  prepare-Sound st h =
      let steered = drain_steering world st in
      let st1 : LoopState V = inject_if_any json env world spec steered (drained st) in
      let later : LoopState V = mask_later json env world spec to_json (length conversation) st1 in
      let sound = mask_later-Sound st1 (inject_if_any-Sound steered (drained st) h) in
      drop-Sound (prepare_later json env world spec to_json (length conversation) st) (
        if_both (λ (s : LoopState V). Sound conversation s) (ltb 1 st.iterations) {x = later}
          {y = st} sound h)

  abbrev Opened : Result (List (Result StreamEvent LlmError)) AgenticError × LoopState V → Type 0
  Opened (r, st) = Sound conversation st

  after_attempt-Sound :
      (retry : Option ℕ
        → LoopState V
        → Result (List (Result StreamEvent LlmError)) AgenticError × LoopState V)
      (answer : Result (List (Result StreamEvent LlmError)) LlmError) (st : LoopState V)
      → ((after : Option ℕ) (s : LoopState V) → Sound conversation s → Opened (retry after s))
      → Sound conversation st
      → Opened (after_attempt json env world spec retry answer st)
  unfolding after_attempt
  after_attempt-Sound retry (ok stream) st ih h = h
  after_attempt-Sound retry (err (rate_limit after)) st ih h = ih after st h
  after_attempt-Sound retry (err (other e)) st ih h = h

  open_stream-Sound :
      (left : ℕ) (st : LoopState V)
      → Sound conversation st
      → Opened (open_stream json env world spec left st)
  unfolding open_stream
  open_stream-Sound zero st (h, r) =
      after_attempt-Sound _ (attempt json env world spec st) (requested json env world spec st)
        (λ after s k. k) (h, (h, r))
  open_stream-Sound (suc left) st (h, r) =
      after_attempt-Sound _ (attempt json env world spec st) (requested json env world spec st)
        (λ after s k. open_stream-Sound left _ k) (h, (h, r))

  call_llm-Sound :
      (st : LoopState V)
      → Sound conversation st
      → Sound conversation (call_llm json env world spec st).1
  unfolding call_llm
  call_llm-Sound st h = open_stream-Sound _ st h

  module _ (plain : NeverAsks env) (no_hooks : spec.hooks.after_tool ≡ []) where
    after_tools-Ends :
        (content : String) (o : ToolsOutcome V × LoopState V) (requests : List (List Message))
        → AllAnswered conversation requests
        → Paired true conversation requests o
        → Ends conversation (after_tools json env world spec content o)
    unfolding rebuild_if
    after_tools-Ends content (next reload, st) requests r (h, e) =
        if_both (λ (s : LoopState V). Sound conversation s) reload {y = st} (h, rw e r) (h, rw e r)
    after_tools-Ends content (wait p, st) requests r (h, e) = (rw e r, h)

    after_answer-Ends :
        (answer : Result (String × List ToolCall × Option Usage) AgenticError) (st : LoopState V)
        → Sound conversation st
        → Ends conversation (after_answer json env world spec answer st)
    unfolding record_final record_response
    after_answer-Ends (err e) st (h, r) = (r, tt)
    after_answer-Ends (ok (content, [], usage)) st (h, r) = (r, tt)
    after_answer-Ends (ok (content, call ∷ calls, usage)) st (h, r) =
        after_tools-Ends content _ st.requests r (
          run_tool_calls-Paired json env world spec plain true (λ e. no_hooks) conversation
            st.requests (call ∷ calls) false
            (record_response json env world spec content (call ∷ calls) usage st)
            (
              Owes-after true conversation st.messages
                  (build_assistant_message content (call ∷ calls) ∷ []) h
                  (owed_response content (call ∷ calls)),
              refl,
            ))

    iteration-Ends :
        (st : LoopState V)
        → Sound conversation st
        → Ends conversation (iteration json env world spec to_json (length conversation) st)
    unfolding iteration
    iteration-Ends st h = after_answer-Ends _ _ (call_llm-Sound _ (prepare-Sound st h))

    after_iteration-Ends :
        (rest : LoopState V → Option (Result (AgenticResult V) AgenticError) × LoopState V)
        (o : Option (Result (AgenticResult V) AgenticError) × LoopState V)
        → ((s : LoopState V) → Sound conversation s → Ends conversation (rest s))
        → Ends conversation o
        → Ends conversation (after_iteration json env world spec rest o)
    unfolding after_iteration
    after_iteration-Ends rest (some r, st) ih h = h
    after_iteration-Ends rest (none, st) ih h = ih st h

    pub agentic_loop-Ends :
        (fuel : ℕ) (st : LoopState V)
        → Sound conversation st
        → Ends conversation (agentic_loop json env world spec to_json (length conversation) fuel st)
    unfolding agentic_loop
    agentic_loop-Ends zero st h = h
    agentic_loop-Ends (suc fuel) st h =
        let st1 : LoopState V = next_iteration json env world spec st in
        let Q : Option (Result (AgenticResult V) AgenticError) × LoopState V → Type 0 =
          λ o. Ends conversation o in
        if_both Q (ltb spec.max_tool_iterations st1.iterations)
          {x = (some (err (max_iterations_exceeded spec.max_tool_iterations)), st1)} (h.1, tt)
          (after_iteration-Ends _ _ (agentic_loop-Ends fuel) (iteration-Ends st1 h))
