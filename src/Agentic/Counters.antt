-- ===== src/Agentic/Counters.antt =====
-- What the parts of an iteration keep, of the counters of the agentic loop and of its executor.
use agnx.Agentic.Loop.{
  mask_later, after_answer, inject_if_any, record_response, after_tools, prepare_later,
  record_final, rebuild_if, prepare,
}
use agnx.Common.{
  ℕ, String, Bool, List, [], ◌∷◌, length, Result, ok, err, if_both, false, Option, ltb,
}
use agnx.Session.Message.{text, ToolCall, Role}
use agnx.Session.Event.{Usage, ToolResultData}
use agnx.Tools.Json.{Json}
use agnx.Tools.Hooks.{GuardVerdict}
use agnx.Tools.Executor.{ToolExecutor, execute, rebuild, Environment, ToolError}
use agnx.Agentic.{
  wait, next, AgenticError, World, AgentSpec, LoopState, ToolsOutcome, SteeringMessage,
  ToolCallOutcome, executed, paused,
}
use agnx.Agentic.Calls.{
  drain_steering, steering_list, execute_tool_call, guarded_call, handle_result, finish_call,
  run_tool_calls, after_call, check_steering, inject_steered_messages, skip, push, persist, count,
  drained,
}

-- A property of the counters and of the executor.
abbrev pub Keeps : {V : Type 0} → (ℕ → ℕ → ℕ → ToolExecutor → Type 0) → LoopState V → Type 0
Keeps Q st = Q st.iterations st.round_trips (length st.requests) st.executor

module _ {V : Type 0} (Q : ℕ → ℕ → ℕ → ToolExecutor → Type 0) where
  inject-Keeps :
      (steered : List SteeringMessage) (st : LoopState V)
      → Keeps Q st
      → Keeps Q (inject_steered_messages steered st)
  unfolding inject_steered_messages
  inject-Keeps [] st h = h
  inject-Keeps (m ∷ steered) st h =
      let pushed : LoopState V → LoopState V = push (text Role.user m.content ∷ []) in
      if_both (λ (s : LoopState V). Keeps Q (inject_steered_messages steered (pushed s)))
        m.persisted {x = st} {y = persist m st} (inject-Keeps steered (pushed st) h)
        (inject-Keeps steered (pushed (persist m st)) h)

  skip-Keeps :
      (reason : String) (calls : List ToolCall) (st : LoopState V)
      → Keeps Q st
      → Keeps Q (skip reason calls st)
  unfolding skip
  skip-Keeps reason [] st h = h
  skip-Keeps reason (c ∷ calls) st h = h

  check_steering-Keeps :
      (rest : LoopState V → ToolsOutcome V × LoopState V) (calls : List ToolCall) (reload : Bool)
      (st : LoopState V) (steered : List SteeringMessage)
      → ((s : LoopState V) → Keeps Q s → Keeps Q (rest s).1)
      → Keeps Q st
      → Keeps Q (check_steering rest calls reload st steered).1
  unfolding check_steering
  check_steering-Keeps rest calls reload st [] ih h = ih st h
  check_steering-Keeps rest calls reload st (m ∷ steered) ih h =
      inject-Keeps (m ∷ steered) (skip "new user message received" calls st)
        (skip-Keeps _ calls st h)

module _ {V : Type 0} (json : Json V) (env : Environment) (world : World) (spec : AgentSpec V)
    (Q : ℕ → ℕ → ℕ → ToolExecutor → Type 0)
    (executes : (call : ToolCall) (i r n : ℕ) (ex : ToolExecutor)
      → Q i r n ex
      → Q i r n (execute json env call ex).1)
    (rebuilds : (i r n : ℕ) (ex : ToolExecutor) → Q i r n ex → Q i r n (rebuild json env ex)) where
  after_call-Keeps :
      (rest : LoopState V → ToolsOutcome V × LoopState V) (calls : List ToolCall) (reload : Bool)
      (o : ToolCallOutcome V) (st : LoopState V)
      → ((s : LoopState V) → Keeps Q s → Keeps Q (rest s).1)
      → Keeps Q st
      → Keeps Q (after_call world rest calls reload (o, st)).1
  unfolding after_call
  after_call-Keeps rest calls reload (paused p) st ih h = skip-Keeps Q _ calls st h
  after_call-Keeps rest calls reload (executed m s) st ih h =
      check_steering-Keeps Q rest calls reload (drained (push (m ∷ steering_list s) st)) _ ih h

  handle_result-Keeps :
      (call : ToolCall) (o : Result ToolResultData ToolError) (st : LoopState V)
      → Keeps Q st
      → Keeps Q (handle_result json env world spec call o st).1
  unfolding handle_result finish_call
  handle_result-Keeps call (ok o) st h = h
  handle_result-Keeps call (err (ToolError.approval_required a b c)) st h = h
  handle_result-Keeps call (err (ToolError.policy_denied c)) st h = h
  handle_result-Keeps call (err (ToolError.not_found c)) st h = h
  handle_result-Keeps call (err (ToolError.invalid_arguments c)) st h = h
  handle_result-Keeps call (err (ToolError.execution_failed c)) st h = h
  handle_result-Keeps call (err (ToolError.sandbox c)) st h = h
  handle_result-Keeps call (err (ToolError.io c)) st h = h

  guarded_call-Keeps :
      (v : GuardVerdict) (call : ToolCall) (st : LoopState V)
      → Keeps Q st
      → Keeps Q (guarded_call json env world spec v call st).1
  unfolding guarded_call
  guarded_call-Keeps (GuardVerdict.reject reason) call st h = h
  guarded_call-Keeps GuardVerdict.allow call st h =
      handle_result-Keeps call _ _ (executes call _ _ _ _ h)

  run_tool_calls-Keeps :
      (calls : List ToolCall) (reload : Bool) (st : LoopState V)
      → Keeps Q st
      → Keeps Q (run_tool_calls json env world spec calls reload st).1
  unfolding run_tool_calls execute_tool_call
  run_tool_calls-Keeps [] reload st h = h
  run_tool_calls-Keeps (call ∷ calls) reload st h =
      after_call-Keeps _ calls _ _ _ (run_tool_calls-Keeps calls _)
        (guarded_call-Keeps _ call (count st) h)

  pub prepare-Keeps :
      (to_json : List ToolCall → Option String) (end_ : ℕ) (st : LoopState V)
      → Keeps Q st
      → Keeps Q (prepare json env world spec to_json end_ st)
  unfolding prepare prepare_later
  prepare-Keeps to_json end_ st h =
      let steered = drain_steering world st in
      let st1 : LoopState V = inject_if_any json env world spec steered (drained st) in
      let later : LoopState V = mask_later json env world spec to_json end_ st1 in
      if_both (λ (s : LoopState V). Keeps Q s) (ltb 1 st.iterations) {x = later} {y = st}
        (injected steered (drained st) h) h
    where
      injected :
          (steered : List SteeringMessage) (s : LoopState V)
          → Keeps Q s
          → Keeps Q (inject_if_any json env world spec steered s)
      injected [] s k = k
      injected (m ∷ steered) s k = inject-Keeps Q (m ∷ steered) s k

  after_tools-Keeps :
      (content : String) (o : ToolsOutcome V × LoopState V)
      → Keeps Q o.1
      → Keeps Q (after_tools json env world spec content o).1
  unfolding rebuild_if
  after_tools-Keeps content (next reload, st) h =
      if_both (λ (s : LoopState V). Keeps Q s) reload {y = st} (rebuilds _ _ _ _ h) h
  after_tools-Keeps content (wait p, st) h = h

  pub after_answer-Keeps :
      (answer : Result (String × List ToolCall × Option Usage) AgenticError) (st : LoopState V)
      → Keeps Q st
      → Keeps Q (after_answer json env world spec answer st).1
  unfolding record_final record_response
  after_answer-Keeps (err e) st h = h
  after_answer-Keeps (ok (content, [], usage)) st h = h
  after_answer-Keeps (ok (content, call ∷ calls, usage)) st h = after_tools-Keeps content _ (
      run_tool_calls-Keeps (call ∷ calls) false
        (record_response json env world spec content (call ∷ calls) usage st) h)
