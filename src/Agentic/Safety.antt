-- ===== src/Agentic/Safety.antt =====
-- Which tools the agentic loop runs.
use agnx.Common.{
  ◌≡◌, refl, sym, ap, ◌∙◌, not, Option, none, some, List, codes, All, if_both, ℕ, zero, suc, ◌-◌,
  String, ltb, length, Result, ok, err,
}
use agnx.Session.Commands.{SessionCommand}
use agnx.Agentic.Model.{after_attempt, attempt, open_stream, call_llm, requested, slept_for, delay}
use agnx.Agentic.Loop.{
  prepare, iteration, after_iteration, agentic_loop, next_iteration, run_agentic_loop, start,
}
use agnx.Agentic.Counters.{prepare-Keeps, after_answer-Keeps}
use agnx.Agentic.{
  World, AgentSpec, LoopState, LlmError, rate_limit, other, StreamEvent, AgenticError,
  AgenticResult, max_iterations_exceeded, max_retries,
}
use agnx.Session.Message.{Message, ToolCall}
use agnx.Policy.{ToolPolicy, PolicyDecision, check}
use agnx.Tools.Json.{Json}
use agnx.Tools.Executor.{
  install, Environment, ToolExecutor, Tool, execute, execute_found, execute_decided, execute_tool,
  invocation_of, rebuild,
}

module _ {V : Type 0} (json : Json V) (env : Environment) (policy : ToolPolicy) where
  -- The policy allows the tool for what the call asks.
  abbrev pub IsAllowed : Tool × ToolCall → Type 0
  IsAllowed (tool, call) =
      check policy tool.tool_type (codes (invocation_of json env tool.tool_type call))
      ≡ PolicyDecision.allow

  abbrev pub AllAllowed : ToolExecutor → Type 0
  AllAllowed ex = (ex.policy ≡ policy) × All IsAllowed ex.runs

  execute_decided-AllAllowed :
      (d : PolicyDecision) (tool : Tool) (call : ToolCall) (ex : ToolExecutor)
      → check ex.policy tool.tool_type (codes (invocation_of json env tool.tool_type call)) ≡ d
      → AllAllowed ex
      → AllAllowed
          (execute_decided json env d tool call (invocation_of json env tool.tool_type call) ex).1
  unfolding execute_decided execute_tool
  execute_decided-AllAllowed PolicyDecision.deny tool call ex e h = h
  execute_decided-AllAllowed PolicyDecision.ask tool call ex e h = h
  execute_decided-AllAllowed PolicyDecision.allow tool call ex e (same, h) = (
    same,
    (
      ap (λ p. check p tool.tool_type (codes (invocation_of json env tool.tool_type call)))
            (sym same)
          ∙ e,
      h,
    ),
  )

  execute_found-AllAllowed :
      (found : Option Tool) (call : ToolCall) (ex : ToolExecutor)
      → AllAllowed ex
      → AllAllowed (execute_found json env found call ex).1
  unfolding execute_found
  execute_found-AllAllowed none call ex h = h
  execute_found-AllAllowed (some tool) call ex h = execute_decided-AllAllowed _ tool call ex refl h

  execute-AllAllowed :
      (call : ToolCall) (ex : ToolExecutor)
      → AllAllowed ex
      → AllAllowed (execute json env call ex).1
  unfolding execute
  execute-AllAllowed call ex h = execute_found-AllAllowed _ call ex h

  install-AllAllowed :
      (found : Option (List Tool × List Tool)) (ex : ToolExecutor)
      → AllAllowed ex
      → AllAllowed (install json env found ex)
  unfolding install
  install-AllAllowed none ex h = h
  install-AllAllowed (some (explicit, discovered)) ex h = h

  rebuild-AllAllowed : (ex : ToolExecutor) → AllAllowed ex → AllAllowed (rebuild json env ex)
  unfolding rebuild
  rebuild-AllAllowed ex h =
      if_both (λ (x : ToolExecutor). AllAllowed x) (not ex.has_reload_deps) {x = ex} h
        (install-AllAllowed (env.rebuilt ex.rebuilds) ex h)

module _ {V : Type 0} (json : Json V) (env : Environment) (world : World) (spec : AgentSpec V)
    (policy : ToolPolicy) where
  abbrev Good : LoopState V → Type 0
  Good st = AllAllowed json env policy st.executor

  abbrev Q : ℕ → ℕ → ℕ → ToolExecutor → Type 0
  Q i r n ex = AllAllowed json env policy ex

  after_attempt-Good :
      (retry : Option ℕ
        → LoopState V
        → Result (List (Result StreamEvent LlmError)) AgenticError × LoopState V)
      (answer : Result (List (Result StreamEvent LlmError)) LlmError) (st : LoopState V)
      → ((after : Option ℕ) → Good (retry after st).1)
      → Good st
      → Good (after_attempt json env world spec retry answer st).1
  unfolding after_attempt
  after_attempt-Good retry (ok stream) st ih h = h
  after_attempt-Good retry (err (rate_limit after)) st ih h = ih after
  after_attempt-Good retry (err (other e)) st ih h = h

  open_stream-Good :
      (left : ℕ) (st : LoopState V) → Good st → Good (open_stream json env world spec left st).1
  unfolding open_stream
  open_stream-Good zero st h =
      after_attempt-Good _ (attempt json env world spec st) (requested json env world spec st)
        (λ after. h) h
  open_stream-Good (suc left) st h =
      after_attempt-Good _ (attempt json env world spec st) (requested json env world spec st)
        (λ after.
          open_stream-Good left
            (slept_for json env world spec (delay json env world spec after (max_retries - left))
              (requested json env world spec st))
            h)
        h

  iteration-Good :
      (to_json : List ToolCall → Option String) (end_ : ℕ) (st : LoopState V)
      → Good st
      → Good (iteration json env world spec to_json end_ st).1
  unfolding iteration call_llm
  iteration-Good to_json end_ st h =
      let executes =
        λ (call : ToolCall) (i r n : ℕ) (ex : ToolExecutor) (g : AllAllowed json env policy ex).
          execute-AllAllowed json env policy call ex g in
      let rebuilds = λ (i r n : ℕ) (ex : ToolExecutor) (g : AllAllowed json env policy ex).
        rebuild-AllAllowed json env policy ex g in
      let st1 : LoopState V = prepare json env world spec to_json end_ st in
      let (answer, st2) = call_llm json env world spec st1 in
      after_answer-Keeps json env world spec Q executes rebuilds answer st2 (
        open_stream-Good 3 st1
          (prepare-Keeps json env world spec Q executes rebuilds to_json end_ st h))

  after_iteration-Good :
      (rest : LoopState V → Option (Result (AgenticResult V) AgenticError) × LoopState V)
      (o : Option (Result (AgenticResult V) AgenticError) × LoopState V)
      → ((s : LoopState V) → Good s → Good (rest s).1)
      → Good o.1
      → Good (after_iteration json env world spec rest o).1
  unfolding after_iteration
  after_iteration-Good rest (some r, st) ih h = h
  after_iteration-Good rest (none, st) ih h = ih st h

  agentic_loop-Good :
      (to_json : List ToolCall → Option String) (end_ fuel : ℕ) (st : LoopState V)
      → Good st
      → Good (agentic_loop json env world spec to_json end_ fuel st).1
  unfolding agentic_loop
  agentic_loop-Good to_json end_ zero st h = h
  agentic_loop-Good to_json end_ (suc fuel) st h =
      let st1 : LoopState V = next_iteration json env world spec st in
      let P : Option (Result (AgenticResult V) AgenticError) × LoopState V → Type 0 =
        λ o. Good o.1 in
      if_both P (ltb spec.max_tool_iterations st1.iterations)
        {x = (some (err (max_iterations_exceeded spec.max_tool_iterations)), st1)} h
        (after_iteration-Good _ _ (agentic_loop-Good to_json end_ fuel)
          (iteration-Good to_json end_ st1 h))

  -- If the executor's policy allows each tool that it has run, then this holds after the loop: a tool
  -- is run only if the policy allows its type and what the call asks, whatever the model answers; and
  -- the policy is the same.
  pub run_agentic_loop-AllAllowed :
      (to_json : List ToolCall → Option String) (executor : ToolExecutor)
      (commands : List (SessionCommand V)) (initial : List Message)
      → AllAllowed json env policy executor
      → AllAllowed json env policy
          (run_agentic_loop json env world spec to_json executor commands initial).1.executor
  unfolding run_agentic_loop
  run_agentic_loop-AllAllowed to_json executor commands initial h =
      agentic_loop-Good to_json (length initial) _
        (start json env world spec executor commands initial) h
