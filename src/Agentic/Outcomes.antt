-- ===== src/Agentic/Outcomes.antt =====
-- What one tool call of the agentic loop leaves of the state and gives to the conversation.
use agnx.Common.{
  ℕ, String, ◌≡◌, refl, ◌⊎◌, inl, inr, Bool, true, false, not, Option, none, some, List, [], arith,
  Result, ok, err, if_both, Bool-cases,
}
use agnx.Agentic.Calls.{execute_tool_call, guarded_call, handle_result, finish_call}
use agnx.Tools.Hooks.{HookContext, GuardVerdict}
use agnx.Tools.Steering.{collect, run_after_tool}
use agnx.Agentic.{World, paused, steering_message, executed, ToolCallOutcome, AgentSpec, LoopState}
use agnx.Session.Message.{Role, text, tool_result, Message, ToolCall}
use agnx.Session.Event.{ToolResultData}
use agnx.Policy.{PolicyDecision}
use agnx.Tools.Json.{Json}
use agnx.Tools.Executor.{
  execute_found, execute_decided, Tool, ToolError, ToolExecutor, Environment, execute, execute_tool,
}

-- A result that asks for no approval other than the one of the call `id`.
abbrev pub Asks : String → Result ToolResultData ToolError → Type 0
Asks id (err (ToolError.approval_required call_id command tool_type)) = call_id ≡ id
Asks id _ = Unit {0}

-- A tool itself asks for no approval.
abbrev pub NeverAsks : Environment → Type 0
NeverAsks env = (n : ℕ) (tool : Tool) (arguments id : String) → Asks id (env.run n tool arguments)

module _ {V : Type 0} (json : Json V) (env : Environment) (plain : NeverAsks env) where
  execute_decided-Asks :
      (d : PolicyDecision) (tool : Tool) (call : ToolCall) (invocation : String) (ex : ToolExecutor)
      → Asks call.id (execute_decided json env d tool call invocation ex).0
  unfolding execute_decided execute_tool
  execute_decided-Asks PolicyDecision.deny tool call invocation ex = tt
  execute_decided-Asks PolicyDecision.ask tool call invocation ex = refl
  execute_decided-Asks PolicyDecision.allow tool call invocation ex = plain _ tool _ call.id

  execute_found-Asks :
      (found : Option Tool) (call : ToolCall) (ex : ToolExecutor)
      → Asks call.id (execute_found json env found call ex).0
  unfolding execute_found
  execute_found-Asks none call ex = tt
  execute_found-Asks (some tool) call ex = execute_decided-Asks _ tool call _ ex

  execute-Asks : (call : ToolCall) (ex : ToolExecutor) → Asks call.id (execute json env call ex).0
  unfolding execute
  execute-Asks call ex = execute_found-Asks _ call ex

-- The result of a call comes at once, with a steering message behind it only if a hook after the
-- tools gives one.
abbrev pub Settles : Bool → ToolCall → Message → Option Message → Type 0
Settles quiet call m steering =
    ((content : String) × (m ≡ tool_result call.id content))
    × ((steering ≡ none)
        ⊎ ((t : String) × (steering ≡ some (text Role.steering t)) × (quiet ≡ false)))

-- What the outcome of a call says of the conversation: the call has its result, or it waits.
abbrev pub Fits : {V : Type 0} → Bool → ToolCall → List Message → ToolCallOutcome V → Type 0
Fits quiet call messages (executed m steering) = Settles quiet call m steering
Fits quiet call messages (paused p) = (p.call_id ≡ call.id) × (p.messages ≡ messages)

-- The parts of the state that a call leaves alone.
abbrev pub Same : {V : Type 0} → LoopState V → LoopState V → Type 0
Same a b = (a.messages ≡ b.messages) × (a.requests ≡ b.requests)

module _ {V : Type 0} (json : Json V) (env : Environment) (world : World) (spec : AgentSpec V)
    (plain : NeverAsks env) (quiet : Bool)
    (no_hooks : quiet ≡ true → spec.hooks.after_tool ≡ []) where
  steering-Fits :
      (o : Option String)
      → (quiet ≡ true → o ≡ none)
      → (steering_message o ≡ none)
        ⊎ ((t : String) × (steering_message o ≡ some (text Role.steering t)) × (quiet ≡ false))
  steering-Fits none h = inl refl
  steering-Fits (some msg) h = elim (Bool-cases quiet) [
    | inl e ↦ absurd (ground (arith, h e))
    | inr e ↦ inr (_, refl, e)
  ]

  run_after_tool_quiet :
      (ctx : HookContext V) (r : ToolResultData)
      → quiet ≡ true
      → run_after_tool json spec.hooks ctx r ≡ none
  unfolding run_after_tool collect
  run_after_tool_quiet ctx r h = rw (no_hooks h) (if_both (λ o. o ≡ none) (not r.success) refl refl)

  finish_call-Fits :
      (call : ToolCall) (r : ToolResultData) (st : LoopState V)
      → Fits quiet call st.messages (finish_call json env world spec call r st).0
        × Same (finish_call json env world spec call r st).1 st
  unfolding finish_call
  finish_call-Fits call r st =
      (((_, refl), steering-Fits _ (run_after_tool_quiet _ r)), (refl, refl))

  handle_result-Fits :
      (call : ToolCall) (r : Result ToolResultData ToolError) (st : LoopState V)
      → Asks call.id r
      → Fits quiet call st.messages (handle_result json env world spec call r st).0
        × Same (handle_result json env world spec call r st).1 st
  unfolding handle_result
  handle_result-Fits call (ok r) st h = finish_call-Fits call r st
  handle_result-Fits call (err (ToolError.approval_required i c t)) st h = ((h, refl), (refl, refl))
  handle_result-Fits call (err (ToolError.policy_denied c)) st h = finish_call-Fits call _ st
  handle_result-Fits call (err (ToolError.not_found c)) st h = finish_call-Fits call _ st
  handle_result-Fits call (err (ToolError.invalid_arguments c)) st h = finish_call-Fits call _ st
  handle_result-Fits call (err (ToolError.execution_failed c)) st h = finish_call-Fits call _ st
  handle_result-Fits call (err (ToolError.sandbox c)) st h = finish_call-Fits call _ st
  handle_result-Fits call (err (ToolError.io c)) st h = finish_call-Fits call _ st

  guarded_call-Fits :
      (v : GuardVerdict) (call : ToolCall) (st : LoopState V)
      → Fits quiet call st.messages (guarded_call json env world spec v call st).0
        × Same (guarded_call json env world spec v call st).1 st
  unfolding guarded_call
  guarded_call-Fits (GuardVerdict.reject reason) call st = (((_, refl), inl refl), (refl, refl))
  guarded_call-Fits GuardVerdict.allow call st =
      handle_result-Fits call _ _ (execute-Asks json env plain call st.executor)

  pub execute_tool_call-Fits :
      (call : ToolCall) (st : LoopState V)
      → Fits quiet call st.messages (execute_tool_call json env world spec call st).0
        × Same (execute_tool_call json env world spec call st).1 st
  unfolding execute_tool_call
  execute_tool_call-Fits call st = guarded_call-Fits _ call st
