-- ===== src/Agentic/Loop.antt =====
-- The iterations of the agentic loop: `run_agentic_loop` and `resume_agentic_loop` of
-- crates/duragent/src/session/agentic_loop.rs.
use agnx.Context.Dropping.{drop_oldest_iterations}
use agnx.Context.Truncation.{mask_tool_results}
use agnx.Common.{
  ℕ, zero, suc, ◌-◌, ◌/◌, String, Bool, false, Option, none, some, List, [], ◌∷◌, map, ltb,
  if◌then◌else◌, length, Result, ok, err,
}
use agnx.Session.Event.{PendingApproval, ToolResultData, EventToolCall, Usage}
use agnx.Session.Message.{Message, ToolCall}
use agnx.Session.Commands.{SessionCommand}
use agnx.Context.{add_u32}
use agnx.Tools.Json.{Json}
use agnx.Tools.Executor
use agnx.Tools.Executor.{ToolExecutor, Environment}
use agnx.Agentic.{
  max_iterations_exceeded, AgenticResult, complete, awaiting_approval, ToolsOutcome, next, wait,
  into_messages, SteeringMessage, AgenticError, AgentSpec, World, LoopState, accumulate_usage,
  build_assistant_message,
}
use agnx.Agentic.Calls.{
  run_tool_calls, send, push, inject_steered_messages, drain_steering, drained,
  parse_tool_arguments,
}
use agnx.Agentic.Model.{call_llm}

module _ {V : Type 0} where
  module _ (json : Json V) (env : Environment) (world : World) (spec : AgentSpec V) where
    -- `saturating_sub` of what is kept for the answer
    unfoldable pub loop_token_budget : ℕ
    loop_token_budget =
        let output_reserve : ℕ = elim spec.max_output_tokens [ some n ↦ n | none ↦ 4096 ] in
        spec.max_input - add_u32 output_reserve (spec.max_input / 10)

    abbrev pub inject_if_any : List SteeringMessage → LoopState V → LoopState V
    inject_if_any [] st = st
    inject_if_any (m ∷ ms) st = inject_steered_messages (m ∷ ms) st

    abbrev pub mask_later : (List ToolCall → Option String) → ℕ → LoopState V → LoopState V
    mask_later to_json conversation_end_idx st = record st {
      messages =
          mask_tool_results to_json world.placeholder st.messages conversation_end_idx
            spec.context.tool_result_keep_first spec.context.tool_result_keep_last;
    }

    -- The steering messages and the masking, which the first iteration skips.
    unfoldable pub prepare_later : (List ToolCall → Option String) → ℕ → LoopState V → LoopState V
    prepare_later to_json conversation_end_idx st =
        if ltb 1 st.iterations
        then mask_later to_json conversation_end_idx
            (inject_if_any (drain_steering world st) (drained st))
        else st

    -- What an iteration does before its request.
    unfoldable pub prepare : (List ToolCall → Option String) → ℕ → LoopState V → LoopState V
    prepare to_json conversation_end_idx st =
        let st1 = prepare_later to_json conversation_end_idx st in
        record st1 {
          messages =
              drop_oldest_iterations to_json st1.messages conversation_end_idx loop_token_budget;
        }

    abbrev pub event_tool_call : ToolCall → EventToolCall V
    event_tool_call call = record {
      call_id = call.id;
      tool_name = call.function.name;
      arguments = parse_tool_arguments json call.function.arguments;
    }

    -- What an iteration does with the model's answer, up to the loop over its tool calls.
    unfoldable pub record_response :
        String → List ToolCall → Option Usage → LoopState V → LoopState V
    record_response content calls usage st =
        send (SessionCommand.add_assistant_response content (map event_tool_call calls) usage) (
          push (build_assistant_message content calls ∷ [])
            (record st { total_usage = accumulate_usage st.total_usage usage }))

    -- The same for an answer without tool calls, which ends the loop.
    unfoldable pub record_final : String → Option Usage → LoopState V → LoopState V
    record_final content usage st =
        send (SessionCommand.add_assistant_response content [] usage)
          (record st { total_usage = accumulate_usage st.total_usage usage })

    unfoldable pub rebuild_if : Bool → LoopState V → LoopState V
    rebuild_if reload_requested st =
        if reload_requested
        then record st { executor = Executor.rebuild json env st.executor }
        else st

    -- How an iteration ends: the loop goes on, or returns.
    abbrev pub after_tools :
        String
        → ToolsOutcome V × LoopState V
        → Option (Result (AgenticResult V) AgenticError) × LoopState V
    after_tools content (next reload_requested, st) = (none, rebuild_if reload_requested st)
    after_tools content (wait pending, st) = (
      some (ok (awaiting_approval pending content st.total_usage st.iterations st.tool_calls_made)),
      st,
    )

    abbrev pub after_answer :
        Result (String × List ToolCall × Option Usage) AgenticError
        → LoopState V
        → Option (Result (AgenticResult V) AgenticError) × LoopState V
    after_answer (err e) st = (some (err e), st)
    after_answer (ok (content, [], usage)) st =
        let st1 = record_final content usage st in
        (some (ok (complete content st1.total_usage st1.iterations st1.tool_calls_made)), st1)
    after_answer (ok (content, call ∷ calls, usage)) st = after_tools content (
        run_tool_calls json env world spec (call ∷ calls) false
          (record_response content (call ∷ calls) usage st))

    -- The body of the loop after the test of the limit.
    unfoldable pub iteration :
        (List ToolCall → Option String)
        → ℕ
        → LoopState V
        → Option (Result (AgenticResult V) AgenticError) × LoopState V
    iteration to_json conversation_end_idx st =
        let (answer, st1) =
          call_llm json env world spec (prepare to_json conversation_end_idx st) in
        after_answer answer st1

    abbrev pub next_iteration : LoopState V → LoopState V
    next_iteration st = record st { iterations = add_u32 st.iterations 1 }

    -- `rest` goes on with the loop, where the iteration does not end it.
    unfoldable pub after_iteration :
        (LoopState V → Option (Result (AgenticResult V) AgenticError) × LoopState V)
        → Option (Result (AgenticResult V) AgenticError) × LoopState V
        → Option (Result (AgenticResult V) AgenticError) × LoopState V
    after_iteration rest (some r, st) = (some r, st)
    after_iteration rest (none, st) = rest st

    -- The loop on fuel: `none` where it runs out.
    unfoldable pub agentic_loop :
        (List ToolCall → Option String)
        → ℕ
        → ℕ
        → LoopState V
        → Option (Result (AgenticResult V) AgenticError) × LoopState V
    agentic_loop to_json conversation_end_idx zero st = (none, st)
    agentic_loop to_json conversation_end_idx (suc fuel) st =
        let st1 = next_iteration st in
        let rest = agentic_loop to_json conversation_end_idx fuel in
        if ltb spec.max_tool_iterations st1.iterations
        then (some (err (max_iterations_exceeded spec.max_tool_iterations)), st1)
        else after_iteration rest (iteration to_json conversation_end_idx st1)

    abbrev pub start : ToolExecutor → List (SessionCommand V) → List Message → LoopState V
    start executor commands initial_messages = record {
      messages = initial_messages;
      total_usage = none;
      iterations = 0;
      tool_calls_made = 0;
      executor = executor;
      commands = commands;
      requests = [];
      slept = [];
      drains = 0;
      round_trips = 0;
    }

    -- The limit of iterations bounds the turns of the loop, so this fuel is enough.
    unfoldable pub run_agentic_loop :
        (List ToolCall → Option String)
        → ToolExecutor
        → List (SessionCommand V)
        → List Message
        → Option (Result (AgenticResult V) AgenticError) × LoopState V
    run_agentic_loop to_json executor commands initial_messages =
        agentic_loop to_json (length initial_messages) (suc spec.max_tool_iterations)
          (start executor commands initial_messages)

    -- `commands` are those of the paused loop and of the decision.
    unfoldable pub resume_agentic_loop :
        (List ToolCall → Option String)
        → ToolExecutor
        → List (SessionCommand V)
        → PendingApproval V
        → ToolResultData
        → Option (Result (AgenticResult V) AgenticError) × LoopState V
    resume_agentic_loop to_json executor commands pending result =
        run_agentic_loop to_json executor
          (SessionCommand.record_tool_result pending.call_id result.success result.content
            ∷ commands)
          (into_messages pending result.content)
