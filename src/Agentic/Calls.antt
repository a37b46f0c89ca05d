-- ===== src/Agentic/Calls.antt =====
-- The tool calls of a response: `execute_tool_call`, the loop that calls it, and the steering
-- messages, of crates/duragent/src/session/agentic_loop.rs.
use agnx.Common.{
  ◌+◌, String, Bool, false, ◌||◌, Option, none, some, List, [], ◌∷◌, ◌++◌, map, all, str_eq,
  str_append, if◌then◌else◌, codes, Result, ok, err,
}
use agnx.Session.Event.{ToolType, ToolResultData, PendingApproval}
use agnx.Session.Message.{Message, ToolCall, Role, text, tool_result}
use agnx.Session.Commands.{SessionCommand}
use agnx.Context.{add_u32}
use agnx.Tools.Json.{Json}
use agnx.Tools.Hooks.{HookContext, GuardVerdict}
use agnx.Tools.Guards.{run_before_tool}
use agnx.Tools.Steering.{run_after_tool}
use agnx.Tools.Executor
use agnx.Tools.Executor.{ToolError, Environment}
use agnx.Agentic.{
  skipped, SteeringMessage, ToolCallOutcome, executed, paused, AgentSpec, World, LoopState,
  ToolsOutcome, next, wait, is_whitespace, steering_message,
}

abbrev pub steering_list : Option Message → List Message
steering_list none = []
steering_list (some m) = m ∷ []

abbrev pub is_reload : ToolCall → Bool
is_reload call = str_eq call.function.name "reload_tools"

module _ {V : Type 0} where
  abbrev pub send : SessionCommand V → LoopState V → LoopState V
  send c st = record st { commands = c ∷ st.commands }

  abbrev pub push : List Message → LoopState V → LoopState V
  push ms st = record st { messages = st.messages ++ ms }

  -- The sends of `add_user_message_with_sender`.
  abbrev pub persist : SteeringMessage → LoopState V → LoopState V
  persist msg st =
      send SessionCommand.force_flush
        (send (SessionCommand.add_user_message msg.content msg.sender_id msg.sender_label) st)

  unfoldable pub inject_steered_messages : List SteeringMessage → LoopState V → LoopState V
  inject_steered_messages [] st = st
  inject_steered_messages (msg ∷ steered) st =
      inject_steered_messages steered
        (push (text Role.user msg.content ∷ []) (if msg.persisted then st else persist msg st))

  abbrev pub record_skipped : String → List ToolCall → LoopState V → LoopState V
  record_skipped reason [] st = st
  record_skipped reason (c ∷ calls) st =
      send (SessionCommand.record_tools_skipped (map (λ t. t.id) (c ∷ calls)) reason) st

  unfoldable pub skip : String → List ToolCall → LoopState V → LoopState V
  skip reason calls st = record_skipped reason calls (push (skipped reason calls) st)

  abbrev pub count : LoopState V → LoopState V
  count st = record st { tool_calls_made = add_u32 st.tool_calls_made 1 }

  abbrev pub with_skipped : List ToolCall → PendingApproval V → PendingApproval V
  with_skipped calls pending = record pending {
    messages = pending.messages ++ skipped "approval required" calls;
  }

  abbrev pub drained : LoopState V → LoopState V
  drained st = record st { drains = st.drains + 1 }

  -- The steering messages that came during a call, if any, end the loop over the calls.
  unfoldable pub check_steering :
      (LoopState V → ToolsOutcome V × LoopState V)
      → List ToolCall
      → Bool
      → LoopState V
      → List SteeringMessage
      → ToolsOutcome V × LoopState V
  check_steering rest calls reload_requested st [] = rest st
  check_steering rest calls reload_requested st (m ∷ steered) = (
    next reload_requested,
    inject_steered_messages (m ∷ steered) (skip "new user message received" calls st),
  )

  module _ (json : Json V) where
    -- parse_tool_arguments
    unfoldable pub parse_tool_arguments : String → V
    parse_tool_arguments raw_args =
        if all is_whitespace (codes raw_args)
        then json.object
        else elim (json.from_str raw_args) [ some v ↦ v | none ↦ json.null ]

  module _ (world : World) where
    -- drain_steering; without a channel nothing is drained
    abbrev pub drain_steering : LoopState V → List SteeringMessage
    drain_steering st = if world.has_steering then world.steered st.drains else []

    -- What the loop does with the outcome of a call; `rest` runs the calls after it.
    unfoldable pub after_call :
        (LoopState V → ToolsOutcome V × LoopState V)
        → List ToolCall
        → Bool
        → ToolCallOutcome V × LoopState V
        → ToolsOutcome V × LoopState V
    after_call rest calls reload_requested (paused pending, st) =
        (wait (with_skipped calls pending), skip "approval required" calls st)
    after_call rest calls reload_requested (executed result steering_msg, st) =
        let st1 = push (result ∷ steering_list steering_msg) st in
        check_steering rest calls reload_requested (drained st1) (drain_steering st1)

  module _ (json : Json V) (env : Environment) (world : World) (spec : AgentSpec V) where
    abbrev pub hook_context : ToolCall → List Message → HookContext V
    hook_context call messages = record {
      tool_name = call.function.name;
      action = json.action call.function.arguments;
      arguments = parse_tool_arguments json call.function.arguments;
      messages = messages;
    }

    abbrev pub failure : String → ToolResultData
    failure content = record { success = false; content = content }

    -- The end of `execute_tool_call`, for a result.
    unfoldable pub finish_call :
        ToolCall → ToolResultData → LoopState V → ToolCallOutcome V × LoopState V
    finish_call call result st =
        let truncated_content = world.truncate spec.context result.content in
        let steering_msg =
          steering_message
            (run_after_tool json spec.hooks (hook_context call st.messages) result) in
        (
          executed (tool_result call.id truncated_content) steering_msg,
          send (SessionCommand.record_tool_result call.id result.success truncated_content) st,
        )

    -- `PendingApproval::new`
    abbrev pub pending_approval :
        ToolCall → String → String → ToolType → List Message → PendingApproval V
    pending_approval call call_id command tool_type messages = record {
      call_id = call_id;
      tool_name = call.function.name;
      arguments = parse_tool_arguments json call.function.arguments;
      command = command;
      tool_type = tool_type;
      messages = messages;
      requester_id = none;
    }

    abbrev pub denied : String → String
    denied command =
        str_append "Command '"
          (str_append command "' was denied by policy. This command is not allowed.")

    -- The cases of the executor's result.
    unfoldable pub handle_result :
        ToolCall → Result ToolResultData ToolError → LoopState V → ToolCallOutcome V × LoopState V
    handle_result call (ok r) st = finish_call call r st
    handle_result call (err (ToolError.approval_required call_id command tool_type)) st = (
      paused (pending_approval call call_id command tool_type st.messages),
      send (SessionCommand.record_approval_required call_id command) st,
    )
    handle_result call (err (ToolError.policy_denied command)) st =
        finish_call call (failure (denied command)) st
    handle_result call (err e) st =
        finish_call call (failure (str_append "Tool execution failed: " (world.display e))) st

    -- What `execute_tool_call` does for the verdict of the guards.
    unfoldable pub guarded_call :
        GuardVerdict → ToolCall → LoopState V → ToolCallOutcome V × LoopState V
    guarded_call (GuardVerdict.reject reason) call st = (
      executed (tool_result call.id reason) none,
      send (SessionCommand.record_tool_result call.id false reason) st,
    )
    guarded_call GuardVerdict.allow call st =
        let (result, executor) = Executor.execute json env call st.executor in
        handle_result call result (record st { executor = executor })

    unfoldable pub execute_tool_call : ToolCall → LoopState V → ToolCallOutcome V × LoopState V
    execute_tool_call call st =
        guarded_call (run_before_tool json spec.hooks (hook_context call st.messages)) call st

    -- The loop over the tool calls of a response.
    unfoldable pub run_tool_calls :
        List ToolCall → Bool → LoopState V → ToolsOutcome V × LoopState V
    run_tool_calls [] reload_requested st = (next reload_requested, st)
    run_tool_calls (call ∷ calls) reload_requested st =
        let reload_requested' = reload_requested || is_reload call in
        after_call world (run_tool_calls calls reload_requested') calls reload_requested'
          (execute_tool_call call (count st))
