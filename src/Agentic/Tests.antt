-- ===== src/Agentic/Tests.antt =====
-- Runs of the agentic loop at concrete answers of the model.
use agnx.Common.{
  ◌≡◌, ℕ, String, refl, true, false, Option, none, some, List, [], ◌∷◌, arith, ◌==◌, if◌then◌else◌,
  Result, ok, err, codes, split, split_once,
}
use agnx.Session.Message.{Message, ToolCall, Role, text, tool_result}
use agnx.Session.Event.{ToolType, PendingApproval}
use agnx.Context.{estimate_message_tokens, estimate_tokens}
use agnx.Policy.{
  check, matches_any_typed, matches_typed_pattern, typed_parts, matches_pattern, matches_parts,
  after_first, contains, should_notify, ToolPolicy, PolicyMode,
}
use agnx.Agentic.Model.{call_llm, open_stream, after_attempt}
use agnx.Tools.Guards.{run_before_tool, run_guards}
use agnx.Tools.Steering.{run_after_tool, collect}
use agnx.Common.Entries.{lookup_entry}
use agnx.Context.Dropping.{drop_oldest_iterations, sum_tokens, find_iteration_groups, find_groups}
use agnx.Tools.Json.{Json}
use agnx.Tools.Executor.{
  execute, find_tool, execute_found, execute_decided, execute_tool, invocation_of, Environment,
  ToolExecutor,
}
use agnx.Agentic.{
  consume, accumulate_usage, build_assistant_message, skipped, is_whitespace, awaiting_approval,
  World, AgentSpec, LoopState, LlmError, StreamEvent, rate_limit,
}
use agnx.Agentic.Loop.{
  loop_token_budget, agentic_loop, after_iteration, iteration, prepare, prepare_later,
  record_response, rebuild_if, run_agentic_loop, resume_agentic_loop, start,
}
use agnx.Agentic.Calls.{
  after_call, check_steering, execute_tool_call, guarded_call, handle_result, finish_call, skip,
  parse_tool_arguments, inject_steered_messages, run_tool_calls,
}
use agnx.Agentic.Answers.{owed, owed_by, settle}
use agnx.Agentic.Outcomes.{NeverAsks}
use agnx.Agentic.Pairing.{Paired, run_tool_calls-Paired}
use agnx.Agentic.Requests.{AllAnswered, IsResumable}
use agnx.Agentic.Conversation.{run_agentic_loop-IsAnswered, resume_agentic_loop-IsAnswered}
use agnx.Agentic.Termination.{Finishes, run_agentic_loop-Finishes}
use agnx.Agentic.Safety.{AllAllowed, run_agentic_loop-AllAllowed}

abbrev json : Json ℕ
json = record {
  get = λ v k. some 1;
  eq = λ a b. a == b;
  from_str = λ s. some 0;
  null = 2;
  object = 0;
  true_value = 1;
  action = λ s. none;
  command = λ s. some s;
}

abbrev call : String → String → String → ToolCall
call id name arguments = record {
  id = id;
  tool_type = "function";
  function = record { name = name; arguments = arguments };
}

abbrev env : Environment
env = record {
  run = λ n tool arguments. ok (record { success = true; content = "done" });
  to_lowercase = λ s. s;
  rebuilt = λ n. none;
}

-- Commands that start with `ls` are allowed, and the others want approval.
abbrev policy : ToolPolicy
policy = record {
  api_version = [];
  kind = [];
  mode = PolicyMode.ask;
  deny = [];
  allow = codes "bash:ls*" ∷ [];
  notify = record { enabled = false; patterns = []; deliveries = [] };
}

abbrev executor : ToolExecutor
executor = record {
  tools = ("bash", record { name = "bash"; tool_type = ToolType.bash }) ∷ [];
  policy = policy;
  has_reload_deps = false;
  runs = [];
  notifications = [];
  rebuilds = 0;
}

abbrev calls : List ToolCall
calls = call "a" "bash" "ls" ∷ call "b" "bash" "rm x" ∷ call "c" "bash" "ls" ∷ []

-- A rate limit, then three tool calls, then a final answer.
abbrev answers : ℕ → Result (List (Result StreamEvent LlmError)) LlmError
answers n =
    if n == 0
    then err (rate_limit none)
    else if n == 1
    then ok (ok (StreamEvent.tool_calls calls) ∷ ok (StreamEvent.done none) ∷ [])
    else ok (ok (StreamEvent.token "fine") ∷ [])

abbrev world : World
world = record {
  chat = λ n messages rebuilds. answers n;
  timed_out = λ n. false;
  has_steering = false;
  steered = λ n. [];
  display = λ e. "error";
  truncate = λ config s. s;
  placeholder = λ n. "[result masked]";
}

abbrev spec : AgentSpec ℕ
spec = record {
  max_tool_iterations = 5;
  llm_timeout_seconds = 60;
  max_input = 1000;
  max_output_tokens = some 100;
  context = record {
    max_tool_result_tokens = 100;
    tool_result_keep_first = 1;
    tool_result_keep_last = 2;
  };
  hooks = record { before_tool = []; after_tool = [] };
}

abbrev to_json : List ToolCall → Option String
to_json _ = some "[]"

abbrev asked : List Message
asked = text Role.user "clean up" ∷ []

abbrev paused_at : List Message → PendingApproval ℕ
paused_at messages = record {
  call_id = "b";
  tool_name = "bash";
  arguments = 0;
  command = "rm x";
  tool_type = ToolType.bash;
  messages = messages;
  requester_id = none;
}

plain : NeverAsks env
plain n tool arguments id = tt

run_agentic_loop-IsAnswered_example :
    AllAnswered asked (run_agentic_loop json env world spec to_json executor [] asked).1.requests
    × IsResumable asked (run_agentic_loop json env world spec to_json executor [] asked).0
run_agentic_loop-IsAnswered_example =
    run_agentic_loop-IsAnswered json env world spec to_json plain refl executor [] asked

run_agentic_loop-Finishes_example :
    Finishes json env world spec (run_agentic_loop json env world spec to_json executor [] asked)
run_agentic_loop-Finishes_example =
    run_agentic_loop-Finishes json env world spec to_json executor [] asked (omega arith)

run_agentic_loop-AllAllowed_example :
    AllAllowed json env policy
      (run_agentic_loop json env world spec to_json executor [] asked).1.executor
run_agentic_loop-AllAllowed_example =
    run_agentic_loop-AllAllowed json env world spec policy to_json executor [] asked (refl, tt)

abbrev waiting : List Message
waiting =
    text Role.user "clean up"
    ∷ (record {
      role = Role.assistant;
      content = none;
      tool_calls = some calls;
      tool_call_id = none;
    })
    ∷ tool_result "a" "done"
    ∷ tool_result "c" "Skipped: approval required"
    ∷ []

resume_agentic_loop-IsAnswered_example :
    AllAnswered asked
      (resume_agentic_loop json env world spec to_json executor []
        (paused_at waiting)
        (record { success = true; content = "removed" })).1.requests
unfolding owed owed_by settle
resume_agentic_loop-IsAnswered_example =
    resume_agentic_loop-IsAnswered json env world spec to_json plain refl executor [] asked
      (paused_at waiting) (record { success = true; content = "removed" }) (_, refl, refl)

abbrev responded : LoopState ℕ
responded = start json env world spec executor [] (
    (record { role = Role.assistant; content = none; tool_calls = some calls; tool_call_id = none })
    ∷ [])

run_tool_calls-Paired_example :
    Paired true [] [] (run_tool_calls json env world spec calls false responded)
unfolding owed owed_by
run_tool_calls-Paired_example =
    run_tool_calls-Paired json env world spec plain true (λ e. refl) [] [] calls false responded
      ((_, refl, refl), refl)

-- The loop retries after the rate limit, runs the first call, waits for the second, skips the third.
pauses :
    (run_agentic_loop json env world spec to_json executor [] asked).0
    ≡ some (ok (awaiting_approval (paused_at waiting) "" none 1 2))
unfolding run_agentic_loop run_tool_calls agentic_loop after_iteration iteration prepare
    prepare_later record_response rebuild_if loop_token_budget estimate_message_tokens
    estimate_tokens call_llm open_stream after_attempt consume accumulate_usage
    build_assistant_message skipped is_whitespace after_call check_steering execute_tool_call
    guarded_call handle_result finish_call skip parse_tool_arguments inject_steered_messages
    run_before_tool run_guards run_after_tool collect execute find_tool execute_found
    execute_decided execute_tool invocation_of lookup_entry drop_oldest_iterations sum_tokens
    find_iteration_groups find_groups check matches_any_typed matches_typed_pattern typed_parts
    matches_pattern matches_parts after_first contains should_notify split split_once
pauses = refl
