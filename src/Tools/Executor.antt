-- ===== src/Tools/Executor.antt =====
-- The executor of tools: crates/duragent/src/tools/executor.rs.
-- A tool's own work, its discovery on disk and the sending of a notification are not this file's:
-- `Environment` says what they give, for the n-th run or rebuild.
use agnx.Common.{
  ℕ, ◌+◌, String, Bool, false, not, Option, none, some, List, [], ◌∷◌, ◌++◌, any, retain, str_eq,
  str_append, if◌then◌else◌, codes, length, map, Result, ok, err,
}
use agnx.Session.Event.{ToolType, ToolResultData}
use agnx.Session.Message.{ToolCall}
use agnx.Policy.{ToolPolicy, PolicyDecision, check, should_notify}
use agnx.Tools.Json.{Json}
use agnx.Common.Entries.{insert, lookup_entry, or_insert}

pub data ToolError : Type 0 where
  not_found : String → ToolError
  approval_required : String → String → ToolType → ToolError
  policy_denied : String → ToolError
  invalid_arguments : String → ToolError
  execution_failed : String → ToolError
  sandbox : String → ToolError
  io : String → ToolError

-- A tool is known by its name and its type.
pub record Tool : Type 0 where
  pub name : String
  pub tool_type : ToolType

pub record Environment : Type 0 where
  -- What `Tool::execute` gives for the arguments.
  pub run : ℕ → Tool → String → Result ToolResultData ToolError
  -- `str::to_lowercase`
  pub to_lowercase : String → String
  -- The explicit and the discovered tools of a rebuild, or that its task failed.
  pub rebuilt : ℕ → Option (List Tool × List Tool)

pub record ToolExecutor : Type 0 where
  pub tools : List (String × Tool)
  pub policy : ToolPolicy
  pub has_reload_deps : Bool
  -- The tools that were run, with their calls, and the notifications that were sent.
  pub runs : List (Tool × ToolCall)
  pub notifications : List (String × Bool)
  pub rebuilds : ℕ

-- `ToolExecutor::new`
pub new_executor : ToolPolicy → ToolExecutor
new_executor policy = record {
  tools = [];
  policy = policy;
  has_reload_deps = false;
  runs = [];
  notifications = [];
  rebuilds = 0;
}

unfoldable pub register : Tool → List (String × Tool) → List (String × Tool)
register tool tools = insert tool.name tool tools

unfoldable pub register_all : List Tool → List (String × Tool) → List (String × Tool)
register_all [] tools = tools
register_all (tool ∷ new_tools) tools = register_all new_tools (register tool tools)

abbrev preserved_tools : List String
preserved_tools = "memory" ∷ "reload_tools" ∷ "background_process" ∷ "session" ∷ []

unfoldable pub is_preserved : String → Bool
is_preserved name = any (λ p. str_eq p name) preserved_tools

unfoldable pub insert_new : List Tool → List (String × Tool) → List (String × Tool)
insert_new [] tools = tools
insert_new (tool ∷ new_tools) tools = insert_new new_tools (or_insert tool.name tool tools)

unfoldable pub replace_tools : List Tool → List (String × Tool) → List (String × Tool)
replace_tools new_tools tools =
    let preserved = retain (λ (tool : Tool). is_preserved tool.name) (map (λ e. e.1) tools) in
    insert_new new_tools (register_all preserved [])

-- The merge of a rebuild: an explicit tool wins over a discovered one of the same name.
unfoldable pub merge_tools : List Tool → List Tool → List Tool
merge_tools explicit discovered =
    explicit
    ++ retain (λ (tool : Tool). not (any (λ (t : Tool). str_eq t.name tool.name) explicit))
        discovered

module _ {V : Type 0} (json : Json V) (env : Environment) where
  -- The loop over the tools by lowercase name.
  unfoldable pub find_lowercase : String → List (String × Tool) → Option Tool
  find_lowercase lower [] = none
  find_lowercase lower ((key, tool) ∷ tools) =
      if str_eq (env.to_lowercase key) lower then some tool else find_lowercase lower tools

  unfoldable pub find_tool : String → List (String × Tool) → Option Tool
  find_tool name tools = elim (lookup_entry name tools) [
    | some tool ↦ some tool
    | none ↦ find_lowercase (env.to_lowercase name) tools
  ]

  -- `get_tool_type_and_invocation`, for the type of the tool
  unfoldable pub invocation_of : ToolType → ToolCall → String
  invocation_of ToolType.bash tool_call = elim (json.command tool_call.function.arguments) [
    | some command ↦ command
    | none ↦ tool_call.function.arguments
  ]
  invocation_of ToolType.builtin tool_call = elim (json.action tool_call.function.arguments) [
    | some action ↦ str_append tool_call.function.name (str_append ":" action)
    | none ↦ tool_call.function.name
  ]
  invocation_of ToolType.mcp tool_call = tool_call.function.name
  invocation_of ToolType.cli tool_call = tool_call.function.name

  unfoldable pub succeeded : Result ToolResultData ToolError → Bool
  succeeded (ok r) = r.success
  succeeded (err e) = false

  unfoldable pub execute_tool :
      Tool → ToolCall → String → ToolExecutor → Result ToolResultData ToolError × ToolExecutor
  execute_tool tool tool_call invocation ex =
      let result = env.run (length ex.runs) tool tool_call.function.arguments in
      let sent =
        if should_notify ex.policy tool.tool_type (codes invocation)
        then (invocation, succeeded result) ∷ ex.notifications
        else ex.notifications in
      (result, record ex { runs = (tool, tool_call) ∷ ex.runs; notifications = sent })

  -- What `execute` does for the decision of the policy, and for the tool that was found.
  unfoldable pub execute_decided :
      PolicyDecision
      → Tool
      → ToolCall
      → String
      → ToolExecutor
      → Result ToolResultData ToolError × ToolExecutor
  execute_decided PolicyDecision.deny tool tool_call invocation ex =
      (err (policy_denied invocation), ex)
  execute_decided PolicyDecision.ask tool tool_call invocation ex =
      (err (approval_required tool_call.id invocation tool.tool_type), ex)
  execute_decided PolicyDecision.allow tool tool_call invocation ex =
      execute_tool tool tool_call invocation ex

  unfoldable pub execute_found :
      Option Tool → ToolCall → ToolExecutor → Result ToolResultData ToolError × ToolExecutor
  execute_found none tool_call ex = (err (not_found tool_call.function.name), ex)
  execute_found (some tool) tool_call ex =
      let invocation = invocation_of tool.tool_type tool_call in
      execute_decided (check ex.policy tool.tool_type (codes invocation)) tool tool_call invocation
        ex

  unfoldable pub execute : ToolCall → ToolExecutor → Result ToolResultData ToolError × ToolExecutor
  execute tool_call ex = execute_found (find_tool tool_call.function.name ex.tools) tool_call ex

  unfoldable pub bypass_found :
      Option Tool → ToolCall → ToolExecutor → Result ToolResultData ToolError × ToolExecutor
  bypass_found none tool_call ex = (err (not_found tool_call.function.name), ex)
  bypass_found (some tool) tool_call ex =
      execute_tool tool tool_call (invocation_of tool.tool_type tool_call) ex

  unfoldable pub execute_bypassing_policy :
      ToolCall → ToolExecutor → Result ToolResultData ToolError × ToolExecutor
  execute_bypassing_policy tool_call ex =
      bypass_found (find_tool tool_call.function.name ex.tools) tool_call ex

  -- What `rebuild_async` does with the tools that were found.
  unfoldable pub install : Option (List Tool × List Tool) → ToolExecutor → ToolExecutor
  install none ex = record ex { rebuilds = ex.rebuilds + 1 }
  install (some (explicit, discovered)) ex = record ex {
    tools = replace_tools (merge_tools explicit discovered) ex.tools;
    rebuilds = ex.rebuilds + 1;
  }

  -- `rebuild_async`
  unfoldable pub rebuild : ToolExecutor → ToolExecutor
  rebuild ex = if not ex.has_reload_deps then ex else install (env.rebuilt ex.rebuilds) ex
