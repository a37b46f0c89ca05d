-- ===== src/Tools/Steering.antt =====
-- The steering after a tool's call, and the default hooks: `run_after_tool` and `default_hooks` of
-- crates/duragent/src/tools/hooks.rs.
use agnx.Session.Event.{ToolResultData}
use agnx.Tools.Json.{Json}
use agnx.Common.{
  ◌++◌, str_eq, String, Bool, false, not, Option, none, some, List, [], ◌∷◌, any, is_empty,
  str_append, if◌then◌else◌,
}
use agnx.Tools.Hooks.{
  depends_on, skip_duplicate, BeforeToolHook, AfterToolHook, HooksConfig, HookContext,
  build_invocation, matches,
}

-- `messages.join("\n")`
unfoldable pub join_lines : List String → String
join_lines [] = ""
join_lines (m ∷ []) = m
join_lines (m ∷ n ∷ ms) = str_append m (str_append "\n" (join_lines (n ∷ ms)))

abbrev pub memory_guard : BeforeToolHook
memory_guard = record {
  tool_match = "memory:recall";
  hook_type = skip_duplicate;
  prior = none;
  match_arg = none;
  match_args = "days" ∷ [];
}

abbrev pub send_keys_guard : BeforeToolHook
send_keys_guard = record {
  tool_match = "background_process:send_keys";
  hook_type = depends_on;
  prior = some "background_process:capture";
  match_arg = some "handle";
  match_args = [];
}

module _ {V : Type 0} (json : Json V) where
  -- A condition of `unless` that holds.
  abbrev pub is_suppressed : V → String × V → Bool
  is_suppressed arguments (key, expected) = elim (json.get arguments key) [
    | some actual ↦ json.eq actual expected
    | none ↦ false
  ]

  unfoldable pub evaluate_after_hook : AfterToolHook V → HookContext V → Option String
  evaluate_after_hook hook ctx =
      if any (is_suppressed ctx.arguments) hook.unless then none else some hook.message

  unfoldable pub collect : String → List (AfterToolHook V) → HookContext V → List String
  collect invocation [] ctx = []
  collect invocation (hook ∷ hooks) ctx =
      let rest = collect invocation hooks ctx in
      if not (matches hook.tool_match invocation)
      then rest
      else elim (evaluate_after_hook hook ctx) [ some msg ↦ msg ∷ rest | none ↦ rest ]

  unfoldable pub run_after_tool : HooksConfig V → HookContext V → ToolResultData → Option String
  run_after_tool config ctx result =
      if not result.success
      then none
      else let messages =
          collect (build_invocation ctx.tool_name ctx.action) config.after_tool ctx in
        if is_empty messages then none else some (join_lines messages)

  abbrev pub capture_steering : AfterToolHook V
  capture_steering = record {
    tool_match = "background_process:capture";
    message = "You now have the current screen state. Base your next action on what you see above.";
    unless = [];
  }

  abbrev pub spawn_steering : AfterToolHook V
  spawn_steering = record {
    tool_match = "background_process:spawn";
    message = "Remember to start a watcher for this process if you need to monitor it.";
    unless = ("wait", json.true_value) ∷ [];
  }

  unfoldable pub hooks_of : String → List BeforeToolHook × List (AfterToolHook V)
  hooks_of name =
      if str_eq name "memory"
      then (memory_guard ∷ [], [])
      else if str_eq name "background_process"
      then (send_keys_guard ∷ [], capture_steering ∷ spawn_steering ∷ [])
      else ([], [])

  -- The loop of `default_hooks`.
  unfoldable pub default_hooks : List String → HooksConfig V
  default_hooks [] = record { before_tool = []; after_tool = [] }
  default_hooks (name ∷ names) =
      let (before, after) = hooks_of name in
      let rest = default_hooks names in
      record { before_tool = before ++ rest.before_tool; after_tool = after ++ rest.after_tool }
