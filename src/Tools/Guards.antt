-- ===== src/Tools/Guards.antt =====
-- The guards before a tool's call: `run_before_tool` of crates/duragent/src/tools/hooks.rs.
use agnx.Tools.Json.{Json}
use agnx.Common.{
  reverse, str_eq, String, Bool, true, false, not, ◌&&◌, Option, none, some, List, [], ◌∷◌, any,
  is_empty, str_append, if◌then◌else◌, codes,
}
use agnx.Session.Message.{content_str, is_assistant, is_tool, ToolCall, Message}
use agnx.Tools.Hooks.{
  depends_on, skip_duplicate, BeforeToolHook, HooksConfig, HookContext, GuardVerdict, allow, reject,
  build_invocation, starts_with, matches, option_eq, parse_args, build_invocation_from_tool_call,
  extract_identity, identity_eq,
}

-- Whether a tool call of a message has the property; messages that are not responses with tool
-- calls are passed over.
unfoldable pub response_any : (ToolCall → Bool) → Message → Bool
response_any p msg = elim msg.tool_calls [
  | none ↦ false
  | some tool_calls ↦ is_assistant msg.role && any p tool_calls
]

-- The loop over the messages from the last one on.
unfoldable pub find_prior : (ToolCall → Bool) → List Message → Bool
find_prior p [] = false
find_prior p (msg ∷ ms) = if response_any p msg then true else find_prior p ms

abbrev pub depends_on_reason : String → Option String → String
depends_on_reason prior match_arg = str_append "Hook guard: this tool requires a prior '" (
    str_append prior (
      str_append "' call first." (elim match_arg [
        | some k ↦ str_append " The '" (str_append k "' argument must match.")
        | none ↦ ""
      ])))

abbrev pub has_id : String → Option String → Bool
has_id id none = false
has_id id (some i) = str_eq i id

-- Whether the first result for `id` among the later messages is there and not masked.
unfoldable pub has_result : String → List Message → Bool
has_result id [] = false
has_result id (m ∷ ms) =
    if is_tool m.role && has_id id m.tool_call_id
    then not (starts_with (codes "[result masked") (codes (content_str m)))
    else has_result id ms

unfoldable pub find_duplicate : (ToolCall → Bool) → List Message → Bool
find_duplicate same [] = false
find_duplicate same (msg ∷ later) =
    if response_any (λ tc. same tc && has_result tc.id later) msg
    then true
    else find_duplicate same later

abbrev pub duplicate_reason : String → String
duplicate_reason invocation = str_append "Hook guard: duplicate call skipped. An identical '" (
    str_append invocation
      "' call with the same arguments already has a result in this conversation.")

module _ {V : Type 0} (json : Json V) where
  abbrev pub same_arg : Option String → V → ToolCall → Bool
  same_arg none arguments tc = true
  same_arg (some key) arguments tc =
      option_eq json.eq (json.get (parse_args json tc.function.arguments) key)
        (json.get arguments key)

  -- The condition of `check_depends_on` on a tool call.
  unfoldable pub is_prior : String → Option String → V → ToolCall → Bool
  is_prior prior match_arg arguments tc =
      matches prior (build_invocation_from_tool_call json tc) && same_arg match_arg arguments tc

  unfoldable pub check_depends_on : BeforeToolHook → HookContext V → GuardVerdict
  check_depends_on hook ctx = elim hook.prior [
    | none ↦ allow
    | some prior_pattern ↦
        if find_prior (is_prior prior_pattern hook.match_arg ctx.arguments) (reverse ctx.messages)
        then allow
        else reject (depends_on_reason prior_pattern hook.match_arg)
  ]

  -- The condition of `check_skip_duplicate` on a tool call, before its result is looked up.
  unfoldable pub is_same_call : String → List (String × V) → List String → ToolCall → Bool
  is_same_call invocation current match_args tc =
      matches invocation (build_invocation_from_tool_call json tc)
      && identity_eq json (extract_identity json (parse_args json tc.function.arguments) match_args)
          current

  unfoldable pub check_skip_duplicate : BeforeToolHook → HookContext V → GuardVerdict
  check_skip_duplicate hook ctx =
      if is_empty hook.match_args
      then allow
      else let current_identity = extract_identity json ctx.arguments hook.match_args in
        let invocation = build_invocation ctx.tool_name ctx.action in
        if find_duplicate (is_same_call invocation current_identity hook.match_args) ctx.messages
        then reject (duplicate_reason invocation)
        else allow

  unfoldable pub dispatch_before_hook : BeforeToolHook → HookContext V → GuardVerdict
  dispatch_before_hook hook ctx = elim hook.hook_type [
    | depends_on ↦ check_depends_on hook ctx
    | skip_duplicate ↦ check_skip_duplicate hook ctx
  ]

  unfoldable pub run_guards : String → List BeforeToolHook → HookContext V → GuardVerdict
  run_guards invocation [] ctx = allow
  run_guards invocation (hook ∷ hooks) ctx =
      if not (matches hook.tool_match invocation)
      then run_guards invocation hooks ctx
      else elim (dispatch_before_hook hook ctx) [
        | reject reason ↦ reject reason
        | allow ↦ run_guards invocation hooks ctx
      ]

  unfoldable pub run_before_tool : HooksConfig V → HookContext V → GuardVerdict
  run_before_tool config ctx =
      run_guards (build_invocation ctx.tool_name ctx.action) config.before_tool ctx
