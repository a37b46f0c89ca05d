-- ===== src/Tools/Hooks.antt =====
-- Hooks before and after a tool's call: crates/duragent/src/tools/hooks.rs, and their configuration
-- in crates/duragent-types/src/agent/spec.rs.
-- The hooks' functions do not panic on any input, so the handlers of panics have no counterpart.
-- A `HashMap` is a list of its entries, in any order.
use agnx.Tools.Json.{Json}
use agnx.Common.Entries.{insert, lookup_entry}
use agnx.Common.{
  all, strip_prefix, last?, drop, ◌-◌, String, Bool, true, false, not, ◌&&◌, Option, none, some,
  List, [], ◌∷◌, any, is_empty, ◌==◌, str_append, leb, length, if◌then◌else◌, Text, codes, text_eq,
  split,
}
use agnx.Session.Message.{ToolCall, Message}
use agnx.Policy.{star, after_first}

pub data BeforeToolType : Type 0 where
  depends_on skip_duplicate : BeforeToolType

pub record BeforeToolHook : Type 0 where
  pub tool_match : String
  pub hook_type : BeforeToolType
  pub prior : Option String
  pub match_arg : Option String
  pub match_args : List String

pub record AfterToolHook (V : Type 0) : Type 0 where
  pub tool_match : String
  pub message : String
  pub unless : List (String × V)

pub record HooksConfig (V : Type 0) : Type 0 where
  pub before_tool : List BeforeToolHook
  pub after_tool : List (AfterToolHook V)

pub record HookContext (V : Type 0) : Type 0 where
  pub tool_name : String
  pub action : Option String
  pub arguments : V
  pub messages : List Message

pub data GuardVerdict : Type 0 where
  allow : GuardVerdict
  reject : String → GuardVerdict

-- `build_invocation`
unfoldable pub build_invocation : String → Option String → String
build_invocation tool_name (some a) = str_append tool_name (str_append ":" a)
build_invocation tool_name none = tool_name

abbrev pub starts_with : Text → Text → Bool
starts_with p s = elim (strip_prefix p s) [ none ↦ false | some _ ↦ true ]

unfoldable pub ends_with : Text → Text → Bool
ends_with p s = leb (length p) (length s) && text_eq p (drop (length s - length p) s)

-- The loop over the middle parts, with the text from `pos` on; the last part is not searched.
unfoldable pub middle_parts : List Text → Text → Bool
middle_parts [] s = true
middle_parts (last ∷ []) s = true
middle_parts (p ∷ q ∷ ps) s =
    if is_empty p
    then middle_parts (q ∷ ps) s
    else elim (after_first p s) [ some r ↦ middle_parts (q ∷ ps) r | none ↦ false ]

-- Whether a last part that is not empty is not at the end.
unfoldable pub last_differs : Option Text → Text → Bool
last_differs none s = false
last_differs (some l) s = not (is_empty l) && not (ends_with l s)

-- The test of the first part, with what follows its length, and then of the others.
unfoldable pub glob_parts : List Text → Text → Bool
glob_parts [] s = true
glob_parts (first ∷ ps) s =
    if not (is_empty first) && not (starts_with first s)
    then false
    else if last_differs (last? (first ∷ ps)) s
    then false
    else middle_parts ps (drop (length first) s)

unfoldable pub matches_hook_pattern : Text → Text → Bool
matches_hook_pattern pattern invocation =
    if not (any (λ c. c == star) pattern)
    then text_eq pattern invocation
    else glob_parts (split star pattern) invocation

abbrev pub matches : String → String → Bool
matches pattern invocation = matches_hook_pattern (codes pattern) (codes invocation)

module _ {V : Type 0} where
  abbrev pub option_eq : (V → V → Bool) → Option V → Option V → Bool
  option_eq eq none none = true
  option_eq eq (some a) (some b) = eq a b
  option_eq eq _ _ = false

module _ {V : Type 0} (json : Json V) where
  abbrev pub parse_args : String → V
  parse_args arguments = elim (json.from_str arguments) [ some v ↦ v | none ↦ json.null ]

  -- `build_invocation_from_tool_call`
  unfoldable pub build_invocation_from_tool_call : ToolCall → String
  unfolding build_invocation
  build_invocation_from_tool_call tc =
      build_invocation tc.function.name (json.action tc.function.arguments)

  unfoldable pub extract : V → List String → List (String × V) → List (String × V)
  extract args [] identity = identity
  extract args (key ∷ keys) identity =
      extract args keys
        (elim (json.get args key) [ some val ↦ insert key val identity | none ↦ identity ])

  unfoldable pub extract_identity : V → List String → List (String × V)
  extract_identity args keys = extract args keys []

  -- `==` of two `HashMap`s
  unfoldable pub identity_eq : List (String × V) → List (String × V) → Bool
  identity_eq a b =
      length a == length b && all (λ (k, v). option_eq json.eq (some v) (lookup_entry k b)) a
