-- ===== src/Tools/SameCalls.antt =====
-- What the guards of crates/duragent/src/tools/hooks.rs look for in earlier calls.
use agnx.Common.{Bool, Option, none, String, ◌≡◌, refl, ◌↔◌, true, some, List, arith}
use agnx.Session.Message.{ToolCall, Message}
use agnx.Tools.Identity.{SameValue, SameArguments, option_eq_iff, identity_eq_iff}
use agnx.Tools.Json.{Json}
use agnx.Tools.Hooks.{parse_args, build_invocation_from_tool_call, matches, extract_identity}
use agnx.Tools.Guards.{same_arg, is_prior, is_same_call}
use agnx.Tools.Verdicts.{IsKept, Some, Place, Calls, IsDuplicate, here, there}

abbrev pub SameArgument : {V : Type 0} → Json V → Option String → V → ToolCall → Type 0
SameArgument json none arguments tc = Unit
SameArgument json (some key) arguments tc =
    SameValue json (json.get (parse_args json tc.function.arguments) key) (json.get arguments key)

-- The call is one that a hook wants to come before.
abbrev pub Precedes : {V : Type 0} → Json V → String → Option String → V → ToolCall → Type 0
Precedes json prior match_arg arguments tc =
    (matches prior (build_invocation_from_tool_call json tc) ≡ true)
    × SameArgument json match_arg arguments tc

module _ {V : Type 0} (json : Json V) where
  same_arg_iff :
      (match_arg : Option String) (arguments : V) (tc : ToolCall)
      → (same_arg json match_arg arguments tc ≡ true) ↔ SameArgument json match_arg arguments tc
  same_arg_iff none arguments tc = (λ h. tt, λ h. refl)
  same_arg_iff (some key) arguments tc = option_eq_iff json _ _

  pub is_prior_iff :
      (prior : String) (match_arg : Option String) (arguments : V) (tc : ToolCall)
      → (is_prior json prior match_arg arguments tc ≡ true)
        ↔ Precedes json prior match_arg arguments tc
  unfolding is_prior
  is_prior_iff prior match_arg arguments tc =
      let e = same_arg_iff match_arg arguments tc in
      (
        λ h. (ground (arith, h), e.0 (ground (arith, h))),
        λ (m, a). let b = e.1 a in ground (arith, m, b),
      )

Some-map :
    {A : Type 0} {P Q : A → Type 0} → ((x : A) → P x → Q x) → {xs : List A} → Some P xs → Some Q xs
Some-map f (here h) = here (f _ h)
Some-map f (there s) = there (Some-map f s)

pub Some-Calls :
    {P Q : ToolCall → Type 0}
    → ((tc : ToolCall) → P tc ↔ Q tc)
    → (ms : List Message) → Some (Calls P) ms ↔ Some (Calls Q) ms
Some-Calls e ms = (
  Some-map (λ m (cs, r, t, s). (cs, r, t, Some-map (λ tc. (e tc).0) s)),
  Some-map (λ m (cs, r, t, s). (cs, r, t, Some-map (λ tc. (e tc).1) s)),
)

-- The call is one that a hook takes for the same as the current one.
abbrev pub Repeats : {V : Type 0} → Json V → String → V → List String → ToolCall → Type 0
Repeats json invocation arguments keys tc =
    (matches invocation (build_invocation_from_tool_call json tc) ≡ true)
    × SameArguments json (parse_args json tc.function.arguments) arguments keys

pub is_same_call_iff :
    {V : Type 0} (json : Json V) (invocation : String) (arguments : V) (keys : List String)
    (tc : ToolCall)
    → (is_same_call json invocation (extract_identity json arguments keys) keys tc ≡ true)
      ↔ Repeats json invocation arguments keys tc
unfolding is_same_call
is_same_call_iff json invocation arguments keys tc =
    let e = identity_eq_iff json (parse_args json tc.function.arguments) arguments keys in
    (
      λ h. (ground (arith, h), e.0 (ground (arith, h))),
      λ (m, s). let i = e.1 s in ground (arith, m, i),
    )

-- A message has such a call, with a result that is kept behind it.
abbrev pub IsRepeat : (ToolCall → Type 0) → Message → List Message → Type 0
IsRepeat P m later = Calls (λ tc. P tc × IsKept tc.id later) m

Place-map :
    {A : Type 0} {P Q : A → List A → Type 0}
    → ((x : A) (xs : List A) → P x xs → Q x xs)
    → {xs : List A} → Place P xs
    → Place Q xs
Place-map f (Place.at h) = Place.at (f _ _ h)
Place-map f (Place.behind h) = Place.behind (Place-map f h)

pub Place-Repeat :
    {p : ToolCall → Bool} {P : ToolCall → Type 0}
    → ((tc : ToolCall) → (p tc ≡ true) ↔ P tc)
    → (ms : List Message) → Place (IsDuplicate p) ms ↔ Place (IsRepeat P) ms
Place-Repeat e ms = (
  Place-map (λ m later (cs, r, t, s). (cs, r, t, Some-map (λ tc (h, k). ((e tc).0 h, k)) s)),
  Place-map (λ m later (cs, r, t, s). (cs, r, t, Some-map (λ tc (h, k). ((e tc).1 h, k)) s)),
)
