-- ===== src/Tools/Rejections.antt =====
-- When the guards of crates/duragent/src/tools/hooks.rs reject a call.
use agnx.Common.{
  String, ◌≡◌, refl, ◌↔◌, inl, inr, true, false, some, List, [], ◌∷◌, reverse, arith, is_empty,
  Bool-cases, Option-cases, ap, ◌∙◌, ◌⊎◌, ◌++◌, All,
}
use mathlib.Core.List.{reverse-reverse, reverse-cons}
use agnx.Tools.SameCalls.{
  Precedes, is_prior_iff, Some-Calls, Repeats, is_same_call_iff, IsRepeat, Place-Repeat,
}
use agnx.Tools.Json.{Json}
use agnx.Tools.Hooks.{
  HooksConfig, allow, matches, BeforeToolHook, HookContext, GuardVerdict, reject, build_invocation,
  extract_identity,
}
use agnx.Tools.Guards.{
  run_before_tool, dispatch_before_hook, run_guards, find_prior, find_duplicate, is_prior,
  is_same_call, check_depends_on, check_skip_duplicate,
}
use agnx.Tools.Verdicts.{
  find_prior_complete, Some, Place, Calls, find_prior_sound, find_duplicate_sound,
  find_duplicate_complete, some_left, some_right, here, there,
}

abbrev pub Rejects : GuardVerdict → Type 0
Rejects v = (reason : String) × (v ≡ reject reason)

module _ {A : Type 0} (P : A → Type 0) where
  some_reverse : (xs : List A) → Some P xs → Some P (reverse xs)
  some_reverse [] s = s
  some_reverse (x ∷ xs) (here h) =
      rw (reverse-cons x xs) (some_right P (reverse xs) (x ∷ []) (here h))
  some_reverse (x ∷ xs) (there s) =
      rw (reverse-cons x xs) (some_left P (reverse xs) (x ∷ []) (some_reverse xs s))

  some_reverse_back : (xs : List A) → Some P (reverse xs) → Some P xs
  some_reverse_back xs s = rw (← reverse-reverse xs) (some_reverse (reverse xs) s)

module _ {V : Type 0} (json : Json V) (hook : BeforeToolHook) (ctx : HookContext V) where
  -- A guard against duplicates rejects a call exactly if its hook names arguments, and an earlier
  -- response has a call whose tool and action the tool and action of this call match as a pattern, in
  -- which each of those arguments has the same value or is missing in both, and whose first result
  -- behind that response is there and is not masked.
  pub check_skip_duplicate_iff : Rejects (check_skip_duplicate json hook ctx) ↔ (
      (is_empty hook.match_args ≡ false)
      × Place
          (IsRepeat (
            Repeats json (build_invocation ctx.tool_name ctx.action) ctx.arguments hook.match_args))
          ctx.messages)
  unfolding check_skip_duplicate
  check_skip_duplicate_iff =
      let same =
        is_same_call json (build_invocation ctx.tool_name ctx.action)
          (extract_identity json ctx.arguments hook.match_args) hook.match_args in
      let to =
        Place-Repeat
          (is_same_call_iff json (build_invocation ctx.tool_name ctx.action) ctx.arguments
            hook.match_args)
          ctx.messages in
      elim (Bool-cases (is_empty hook.match_args)) [
        | inl e ↦
            rw (e, check_skip_duplicate)
              (λ (r, h). absurd (ground (arith, h)), λ (h, d). absurd (ground (arith, h)))
        | inr e ↦ elim (Bool-cases (find_duplicate same ctx.messages)) [
          | inl f ↦
              rw (e, f, check_skip_duplicate)
                (λ h. (refl, to.0 (find_duplicate_sound same ctx.messages f)), λ h. (_, refl))
          | inr f ↦
              rw (e, f, check_skip_duplicate)
                (
                  λ (r, h). absurd (ground (arith, h)),
                  λ (h, d).
                      absurd
                        (ground (arith, f, find_duplicate_complete same ctx.messages (to.1 d))),
                )
        ]
      ]

  -- A guard for a call that has to come before rejects a call exactly if its hook names such a call
  -- and no response of the conversation has one: a call that the hook's pattern matches, and in which,
  -- if the hook names an argument, this argument has the same value or is missing in both.
  pub check_depends_on_iff : Rejects (check_depends_on json hook ctx) ↔ (
      (prior : String) × (hook.prior ≡ some prior)
      × ¬ Some (Calls (Precedes json prior hook.match_arg ctx.arguments)) ctx.messages)
  unfolding check_depends_on
  check_depends_on_iff = elim (Option-cases hook.prior) [
    | inl e ↦
        rw (e, check_depends_on)
          (λ (r, h). absurd (ground (arith, h)), λ (p, h, n). absurd (ground (arith, h)))
    | inr (prior, e) ↦
        let p = is_prior json prior hook.match_arg ctx.arguments in
        let P = Calls (λ tc. p tc ≡ true) in
        let to = Some-Calls (is_prior_iff json prior hook.match_arg ctx.arguments) ctx.messages in
        elim (Bool-cases (find_prior p (reverse ctx.messages))) [
          | inl f ↦
              rw (e, f, check_depends_on)
                (
                  λ (r, h). absurd (ground (arith, h)),
                  λ (q, h, n). absurd (
                      n (
                        rw (← (same q h)) (
                          to.0 (
                            some_reverse_back P ctx.messages
                              (find_prior_sound p (reverse ctx.messages) f))))),
                )
          | inr f ↦
              rw (e, f, check_depends_on)
                (
                  λ h. (
                    prior,
                    refl,
                    λ s. absurd (
                        ground (
                          arith,
                          f,
                          find_prior_complete p (reverse ctx.messages)
                              (some_reverse P ctx.messages (to.1 s)),
                        )),
                  ),
                  λ h. (_, refl),
                )
        ]
  ]
    where
      same : {prior : String} (q : String) → some prior ≡ some q → prior ≡ q
      same q h = cc

module _ {V : Type 0} (json : Json V) (ctx : HookContext V) (invocation : String) where
  -- The hook is not for the tool, or lets the call pass.
  abbrev Passes : BeforeToolHook → Type 0
  Passes hook =
      (matches hook.tool_match invocation ≡ false) ⊎ (dispatch_before_hook json hook ctx ≡ allow)

  -- The first hook that does not let the call pass gives the reason.
  abbrev pub FirstRejects : List BeforeToolHook → String → Type 0
  FirstRejects hooks reason =
      (before : List BeforeToolHook) × (hook : BeforeToolHook) × (after : List BeforeToolHook)
      × (hooks ≡ before ++ hook ∷ after)
      × All Passes before
      × (matches hook.tool_match invocation ≡ true)
      × (dispatch_before_hook json hook ctx ≡ reject reason)

  verdict_cases : (v : GuardVerdict) → (v ≡ allow) ⊎ ((r : String) × (v ≡ reject r))
  verdict_cases allow = inl refl
  verdict_cases (reject r) = inr (r, refl)

  run_guards_sound :
      (hooks : List BeforeToolHook) (reason : String)
      → run_guards json invocation hooks ctx ≡ reject reason
      → FirstRejects hooks reason
  unfolding run_guards
  run_guards_sound [] reason h = absurd (ground (arith, h))
  run_guards_sound (hook ∷ hooks) reason h =
      elim (Bool-cases (matches hook.tool_match invocation)) [
        | inr m ↦
            let (before, k, after, e, a, b, c) =
              run_guards_sound hooks reason (rw (m, run_guards) at h) in
            (hook ∷ before, k, after, ap (λ l. hook ∷ l) e, (inl m, a), b, c)
        | inl m ↦ elim (verdict_cases (dispatch_before_hook json hook ctx)) [
          | inl v ↦
              let (before, k, after, e, a, b, c) =
                run_guards_sound hooks reason (rw (m, v, run_guards) at h) in
              (hook ∷ before, k, after, ap (λ l. hook ∷ l) e, (inr v, a), b, c)
          | inr (r, v) ↦
              let same : reject r ≡ reject reason = rw (m, v, run_guards) at h in
              ([], hook, hooks, refl, tt, m, v ∙ same)
        ]
      ]

  run_guards_complete :
      (before : List BeforeToolHook) (hook : BeforeToolHook) (after : List BeforeToolHook)
      (reason : String)
      → All Passes before
      → matches hook.tool_match invocation ≡ true
      → dispatch_before_hook json hook ctx ≡ reject reason
      → run_guards json invocation (before ++ hook ∷ after) ctx ≡ reject reason
  unfolding run_guards
  run_guards_complete [] hook after reason a m v = rw (m, v, run_guards) refl
  run_guards_complete (k ∷ before) hook after reason (inl n, a) m v =
      rw (n, run_guards) (run_guards_complete before hook after reason a m v)
  run_guards_complete (k ∷ before) hook after reason (inr n, a) m v =
      elim (Bool-cases (matches k.tool_match invocation)) [
        | inl e ↦ rw (e, n, run_guards) (run_guards_complete before hook after reason a m v)
        | inr e ↦ rw (e, run_guards) (run_guards_complete before hook after reason a m v)
      ]

-- The guards before a tool reject its call for a reason exactly if this is the reason of the first
-- hook in the configuration's order that is for the tool and its action and does not let it pass.
pub run_before_tool_iff :
    {V : Type 0} (json : Json V) (config : HooksConfig V) (ctx : HookContext V) (reason : String)
    → (run_before_tool json config ctx ≡ reject reason)
      ↔ FirstRejects json ctx (build_invocation ctx.tool_name ctx.action) config.before_tool reason
unfolding run_before_tool
run_before_tool_iff json config ctx reason =
    let invocation = build_invocation ctx.tool_name ctx.action in
    (
      run_guards_sound json ctx invocation config.before_tool reason,
      λ (before, hook, after, e, a, m, v).
          rw e (run_guards_complete json ctx invocation before hook after reason a m v),
    )
