-- ===== src/Agentic/Masked.antt =====
-- The masking of tool results, seen from the calls that want results.
use agnx.Common.{
  drop, drop-length_append, take-length_append, ℕ, zero, suc, ◌+◌, ◌-◌, String, ◌≡◌, refl, sym, ap,
  ◌∙◌, subst, Bool, ◌&&◌, Option, List, [], ◌∷◌, ◌++◌, ◌==◌, length, if_both,
}
use mathlib.Core.Path.{fun_ext}
use agnx.Session.Message.{Message, ToolCall}
use agnx.Context.Truncation.{mask_message, mask_tool_results, is_tool}
use agnx.Context.Masking.{mask_pass, mask_tool_results_lem, tools}
use agnx.Agentic.Answers.{owed, owed_by, then_owed, IsAnswered}

module _ (to_json : List ToolCall → Option String) (placeholder : ℕ → String) (strict : Bool) where
  -- A message that is masked settles what it settled before.
  owed_cons :
      (ids : List String) (m : Message) (xs ys : List Message)
      → ((left : List String) → owed strict left xs ≡ owed strict left ys)
      → (owed strict ids (m ∷ xs) ≡ owed strict ids (m ∷ ys))
        × (owed strict ids (mask_message to_json placeholder m ∷ xs) ≡ owed strict ids (m ∷ ys))
  unfolding owed owed_by mask_message
  owed_cons ids m xs ys h = let e = ap (then_owed (owed_by strict ids m)) (fun_ext h) in (e, e)

  owed-mask_pass :
      (ids : List String) (a n : ℕ) (ms : List Message)
      → owed strict ids (mask_pass to_json placeholder a n ms) ≡ owed strict ids ms
  owed-mask_pass ids a n [] = refl
  owed-mask_pass ids zero zero (m ∷ ms) = refl
  owed-mask_pass ids zero (suc n) (m ∷ ms) =
      if_both (λ l. owed strict ids l ≡ owed strict ids (m ∷ ms)) (is_tool m)
        (owed_cons ids m _ ms (λ left. owed-mask_pass left zero n ms)).1
        (owed_cons ids m _ ms (λ left. owed-mask_pass left zero (suc n) ms)).0
  owed-mask_pass ids (suc a) n (m ∷ ms) =
      if_both (λ l. owed strict ids l ≡ owed strict ids (m ∷ ms)) (is_tool m)
        (owed_cons ids m _ ms (λ left. owed-mask_pass left a n ms)).0
        (owed_cons ids m _ ms (λ left. owed-mask_pass left (suc a) n ms)).0

  pub mask_tool_results-IsAnswered :
      (conversation ms : List Message) (keep_first keep_last : ℕ)
      → IsAnswered strict ms
      → (x : List Message) × (mask_tool_results to_json placeholder
            (conversation ++ ms)
            (length conversation)
            keep_first
            keep_last
          ≡ conversation ++ x)
        × IsAnswered strict x
  mask_tool_results-IsAnswered conversation ms kf kl h =
      let P : List Message → Type 0 =
        λ l. (x : List Message) × (l ≡ conversation ++ x) × IsAnswered strict x in
      let whole = conversation ++ ms in
      let n = tools (drop (length conversation) whole) - (kf + kl) in
      let start = drop-length_append conversation ms in
      subst P (sym (mask_tool_results_lem to_json placeholder whole (length conversation) kf kl)) (
        if_both P (kf == 0 && kl == 0) {x = whole} (ms, refl, h)
          (
            mask_pass to_json placeholder kf n ms,
            rw (start, take-length_append conversation ms) refl,
            owed-mask_pass [] kf n ms ∙ h,
          ))
