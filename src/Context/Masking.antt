-- ===== src/Context/Masking.antt =====
-- One pass over the messages that masks what `mask_tool_results` of
-- crates/duragent/src/context/truncation.rs finds by indices.
use agnx.Common.{
  leb→le, take, drop, take_nil, drop_nil, drop_end, drop-take, take-append-drop, length-take, ℕ,
  ◌+◌, String, Option, List, [], ◌∷◌, if◌then◌else◌, zero, suc, ◌≡◌, refl, ap, ◌++◌, arith, length,
  if_both, ◌-◌, inl, inr, ◌&&◌, append_assoc, ◌==◌, Bool-cases, length-append, ◌≤◌, sym, ◌∙◌, false,
  leb,
}
use agnx.Session.Message.{Message, ToolCall}
use agnx.Context.Truncation.{
  mask_tool_results, mask_all, mask_message, update, tool_indices, is_tool,
}

abbrev pub tools : List Message → ℕ
tools [] = 0
tools (m ∷ ms) = (if is_tool m then 1 else 0) + tools ms

length-tool_indices : (i : ℕ) (ms : List Message) → length (tool_indices i ms) ≡ tools ms
unfolding tool_indices
length-tool_indices i [] = refl
length-tool_indices i (m ∷ ms) = ground (arith, length-tool_indices (i + 1) ms)

update-length :
    {A : Type 0} (f : A → A) (pre : List A) (x : A) (xs : List A)
    → update f (length pre) (pre ++ x ∷ xs) ≡ pre ++ f x ∷ xs
unfolding update
update-length f [] x xs = refl
update-length f (y ∷ pre) x xs = ap (λ l. y ∷ l) (update-length f pre x xs)

module _ (to_json : List ToolCall → Option String) (placeholder : ℕ → String) where
  -- Of the tool messages, the first `a` are kept, the next `n` are masked, and the rest is kept.
  abbrev pub mask_pass : ℕ → ℕ → List Message → List Message
  mask_pass a n [] = []
  mask_pass zero zero (m ∷ ms) = m ∷ ms
  mask_pass zero (suc n) (m ∷ ms) =
      let masked = mask_pass zero n ms in
      let kept = mask_pass zero (suc n) ms in
      if is_tool m then mask_message to_json placeholder m ∷ masked else m ∷ kept
  mask_pass (suc a) n (m ∷ ms) =
      let next = mask_pass a n ms in
      let same = mask_pass (suc a) n ms in if is_tool m then m ∷ next else m ∷ same

  mask_pass_none : (a : ℕ) (ms : List Message) → mask_pass a 0 ms ≡ ms
  mask_pass_none a [] = refl
  mask_pass_none zero (m ∷ ms) = refl
  mask_pass_none (suc a) (m ∷ ms) =
      if_both (λ l. l ≡ m ∷ ms) (is_tool m) (ap (λ l. m ∷ l) (mask_pass_none a ms))
        (ap (λ l. m ∷ l) (mask_pass_none (suc a) ms))

  -- The indices that are masked, counted from the length of what stands before.
  abbrev chosen : ℕ → ℕ → List Message → List Message → List ℕ
  chosen a n pre ms = take n (drop a (tool_indices (length pre) ms))

  abbrev masked : ℕ → ℕ → List Message → List Message → List Message
  masked a n pre ms = mask_all to_json placeholder (chosen a n pre ms) (pre ++ ms)

  -- A message that is done with belongs to what stands before.
  moved :
      (a n : ℕ) (pre : List Message) (x : Message) (ms : List Message)
      → masked a n (pre ++ x ∷ []) ms ≡ (pre ++ x ∷ []) ++ mask_pass a n ms
      → mask_all to_json placeholder
          (take n (drop a (tool_indices (length pre + 1) ms)))
          (pre ++ x ∷ ms)
        ≡ pre ++ x ∷ mask_pass a n ms
  moved a n pre x ms ih =
      let l : length (pre ++ x ∷ []) ≡ length pre + 1 = length-append pre (x ∷ []) in
      rw (l, append_assoc pre (x ∷ []) ms, append_assoc pre (x ∷ []) (mask_pass a n ms)) at ih

  mask_all_lem : (a n : ℕ) (pre ms : List Message) → masked a n pre ms ≡ pre ++ mask_pass a n ms
  unfolding mask_all tool_indices
  mask_all_lem a n pre [] = rw (drop_nil {A = ℕ} a, take_nil {A = ℕ} n)
  mask_all_lem zero zero pre (m ∷ ms) = refl
  mask_all_lem zero (suc n) pre (m ∷ ms) = elim (Bool-cases (is_tool m)) [
    | inl e ↦
        let x = mask_message to_json placeholder m in
        rw (e, update-length (mask_message to_json placeholder) pre m ms)
          (moved 0 n pre x ms (mask_all_lem 0 n (pre ++ x ∷ []) ms))
    | inr e ↦ rw e (moved 0 (suc n) pre m ms (mask_all_lem 0 (suc n) (pre ++ m ∷ []) ms))
  ]
  mask_all_lem (suc a) n pre (m ∷ ms) = elim (Bool-cases (is_tool m)) [
    | inl e ↦ rw e (moved a n pre m ms (mask_all_lem a n (pre ++ m ∷ []) ms))
    | inr e ↦ rw e (moved (suc a) n pre m ms (mask_all_lem (suc a) n (pre ++ m ∷ []) ms))
  ]

  mask_slice :
      (a n e : ℕ) (ms : List Message)
      → e ≤ length ms
      → mask_all to_json placeholder (take n (drop a (tool_indices e (drop e ms)))) ms
        ≡ take e ms ++ mask_pass a n (drop e ms)
  mask_slice a n e ms h =
      let l : length (take e ms) ≡ e = omega (arith, h, length-take e ms) in
      rw (l, take-append-drop e ms) at (mask_all_lem a n (take e ms) (drop e ms))

  mask_nothing :
      (a n e : ℕ) (ms : List Message) → n ≡ 0 → ms ≡ take e ms ++ mask_pass a n (drop e ms)
  mask_nothing a n e ms h = rw (h, mask_pass_none a (drop e ms)) (sym (take-append-drop e ms))

  end_in_range :
      (e k : ℕ) (ms : List Message)
      → leb (length (tool_indices e (drop e ms))) k ≡ false
      → e ≤ length ms
  unfolding tool_indices
  end_in_range e k ms h = elim (Bool-cases (leb e (length ms))) [
    | inl l ↦ leb→le e (length ms) l
    | inr l ↦
        let d : drop e ms ≡ [] = drop_end e ms (ground (arith, l)) in
        absurd (ground (arith, (rw d at h)))
  ]

  -- Masking is one pass over the messages after the end of the conversation: of the tool messages
  -- there, the first `keep_first` and the last `keep_last` are kept and those between are masked, unless both
  -- numbers are 0; every other message stays as it is.
  pub mask_tool_results_lem :
      (ms : List Message) (end_ keep_first keep_last : ℕ)
      → mask_tool_results to_json placeholder ms end_ keep_first keep_last ≡ (
          if keep_first == 0 && keep_last == 0
          then ms
          else take end_ ms
            ++ mask_pass keep_first
                (tools (drop end_ ms) - (keep_first + keep_last))
                (drop end_ ms))
  unfolding mask_tool_results
  mask_tool_results_lem ms end_ kf kl =
      let idx = tool_indices end_ (drop end_ ms) in
      let t = length-tool_indices end_ (drop end_ ms) in
      let n = tools (drop end_ ms) - (kf + kl) in
      elim (Bool-cases (kf == 0 && kl == 0)) [
        | inl e ↦ rw (mask_tool_results, e)
        | inr e ↦ elim (Bool-cases (leb (length idx) (kf + kl))) [
          | inl f ↦
              rw (mask_tool_results, e, f)
                (mask_nothing kf n end_ ms (omega (arith, t, leb→le (length idx) (kf + kl) f)))
          | inr f ↦
              rw (mask_tool_results, e, f)
                (ap (λ s. mask_all to_json placeholder s ms) (drop-take kf (length idx - kl) idx)
                  ∙ ap (λ i. mask_all to_json placeholder (take i (drop kf idx)) ms)
                      {x = length idx - kl - kf} {y = n} (omega (arith, t))
                  ∙ mask_slice kf n end_ ms (end_in_range end_ (kf + kl) ms f))
        ]
      ]
