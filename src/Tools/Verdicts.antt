-- ===== src/Tools/Verdicts.antt =====
-- Descriptions of when the guards of crates/duragent/src/tools/hooks.rs reject a call.
use agnx.Common.{
  String, ◌≡◌, refl, ap, inl, inr, Bool, true, false, ◌&&◌, some, List, [], ◌∷◌, ◌++◌, arith, codes,
  any, All, Bool-cases, Option-cases, ◌⊎◌, if_both,
}
use agnx.Session.Message.{Message, ToolCall, is_assistant, is_tool, content_str}
use agnx.Tools.Hooks.{starts_with}
use agnx.Tools.Guards.{response_any, find_prior, find_duplicate, has_result, has_id}

-- An element of the list has the property.
pub data Some {A : Type 0} (P : A → Type 0) : List A → Type 0 where
  here : {x : A} {xs : List A} → P x → Some P (x ∷ xs)
  there : {x : A} {xs : List A} → Some P xs → Some P (x ∷ xs)

-- A place in the list, with the elements behind it, has the property.
pub data Place {A : Type 0} (P : A → List A → Type 0) : List A → Type 0 where
  at : {x : A} {xs : List A} → P x xs → Place P (x ∷ xs)
  behind : {x : A} {xs : List A} → Place P xs → Place P (x ∷ xs)

module _ {A : Type 0} (p : A → Bool) where
  any_sound : (xs : List A) → any p xs ≡ true → Some (λ x. p x ≡ true) xs
  any_sound [] h = absurd (ground (arith, h))
  any_sound (x ∷ xs) h = elim (Bool-cases (p x)) [
    | inl e ↦ here e
    | inr e ↦ there (any_sound xs (rw e at h))
  ]

  any_complete : {xs : List A} → Some (λ x. p x ≡ true) xs → any p xs ≡ true
  any_complete (here e) = rw e refl
  any_complete (there {x = x} s) = ground (arith, any_complete s)

-- The message is a response with a tool call that has the property.
abbrev pub Calls : (ToolCall → Type 0) → Message → Type 0
Calls P m =
    (calls : List ToolCall) × (is_assistant m.role ≡ true)
    × (m.tool_calls ≡ some calls)
    × Some P calls

-- The first result for the call among the later messages is there and is not masked.
abbrev pub IsKept : String → List Message → Type 0
IsKept id later =
    (before : List Message) × (m : Message) × (after : List Message) × (later ≡ before ++ m ∷ after)
    × All (λ n. (is_tool n.role && has_id id n.tool_call_id) ≡ false) before
    × ((is_tool m.role && has_id id m.tool_call_id) ≡ true)
    × (starts_with (codes "[result masked") (codes (content_str m)) ≡ false)

has_result_sound :
    (id : String) (later : List Message) → has_result id later ≡ true → IsKept id later
unfolding has_result
has_result_sound id [] h = absurd (ground (arith, h))
has_result_sound id (m ∷ later) h = elim (Bool-cases (is_tool m.role && has_id id m.tool_call_id)) [
  | inl e ↦ ([], m, later, refl, tt, e, ground (arith, (rw e at h)))
  | inr e ↦
      let (before, n, after, e1, a, b, c) = has_result_sound id later (rw e at h) in
      (m ∷ before, n, after, ap (λ l. m ∷ l) e1, (e, a), b, c)
]

has_result_complete :
    (id : String) (before : List Message) (m : Message) (after : List Message)
    → All (λ n. (is_tool n.role && has_id id n.tool_call_id) ≡ false) before
    → (is_tool m.role && has_id id m.tool_call_id) ≡ true
    → starts_with (codes "[result masked") (codes (content_str m)) ≡ false
    → has_result id (before ++ m ∷ after) ≡ true
unfolding has_result
has_result_complete id [] m after a b c = rw (b, c) refl
has_result_complete id (n ∷ before) m after (d, a) b c =
    rw d (has_result_complete id before m after a b c)

-- A call that the guard takes for the same, with a result that is kept behind it.
abbrev pub IsDuplicate : (ToolCall → Bool) → Message → List Message → Type 0
IsDuplicate same m later = Calls (λ tc. (same tc ≡ true) × IsKept tc.id later) m

response_any_sound :
    (p : ToolCall → Bool) (m : Message) → response_any p m ≡ true → Calls (λ tc. p tc ≡ true) m
unfolding response_any
response_any_sound p m h = elim (Option-cases m.tool_calls) [
  | inl e ↦ absurd (ground (arith, (rw (e, response_any) at h)))
  | inr (calls, e) ↦
      let both : (is_assistant m.role && any p calls) ≡ true = rw (e, response_any) at h in
      let a : is_assistant m.role ≡ true = ground (arith, both) in
      let b : any p calls ≡ true = ground (arith, both) in (calls, a, e, any_sound p calls b)
]

response_any_complete :
    (p : ToolCall → Bool) (m : Message) → Calls (λ tc. p tc ≡ true) m → response_any p m ≡ true
unfolding response_any
response_any_complete p m (a, calls, e, s) =
    rw (e, response_any) (ground (arith, a, any_complete p s))

module _ (same : ToolCall → Bool) where
  kept :
      (later : List Message) (calls : List ToolCall)
      → Some (λ tc. (same tc && has_result tc.id later) ≡ true) calls
      → Some (λ tc. (same tc ≡ true) × IsKept tc.id later) calls
  kept later [] h = elim h [ ]
  kept later (tc ∷ calls) (here e) =
      let a : same tc ≡ true = ground (arith, e) in
      let b : has_result tc.id later ≡ true = ground (arith, e) in
      here (a, has_result_sound tc.id later b)
  kept later (tc ∷ calls) (there s) = there (kept later calls s)

  kept_back :
      (later : List Message) (calls : List ToolCall)
      → Some (λ tc. (same tc ≡ true) × IsKept tc.id later) calls
      → Some (λ tc. (same tc && has_result tc.id later) ≡ true) calls
  kept_back later [] h = elim h [ ]
  kept_back later (tc ∷ calls) (here (e, (before, m, after, e1, a, b, c))) =
      let k : has_result tc.id later ≡ true =
        rw e1 (has_result_complete tc.id before m after a b c) in
      here (rw (e, k) refl)
  kept_back later (tc ∷ calls) (there s) = there (kept_back later calls s)

  pub find_duplicate_sound :
      (ms : List Message) → find_duplicate same ms ≡ true → Place (IsDuplicate same) ms
  unfolding find_duplicate
  find_duplicate_sound [] h = absurd (ground (arith, h))
  find_duplicate_sound (m ∷ ms) h =
      let p = λ (tc : ToolCall). same tc && has_result tc.id ms in
      elim (Bool-cases (response_any p m)) [
        | inl e ↦
            let (calls, a, e1, s) = response_any_sound p m e in at (calls, a, e1, kept ms calls s)
        | inr e ↦ behind (find_duplicate_sound ms (rw e at h))
      ]

  pub find_duplicate_complete :
      (ms : List Message) → Place (IsDuplicate same) ms → find_duplicate same ms ≡ true
  unfolding find_duplicate
  find_duplicate_complete [] h = elim h [ ]
  find_duplicate_complete (m ∷ ms) (at (calls, a, e, s)) =
      rw
        (response_any_complete (λ tc. same tc && has_result tc.id ms) m
          (calls, a, e, kept_back ms calls s))
        refl
  find_duplicate_complete (m ∷ ms) (behind d) =
      if_both (λ b. b ≡ true) (response_any (λ tc. same tc && has_result tc.id ms) m) refl
        (find_duplicate_complete ms d)

module _ (p : ToolCall → Bool) where
  pub find_prior_sound :
      (ms : List Message) → find_prior p ms ≡ true → Some (Calls (λ tc. p tc ≡ true)) ms
  unfolding find_prior
  find_prior_sound [] h = absurd (ground (arith, h))
  find_prior_sound (m ∷ ms) h = elim (Bool-cases (response_any p m)) [
    | inl e ↦ here (response_any_sound p m e)
    | inr e ↦ there (find_prior_sound ms (rw e at h))
  ]

  pub find_prior_complete :
      (ms : List Message) → Some (Calls (λ tc. p tc ≡ true)) ms → find_prior p ms ≡ true
  unfolding find_prior
  find_prior_complete [] h = elim h [ ]
  find_prior_complete (m ∷ ms) (here c) = rw (response_any_complete p m c) refl
  find_prior_complete (m ∷ ms) (there s) =
      if_both (λ b. b ≡ true) (response_any p m) refl (find_prior_complete ms s)

module _ {A : Type 0} (P : A → Type 0) where
  pub some_append : (xs ys : List A) → Some P (xs ++ ys) → Some P xs ⊎ Some P ys
  some_append [] ys s = inr s
  some_append (x ∷ xs) ys (here h) = inl (here h)
  some_append (x ∷ xs) ys (there s) = elim (some_append xs ys s) [
    | inl a ↦ inl (there a)
    | inr b ↦ inr b
  ]

  pub some_left : (xs ys : List A) → Some P xs → Some P (xs ++ ys)
  some_left [] ys s = elim s [ ]
  some_left (x ∷ xs) ys (here h) = here h
  some_left (x ∷ xs) ys (there s) = there (some_left xs ys s)

  pub some_right : (xs ys : List A) → Some P ys → Some P (xs ++ ys)
  some_right [] ys s = s
  some_right (x ∷ xs) ys s = there (some_right xs ys s)
