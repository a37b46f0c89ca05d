-- ===== src/Client/Sse/Lines.antt =====
-- The lines of a whole text, beside those that `SseLineStream` returns for chunks of it
-- (crates/duragent-client/src/sse_parser.rs).
use agnx.Common.{
  ℕ, ◌≡◌, Option, none, some, List, [], ◌∷◌, ◌++◌, Result, ok, split, split_once, Text, zero, suc,
  ◌<◌, refl, sym, ◌⊎◌, inl, inr, true, false, map, append-nil, append_assoc, arith, ◌==◌, length,
  Bool-cases, ap, ◌∙◌, split_nonempty,
}
use agnx.Client.Sse.{
  at_end, map_ok, poll_next, push_bytes, newline, new_lines, collect, poll_lines, Polled, SseLine,
  strip_cr, parse_line,
}

-- `split_once` finds the first part of `split`, also where more text follows.
pub split_once_cases :
    (d : ℕ) (s : Text)
    → ((split_once d s ≡ none) × (split d s ≡ s ∷ []))
      ⊎ ((a : Text) × (b : Text) × (split_once d s ≡ some (a, b))
          × (split d s ≡ a ∷ split d b)
          × ((t : Text) → split_once d (s ++ t) ≡ some (a, b ++ t)))
unfolding split_once split
split_once_cases d [] = inl (refl, refl)
split_once_cases d (c ∷ s) = elim (Bool-cases (c == d)) [
  | inl q ↦ inr ([], s, rw q, rw q, λ t. rw q)
  | inr q ↦ elim (split_once_cases d s) [
    | inl (e1, e2) ↦ inl (rw (q, e1), rw (q, e2))
    | inr (a, b, e1, e2, f) ↦ inr (c ∷ a, b, rw (q, e1), rw (q, e2), λ t. rw (q, f t))
  ]
]

split-none : (d : ℕ) (s : Text) → split_once d s ≡ none → split d s ≡ s ∷ []
split-none d s h = elim (split_once_cases d s) [ inl (_, e) ↦ e | inr (a, b, e, _, _) ↦ cc ]

split-some : (d : ℕ) (s a b : Text) → split_once d s ≡ some (a, b) → split d s ≡ a ∷ split d b
split-some d s a b h = elim (split_once_cases d s) [ inl (e, _) ↦ cc | inr (a', b', e, k, _) ↦ cc ]

module _ (trim : Text → Text) (parse_u64 : Text → Option ℕ) where
  abbrev pub last_line : Text → List SseLine
  last_line [] = []
  last_line (c ∷ l) = parse_line trim parse_u64 (c ∷ l) ∷ []

  -- The lines of a whole text: what the line ends separate, and a last line that is not empty.
  abbrev pub lines_of : List Text → List SseLine
  lines_of [] = []
  lines_of (l ∷ []) = last_line l
  lines_of (l ∷ m ∷ ls) = parse_line trim parse_u64 (strip_cr l) ∷ lines_of (m ∷ ls)

  lines_of-split :
      (a s : Text)
      → lines_of (a ∷ split newline s)
        ≡ parse_line trim parse_u64 (strip_cr a) ∷ lines_of (split newline s)
  lines_of-split a s = let (m, ls, q) = split_nonempty newline s in rw q

-- The chunks decode to these texts.
pub data Decodes {B E : Type 0} (from_utf8 : B → Option Text)
    : List (Result B E) → Text → Type 0 where
  nothing : Decodes from_utf8 [] []
  chunk :
      {b : B} {t : Text} {input : List (Result B E)} {u : Text}
      → from_utf8 b ≡ some t
      → Decodes from_utf8 input u
      → Decodes from_utf8 (ok b ∷ input) (t ++ u)

module _ (trim : Text → Text) (parse_u64 : Text → Option ℕ) {B E : Type 0}
    (from_utf8 : B → Option Text) where
  -- A poll returns the first line of the whole text, or its last one at the end.
  abbrev Polls : Text → Polled B E → Type 0
  Polls w r =
      ((split_once newline w ≡ none)
        × (r ≡ (map_ok (at_end trim parse_u64 w), record { buffer = []; done = true }, [])))
      ⊎ ((a : Text) × (buffer : Text) × (input : List (Result B E)) × (u : Text) × (split_once
              newline w
            ≡ some (a, buffer ++ u))
          × Decodes from_utf8 input u
          × (r ≡ (
            some (ok (parse_line trim parse_u64 (strip_cr a))),
            record { buffer = buffer; done = false },
            input,
          )))

  poll_lines-Polls :
      (buffer : Text) {input : List (Result B E)} {u : Text}
      → Decodes from_utf8 input u
      → Polls (buffer ++ u) (poll_lines trim parse_u64 from_utf8 buffer input)
  unfolding poll_lines push_bytes
  poll_lines-Polls buffer Decodes.nothing = elim (split_once_cases newline buffer) [
    | inl (e, _) ↦ inl (rw (append-nil buffer) e, rw (append-nil buffer, poll_lines, e))
    | inr (a, b, e, _, f) ↦ inr (a, b, [], [], f [], Decodes.nothing, rw (e, poll_lines))
  ]
  poll_lines-Polls buffer (Decodes.chunk {b = c} {t = t} {input = input} {u = u} h d) =
      elim (split_once_cases newline buffer) [
        | inl (e, _) ↦
            rw (poll_lines, e, h, sym (append_assoc buffer t u)) (poll_lines-Polls (buffer ++ t) d)
        | inr (a, b, e, _, f) ↦
            inr (a, b, ok c ∷ input, t ++ u, f (t ++ u), Decodes.chunk h d, rw (e, poll_lines))
      ]

  collect_done :
      (fuel : ℕ) (input : List (Result B E))
      → collect trim parse_u64 from_utf8 fuel (record { buffer = []; done = true }) input ≡ []
  unfolding collect poll_next
  collect_done zero input = refl
  collect_done (suc fuel) input = refl

  abbrev collected : ℕ → Polled B E → List (Result SseLine E)
  collected fuel r = elim r.0 [
    | none ↦ []
    | some x ↦ x ∷ collect trim parse_u64 from_utf8 fuel r.1 r.2
  ]

  collect_step :
      (fuel : ℕ) (buffer : Text) (input : List (Result B E)) (r : Polled B E)
      → poll_lines trim parse_u64 from_utf8 buffer input ≡ r
      → collect trim parse_u64 from_utf8 (suc fuel) (record { buffer = buffer; done = false }) input
        ≡ collected fuel r
  unfolding collect poll_next
  collect_step fuel buffer input r e = ap (collected fuel) e

  collect_end :
      (fuel : ℕ) (w : Text)
      → collected fuel (map_ok (at_end trim parse_u64 w), record { buffer = []; done = true }, [])
        ≡ map ok (last_line trim parse_u64 w)
  unfolding at_end
  collect_end fuel [] = refl
  collect_end fuel (c ∷ l) =
      ap (λ ls. ok (parse_line trim parse_u64 (c ∷ l)) ∷ ls) (collect_done fuel [])

  collect_from :
      (fuel : ℕ) (buffer : Text) {input : List (Result B E)} {u : Text}
      → Decodes from_utf8 input u
      → length (split newline (buffer ++ u)) < fuel
      → collect trim parse_u64 from_utf8 fuel (record { buffer = buffer; done = false }) input
        ≡ map ok (lines_of trim parse_u64 (split newline (buffer ++ u)))
  collect_from zero buffer d h = absurd (omega (arith, h))
  collect_from (suc fuel) buffer {input} {u} d h = elim (poll_lines-Polls buffer d) [
    | inl (e, r) ↦
        collect_step fuel buffer input _ r
        ∙ collect_end fuel (buffer ++ u)
        ∙ ap (λ ls. map ok (lines_of trim parse_u64 ls)) (sym (split-none newline (buffer ++ u) e))
    | inr (a, b, i, v, e, d', r) ↦
        let k = split-some newline (buffer ++ u) a (b ++ v) e in
        collect_step fuel buffer input _ r
        ∙ ap (λ ls. ok (parse_line trim parse_u64 (strip_cr a)) ∷ ls)
            (collect_from fuel b d' (omega (arith, h, ap length k)))
        ∙ ap (map ok)
            (sym (lines_of-split trim parse_u64 a (b ++ v)) ∙ sym (ap (lines_of trim parse_u64) k))
  ]

  -- If every chunk is valid UTF-8, then the lines that more polls than there are lines return
  -- are those of the concatenated chunks, wherever the bytes are cut.
  pub collect_lem :
      {input : List (Result B E)} {u : Text}
      → Decodes from_utf8 input u
      → (fuel : ℕ) → length (split newline u) < fuel
      → collect trim parse_u64 from_utf8 fuel new_lines input
        ≡ map ok (lines_of trim parse_u64 (split newline u))
  unfolding new_lines
  collect_lem d fuel h = collect_from fuel [] d h
