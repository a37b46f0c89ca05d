-- ===== src/Client/Sse/RoundTrip.antt =====
-- Events as text, and both streams of crates/duragent-client/src/sse_parser.rs on them.
use agnx.Common.{
  ℕ, ◌≡◌, refl, ap, ◌∙◌, Bool, true, false, not, ◌&&◌, Option, List, [], ◌∷◌, ◌++◌, map, append-nil,
  arith, ◌==◌, Result, ok, split, Text, all, All, ◌+◌, ◌<◌, none, some, append_assoc, length,
  length-append,
}
use agnx.Client.Sse.Lines.{collect_lem, Decodes, lines_of}
use agnx.Client.Sse.Events.{
  join, build, default_builder, has_content, finish, written, parse_data, EventBuilder, push_line,
  events, data_lines_of,
}
use agnx.Client.Sse.{
  strip_space, new_lines, collect, SseLine, newline, carriage_return, strip_cr, parse_line,
}

-- No line end in the text.
abbrev pub is_clean : Text → Bool
is_clean = all (λ c. not (c == newline) && not (c == carriage_return))

abbrev pub text_of : List Text → Text
text_of [] = []
text_of (l ∷ ls) = l ++ newline ∷ text_of ls

abbrev pub AreClean : List Text → Type 0
AreClean = All (λ l. is_clean l ≡ true)

abbrev pub IsClean? : Option Text → Type 0
IsClean? none = Unit
IsClean? (some l) = is_clean l ≡ true

split-line :
    (l s : Text) → is_clean l ≡ true → split newline (l ++ newline ∷ s) ≡ l ∷ split newline s
unfolding split
split-line [] s h = refl
split-line (c ∷ l) s h =
    let e : (c == newline) ≡ false = ground (arith, h) in
    let k : is_clean l ≡ true = ground (arith, h) in rw (e, split-line l s k)

split-text_of : (ls : List Text) → AreClean ls → split newline (text_of ls) ≡ ls ++ [] ∷ []
unfolding split
split-text_of [] h = refl
split-text_of (l ∷ ls) h = split-line l (text_of ls) h.0 ∙ ap (λ r. l ∷ r) (split-text_of ls h.1)

strip_cr_clean : (l : Text) → is_clean l ≡ true → strip_cr l ≡ l
unfolding strip_cr
strip_cr_clean [] h = refl
strip_cr_clean (c ∷ []) h = let e : (c == carriage_return) ≡ false = ground (arith, h) in rw e
strip_cr_clean (c ∷ d ∷ l) h = ap (λ r. c ∷ r) (strip_cr_clean (d ∷ l) (ground (arith, h)))

module _ (trim : Text → Text) (parse_u64 : Text → Option ℕ) where
  lines_of_clean :
      (ls : List Text)
      → AreClean ls
      → lines_of trim parse_u64 (ls ++ [] ∷ []) ≡ map (parse_line trim parse_u64) ls
  lines_of_clean [] h = refl
  lines_of_clean (l ∷ []) h = rw (strip_cr_clean l h.0)
  lines_of_clean (l ∷ m ∷ ls) h =
      rw (strip_cr_clean l h.0)
        (ap (λ r. parse_line trim parse_u64 l ∷ r) (lines_of_clean (m ∷ ls) h.1))

  abbrev parsed : {E : Type 0} → List Text → List (Result SseLine E)
  parsed ls = map ok (map (parse_line trim parse_u64) ls)

  events-data :
      {E : Type 0} (b : EventBuilder) (ls ms : List Text)
      → events {E = E} b (parsed (data_lines_of ls ++ ms))
        ≡ events (record b { data_lines = b.data_lines ++ ls }) (parsed ms)
  unfolding events push_line
  events-data b [] ms = rw (append-nil b.data_lines)
  events-data b (l ∷ ls) ms = rw (parse_data trim parse_u64 l) (
      events-data (record b { data_lines = b.data_lines ++ l ∷ [] }) ls ms
      ∙ rw (append_assoc b.data_lines (l ∷ []) ls))

  AreClean-data : (ls : List Text) → AreClean ls → AreClean (data_lines_of ls ++ [] ∷ [])
  AreClean-data [] h = (refl, tt)
  AreClean-data (l ∷ ls) h = (h.0, AreClean-data ls h.1)

  AreClean-written :
      (ls : List Text) (e i : Option Text)
      → AreClean ls
      → IsClean? e
      → IsClean? i
      → AreClean (written ls e i)
  AreClean-written ls none none h he hi = AreClean-data ls h
  AreClean-written ls none (some i) h he hi = (hi, AreClean-data ls h)
  AreClean-written ls (some e) none h he hi = (he, AreClean-data ls h)
  AreClean-written ls (some e) (some i) h he hi = (he, (hi, AreClean-data ls h))

  events-written :
      {E : Type 0} (l : Text) (ls : List Text) (e i : Option Text)
      → events {E = E} default_builder (parsed (written (l ∷ ls) e i))
        ≡ ok (record { data_ = join (l ∷ ls); event = e; id = i; retry = none }) ∷ []
  unfolding events push_line finish has_content build parse_line strip_space
  events-written l ls none none = events-data default_builder (l ∷ ls) ([] ∷ [])
  events-written l ls none (some i) =
      events-data (record default_builder { id = some i }) (l ∷ ls) ([] ∷ [])
  events-written l ls (some e) none =
      events-data (record default_builder { event = some e }) (l ∷ ls) ([] ∷ [])
  events-written l ls (some e) (some i) =
      events-data (record default_builder { event = some e; id = some i }) (l ∷ ls) ([] ∷ [])

  -- An event with data whose lines, name and id contain no line end, written as text, cut into
  -- chunks that are valid UTF-8 each, and polled more often than it has lines, is read back as
  -- it was.
  pub events-collect :
      {B E : Type 0} (from_utf8 : B → Option Text) (l : Text) (ls : List Text) (e i : Option Text)
      {input : List (Result B E)}
      → AreClean (l ∷ ls)
      → IsClean? e
      → IsClean? i
      → Decodes from_utf8 input (text_of (written (l ∷ ls) e i))
      → (fuel : ℕ) → length (written (l ∷ ls) e i) + 1 < fuel
      → events default_builder (collect trim parse_u64 from_utf8 fuel new_lines input)
        ≡ ok (record { data_ = join (l ∷ ls); event = e; id = i; retry = none }) ∷ []
  events-collect from_utf8 l ls e i h he hi d fuel n =
      let w = written (l ∷ ls) e i in
      let c = AreClean-written (l ∷ ls) e i h he hi in
      let s = split-text_of w c in
      ap (events default_builder) (
        collect_lem trim parse_u64 from_utf8 d fuel
          (omega (arith, n, ap length s, length-append w ([] ∷ [])))
        ∙ ap (λ r. map ok (lines_of trim parse_u64 r)) s
        ∙ ap (map ok) (lines_of_clean w c))
      ∙ events-written l ls e i
