-- ===== src/Client/Sse.antt =====
-- Server-sent events: crates/duragent-client/src/sse_parser.rs.
-- `from_utf8`, `trim` and `parse::<u64>()` are functions of the standard library, taken as
-- parameters; a text is the list of its code points. Polls that return `Pending` change nothing and
-- are left out: `input` is what the inner stream still returns.
pub mod Lines
pub mod Events
pub mod RoundTrip
mod Tests
use agnx.Common.{
  ℕ, Bool, false, Option, none, some, List, [], ◌∷◌, ◌++◌, ◌==◌, if◌then◌else◌, Result, ok, Text,
  codes, strip_prefix, zero, suc, true, err, split_once,
}

pub data SseLine : Type 0 where
  data_ : Text → SseLine
  event : Text → SseLine
  id : Text → SseLine
  retry : ℕ → SseLine
  empty : SseLine
  comment : Text → SseLine

pub record SseEvent : Type 0 where
  pub data_ : Text
  pub event : Option Text
  pub id : Option Text
  pub retry : Option ℕ

abbrev pub newline : ℕ
newline = b'\n'

abbrev pub carriage_return : ℕ
carriage_return = 13

-- `strip_prefix(' ').unwrap_or(..)`
pub strip_space : Text → Text
strip_space s = elim (strip_prefix (codes " ") s) [ some r ↦ r | none ↦ s ]

-- `if line.ends_with('\r') { line.pop(); }`
pub strip_cr : Text → Text
strip_cr [] = []
strip_cr (c ∷ []) = if c == carriage_return then [] else c ∷ []
strip_cr (c ∷ d ∷ s) = c ∷ strip_cr (d ∷ s)

pub record SseLineStream : Type 0 where
  pub buffer : Text
  pub done : Bool

-- `SseLineStream::new`
pub new_lines : SseLineStream
new_lines = record { buffer = []; done = false }

module _ (trim : Text → Text) (parse_u64 : Text → Option ℕ) where
  pub parse_retry : Text → Text → SseLine
  parse_retry line r = elim (parse_u64 (trim (strip_space r))) [
    | some n ↦ retry n
    | none ↦ comment line
  ]

  pub parse_line : Text → SseLine
  parse_line [] = empty
  parse_line line = elim (strip_prefix (codes "data:") line) [
    | some r ↦ data_ (strip_space r)
    | none ↦ elim (strip_prefix (codes "event:") line) [
      | some r ↦ event (strip_space r)
      | none ↦ elim (strip_prefix (codes "id:") line) [
        | some r ↦ id (strip_space r)
        | none ↦ elim (strip_prefix (codes "retry:") line) [
          | some r ↦ parse_retry line r
          | none ↦ elim (strip_prefix (codes ":") line) [
            | some r ↦ comment (strip_space r)
            | none ↦ comment line
          ]
        ]
      ]
    ]
  ]

  -- The branch of `poll_next` at the end of the inner stream.
  pub at_end : Text → Option SseLine
  at_end [] = none
  at_end buffer = some (parse_line buffer)

pub push_bytes : Text → Option Text → Text
push_bytes buffer none = buffer
push_bytes buffer (some t) = buffer ++ t

abbrev pub Polled : Type 0 → Type 0 → Type 0
Polled B E = Option (Result SseLine E) × SseLineStream × List (Result B E)

abbrev pub map_ok : {E : Type 0} → Option SseLine → Option (Result SseLine E)
map_ok none = none
map_ok (some l) = some (ok l)

module _ (trim : Text → Text) (parse_u64 : Text → Option ℕ) {B E : Type 0}
    (from_utf8 : B → Option Text) where
  abbrev yield_line : Text × Text → List (Result B E) → Polled B E
  yield_line (line, rest) input = (
    some (ok (parse_line trim parse_u64 (strip_cr line))),
    record { buffer = rest; done = false },
    input,
  )

  -- The loop of `poll_next`.
  pub poll_lines : Text → List (Result B E) → Polled B E
  poll_lines buffer [] = elim (split_once newline buffer) [
    | some l ↦ yield_line l []
    | none ↦ (map_ok (at_end trim parse_u64 buffer), record { buffer = []; done = true }, [])
  ]
  poll_lines buffer (ok bytes ∷ input) =
      let later = poll_lines (push_bytes buffer (from_utf8 bytes)) input in
      elim (split_once newline buffer) [ some l ↦ yield_line l (ok bytes ∷ input) | none ↦ later ]
  poll_lines buffer (err e ∷ input) = elim (split_once newline buffer) [
    | some l ↦ yield_line l (err e ∷ input)
    | none ↦ (some (err e), record { buffer = buffer; done = false }, input)
  ]

  pub poll_next : SseLineStream → List (Result B E) → Polled B E
  poll_next s input = if s.done then (none, s, input) else poll_lines s.buffer input

  -- What at most `fuel` polls return, up to the first `None`.
  pub collect : ℕ → SseLineStream → List (Result B E) → List (Result SseLine E)
  collect zero s input = []
  collect (suc fuel) s input =
      let (l, s', input') = poll_next s input in
      let later = collect fuel s' input' in elim l [ none ↦ [] | some x ↦ x ∷ later ]
