-- ===== src/Client/Sse/Events.antt =====
-- From lines to events: `EventBuilder` and `SseEventStream` of
-- crates/duragent-client/src/sse_parser.rs.
use agnx.Common.{
  ℕ, ◌≡◌, refl, Bool, true, false, not, ◌||◌, Option, none, some, List, [], ◌∷◌, ◌++◌,
  if◌then◌else◌, Result, ok, err, Text, codes, is_empty,
}
use agnx.Client.Sse.{
  SseLine, SseEvent, newline, strip_space, parse_line, data_, event, id, retry, empty, comment,
}

pub record EventBuilder : Type 0 where
  pub data_lines : List Text
  pub event : Option Text
  pub id : Option Text
  pub retry : Option ℕ

abbrev pub default_builder : EventBuilder
default_builder = record { data_lines = []; event = none; id = none; retry = none }

unfoldable pub push_line : EventBuilder → SseLine → EventBuilder
push_line b (data_ d) = record b { data_lines = b.data_lines ++ d ∷ [] }
push_line b (event e) = record b { event = some e }
push_line b (id i) = record b { id = some i }
push_line b (retry r) = record b { retry = some r }
push_line b empty = b
push_line b (comment _) = b

abbrev is_some : {A : Type 0} → Option A → Bool
is_some none = false
is_some (some a) = true

unfoldable pub has_content : EventBuilder → Bool
has_content b = not (is_empty b.data_lines) || is_some b.event || is_some b.id || is_some b.retry

-- `join("\n")`
unfoldable pub join : List Text → Text
join [] = []
join (l ∷ []) = l
join (l ∷ m ∷ ls) = l ++ newline ∷ join (m ∷ ls)

-- The builder is the default one afterwards.
unfoldable pub build : EventBuilder → SseEvent
build b = record { data_ = join b.data_lines; event = b.event; id = b.id; retry = b.retry }

unfoldable pub finish : {E : Type 0} → EventBuilder → List (Result SseEvent E)
finish b = if has_content b then ok (build b) ∷ [] else []

-- What polls of the event stream return for what polls of its line stream return.
unfoldable pub events :
    {E : Type 0} → EventBuilder → List (Result SseLine E) → List (Result SseEvent E)
events b [] = finish b
events b (ok empty ∷ ls) =
    let next = events default_builder ls in
    let same = events b ls in if has_content b then ok (build b) ∷ next else same
events b (ok (comment _) ∷ ls) = events b ls
events b (ok (data_ d) ∷ ls) = events (push_line b (data_ d)) ls
events b (ok (event e) ∷ ls) = events (push_line b (event e)) ls
events b (ok (id i) ∷ ls) = events (push_line b (id i)) ls
events b (ok (retry r) ∷ ls) = events (push_line b (retry r)) ls
events b (err e ∷ ls) = err e ∷ events b ls

-- The lines that an event is written as, as a server writes them.
abbrev pub data_lines_of : List Text → List Text
data_lines_of [] = []
data_lines_of (l ∷ ls) = (codes "data: " ++ l) ∷ data_lines_of ls

abbrev pub field : Text → Option Text → List Text
field name none = []
field name (some v) = (name ++ codes ": " ++ v) ∷ []

abbrev pub written : List Text → Option Text → Option Text → List Text
written ls e i =
    field (codes "event") e ++ (field (codes "id") i ++ (data_lines_of ls ++ codes "" ∷ []))

module _ (trim : Text → Text) (parse_u64 : Text → Option ℕ) where
  pub parse_data : (l : Text) → parse_line trim parse_u64 (codes "data: " ++ l) ≡ data_ l
  unfolding parse_line strip_space
  parse_data l = refl

  pub parse_event : (l : Text) → parse_line trim parse_u64 (codes "event: " ++ l) ≡ event l
  unfolding parse_line strip_space
  parse_event l = refl

  pub parse_id : (l : Text) → parse_line trim parse_u64 (codes "id: " ++ l) ≡ id l
  unfolding parse_line strip_space
  parse_id l = refl
