-- ===== src/Client/Sse/Tests.antt =====
-- crates/duragent-client/src/sse_parser.rs on a stream in two chunks.
use agnx.Common.{
  ℕ, ◌+◌, ◌<◌, ◌≡◌, refl, true, Option, none, some, List, [], ◌∷◌, map, arith, ltb, if◌then◌else◌,
  length, Result, ok, split, split_once, Text, codes, all,
}
use agnx.Client.Sse.Lines.{Decodes, lines_of, collect_lem}
use agnx.Client.Sse.Events.{events, default_builder, join, written}
use agnx.Client.Sse.RoundTrip.{events-collect}
use agnx.Client.Sse.{at_end, newline, new_lines, collect, poll_next, poll_lines, push_bytes}

-- ASCII bytes decode to themselves.
abbrev ascii : Text → Option Text
ascii b = if all (λ c. ltb c 128) b then some b else none

abbrev same : Text → Text
same s = s

abbrev no_number : Text → Option ℕ
no_number s = none

abbrev chunks : List (Result Text Unit)
chunks = ok (codes "event: msg\nda") ∷ ok (codes "ta: hi\n\n") ∷ []

chunks_decode : Decodes ascii chunks (codes "event: msg\ndata: hi\n\n")
chunks_decode = Decodes.chunk refl (Decodes.chunk refl Decodes.nothing)

few_lines : length (split newline (codes "event: msg\ndata: hi\n\n")) < 9
unfolding split
few_lines = omega arith

collect_lem_example :
    collect same no_number ascii 9 new_lines chunks
    ≡ map ok (lines_of same no_number (split newline (codes "event: msg\ndata: hi\n\n")))
collect_lem_example = collect_lem same no_number ascii chunks_decode 9 few_lines

few_written : length (written (codes "hi" ∷ []) (some (codes "msg")) none) + 1 < 9
few_written = omega arith

events-collect_example :
    events default_builder (collect same no_number ascii 9 new_lines chunks)
    ≡ ok (record {
      data_ = join (codes "hi" ∷ []);
      event = some (codes "msg");
      id = none;
      retry = none;
    })
      ∷ []
events-collect_example =
    events-collect same no_number ascii (codes "hi") [] (some (codes "msg")) none (refl, tt) refl tt
      chunks_decode 9 few_written

-- The two bytes of `é` in two chunks are lost.
lost :
    poll_next same no_number {E = Unit} ascii new_lines
      (ok (b'h' ∷ 195 ∷ []) ∷ ok (169 ∷ codes "\n") ∷ [])
    ≡ (none, record { buffer = []; done = true }, [])
unfolding poll_next poll_lines push_bytes new_lines split_once at_end
lost = refl
