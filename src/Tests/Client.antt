-- ===== src/Tests/Client.antt =====
-- The theorems on the event streams of the client at concrete inputs.
use mathlib.Core.List.{flatten}
use turul_a2a.Prelude.{ℕ, ◌≡◌, refl, none, some, List, [], ◌∷◌, map, Result, ok, arith}
use turul_a2a.Client.{parse_sse_event, sse_events, new_decoder}
use turul_a2a.Client.Chunks.{sse_events-flatten}
use turul_a2a.Client.Blocks.{
  is_line, are_lines, join_lines, render_event, parse_sse_event-render_event,
}

-- A parser that takes every text for a string.
abbrev as_text : List ℕ → Result ℕ (List ℕ)
as_text bytes = ok bytes

-- A line of data and a blank line, with both line ends a CRLF.
abbrev at_once : List (List ℕ)
at_once = (b'd' ∷ b'a' ∷ b't' ∷ b'a' ∷ b':' ∷ b'7' ∷ b'\r' ∷ b'\n' ∷ b'\r' ∷ b'\n' ∷ []) ∷ []

-- The same body, cut inside a word and inside both line ends.
abbrev cut : List (List ℕ)
cut =
    (b'd' ∷ b'a' ∷ [])
    ∷ (b't' ∷ b'a' ∷ b':' ∷ b'7' ∷ b'\r' ∷ [])
    ∷ (b'\n' ∷ b'\r' ∷ [])
    ∷ (b'\n' ∷ [])
    ∷ []

cut_items :
    sse_events (parse_sse_event as_text) (map ok cut) new_decoder
    ≡ ok (record { id = none; «data» = b'7' ∷ [] }) ∷ []
unfolding sse_events parse_sse_event
cut_items = refl

sse_events-flatten_example :
    sse_events (parse_sse_event as_text) (map ok cut) new_decoder
    ≡ sse_events (parse_sse_event as_text) (map ok at_once) new_decoder
unfolding flatten
sse_events-flatten_example = sse_events-flatten (parse_sse_event as_text) cut at_once refl

parse_sse_event-render_event_example :
    parse_sse_event as_text (render_event (b'9' ∷ []) (b'[' ∷ []) ((b']' ∷ []) ∷ []))
    ≡ ok (some (record { id = some (b'9' ∷ []); «data» = b'[' ∷ b'\n' ∷ b']' ∷ [] }))
unfolding is_line are_lines join_lines
parse_sse_event-render_event_example =
    parse_sse_event-render_event as_text (b'9' ∷ []) (b'[' ∷ []) ((b']' ∷ []) ∷ [])
      (b'[' ∷ b'\n' ∷ b']' ∷ []) refl refl refl (λ e. absurd (ground (arith, e))) refl
