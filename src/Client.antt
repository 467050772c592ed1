-- ===== src/Client.antt =====
-- The event streams of the client (crates/turul-a2a-client/src/sse.rs). Bytes are numbers, and a
-- text is its UTF-8 bytes. The JSON parser is a parameter, and so are the errors of the transport.
pub mod Chunks
pub mod Blocks
use turul_a2a.Prelude.{
  ℕ, zero, suc, Bool, true, false, Option, none, some, List, [], ◌∷◌, ◌++◌, Result, ok, err,
  and_then, leb, ◌==◌, ◌&&◌, if◌then◌else◌, length,
}

-- `SseDecoder`
pub record Decoder : Type 0 where
  pub buf : List ℕ
  pub after_cr : Bool

-- One turn of the loop of `push`: CRLF, LF and a lone CR each end a line.
unfoldable pub push_byte : ℕ → Decoder → Decoder
push_byte b d =
    if (b == b'\n') && d.after_cr
    then record d { after_cr = false }
    else if b == b'\r'
    then record { buf = d.buf ++ b'\n' ∷ []; after_cr = true }
    else record { buf = d.buf ++ b ∷ []; after_cr = false }

-- `SseDecoder::push`
unfoldable pub push : List ℕ → Decoder → Decoder
unfolding push_byte
push [] d = d
push (b ∷ bs) d = push bs (push_byte b d)

abbrev pub before_block : ℕ → Option (List ℕ × List ℕ) → Option (List ℕ × List ℕ)
before_block b none = none
before_block b (some (block, rest)) = some (b ∷ block, rest)

-- `SseDecoder::next_block` on the buffer: what stands before the first blank line, and what follows
-- that line.
unfoldable pub next_block : List ℕ → Option (List ℕ × List ℕ)
next_block [] = none
next_block (b ∷ []) = none
next_block (b ∷ c ∷ bs) =
    let later = next_block (c ∷ bs) in
    if (b == b'\n') && (c == b'\n') then some ([], bs) else before_block b later

-- `SseDecoder::finish`
unfoldable pub finish : List ℕ → List ℕ
finish [] = []
finish (b ∷ bs) = (b ∷ bs) ++ b'\n' ∷ b'\n' ∷ []

-- The blocks that `next_block` gives until there is none, and the buffer that is left.
pub record Drained : Type 0 where
  pub blocks : List (List ℕ)
  pub left : List ℕ

abbrev pub with_block : List ℕ → Drained → Drained
with_block block d = record { blocks = block ∷ d.blocks; left = d.left }

unfoldable pub drain : ℕ → List ℕ → Drained
unfolding next_block
drain zero buf = record { blocks = []; left = buf }
drain (suc fuel) buf = elim (next_block buf) [
  | none ↦ record { blocks = []; left = buf }
  | some (block, rest) ↦ with_block block (drain fuel rest)
]

-- As many turns as there are bytes are enough.
unfoldable pub drain_all : List ℕ → Drained
unfolding drain
drain_all buf = drain (length buf) buf

-- `SseEvent`, with the texts as bytes
pub record SseEvent (Value : Type 0) : Type 0 where
  pub id : Option (List ℕ)
  pub «data» : Value

-- `block.split('\n')`
abbrev pub onto_first : ℕ → List (List ℕ) → List (List ℕ)
onto_first b [] = (b ∷ []) ∷ []
onto_first b (line ∷ lines) = (b ∷ line) ∷ lines

unfoldable pub split_lines : List ℕ → List (List ℕ)
split_lines [] = [] ∷ []
split_lines (b ∷ bs) =
    let lines = split_lines bs in if b == b'\n' then [] ∷ lines else onto_first b lines

-- `line.split_once(':')`, with the line and no value when there is no colon
unfoldable pub split_field : List ℕ → List ℕ × List ℕ
split_field [] = ([], [])
split_field (b ∷ bs) =
    let later = split_field bs in if b == b':' then ([], bs) else (b ∷ later.0, later.1)

-- `value.strip_prefix(' ').unwrap_or(value)`
unfoldable pub strip_space : List ℕ → List ℕ
strip_space [] = []
strip_space (b ∷ bs) = if b == b' ' then bs else b ∷ bs

abbrev pub same_bytes : List ℕ → List ℕ → Bool
same_bytes [] [] = true
same_bytes [] (c ∷ cs) = false
same_bytes (b ∷ bs) [] = false
same_bytes (b ∷ bs) (c ∷ cs) = (b == c) && same_bytes bs cs

-- The two variables of `parse_sse_event`.
pub record Fields : Type 0 where
  pub id : Option (List ℕ)
  pub «data» : Option (List ℕ)

abbrev pub data_line : List ℕ → Option (List ℕ) → List ℕ
data_line value none = value
data_line value (some d) = d ++ b'\n' ∷ value

abbrev pub is_skipped : List ℕ → Bool
is_skipped [] = true
is_skipped (b ∷ bs) = b == b':'

abbrev pub name_data : List ℕ
name_data = b'd' ∷ b'a' ∷ b't' ∷ b'a' ∷ []

abbrev pub name_id : List ℕ
name_id = b'i' ∷ b'd' ∷ []

-- The body of the loop of `parse_sse_event`.
unfoldable pub parse_line : List ℕ → Fields → Fields
unfolding split_field strip_space
parse_line line fields =
    let field = (split_field line).0 in
    let value = strip_space (split_field line).1 in
    if is_skipped line
    then fields
    else if same_bytes field name_data
    then record fields { «data» = some (data_line value fields.«data») }
    else if same_bytes field name_id
    then record fields { id = some value }
    else fields

unfoldable pub parse_lines : List (List ℕ) → Fields → Fields
unfolding parse_line
parse_lines [] fields = fields
parse_lines (line ∷ lines) fields = parse_lines lines (parse_line line fields)

-- What `parse_sse_event` makes of a block: `from_str` is `serde_json::from_str`.
abbrev pub event_of :
    {Value Error : Type 0}
    → (List ℕ → Result Error Value)
    → Fields
    → Result Error (Option (SseEvent Value))
event_of from_str fields = elim fields.«data» [
  | none ↦ ok none
  | some [] ↦ ok none
  | some (b ∷ bs) ↦
      and_then (from_str (b ∷ bs)) (λ v. ok (some (record { id = fields.id; «data» = v })))
]

-- `parse_sse_event`
unfoldable pub parse_sse_event :
    {Value Error : Type 0}
    → (List ℕ → Result Error Value)
    → List ℕ
    → Result Error (Option (SseEvent Value))
unfolding split_lines parse_lines
parse_sse_event from_str block =
    event_of from_str (parse_lines (split_lines block) (record { id = none; «data» = none }))

-- The items of `sse_events` that complete blocks give: an event, or the error of its data.
abbrev pub item_of :
    {A Error : Type 0} → Result Error (Option A) → List (Result Error A) → List (Result Error A)
item_of (ok none) items = items
item_of (ok (some event)) items = ok event ∷ items
item_of (err e) items = err e ∷ items

unfoldable pub items_of :
    {A Error : Type 0} → (List ℕ → Result Error (Option A)) → List (List ℕ) → List (Result Error A)
items_of parse [] = []
items_of parse (block ∷ blocks) = item_of (parse block) (items_of parse blocks)

-- `sse_events`: the stream of the events that a body's chunks give, with a transport error in its
-- place. `parse` is `String::from_utf8_lossy` followed by `parse_sse_event`.
unfoldable pub sse_events :
    {A Error : Type 0}
    → (List ℕ → Result Error (Option A))
    → List (Result Error (List ℕ))
    → Decoder
    → List (Result Error A)
unfolding items_of drain_all push finish
sse_events parse [] d =
    let drained = drain_all d.buf in
    items_of parse drained.blocks ++ items_of parse (drain_all (finish drained.left)).blocks
sse_events parse (ok chunk ∷ bytes) d =
    let drained = drain_all d.buf in
    items_of parse drained.blocks
    ++ sse_events parse bytes (push chunk (record d { buf = drained.left }))
sse_events parse (err e ∷ bytes) d =
    let drained = drain_all d.buf in
    items_of parse drained.blocks
    ++ err e ∷ sse_events parse bytes (record d { buf = drained.left })

-- `SseDecoder::default`
abbrev pub new_decoder : Decoder
new_decoder = record { buf = []; after_cr = false }
