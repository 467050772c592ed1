-- ===== src/Client/Blocks.antt =====
-- A block that is written field by field is read back (crates/turul-a2a-client/src/sse.rs).
use mathlib.Core.List.{append_assoc}
use turul_a2a.Prelude.{
  ℕ, ◌≡◌, ◌≢◌, refl, ap, ◌∙◌, Bool, true, not, Option, none, some, List, [], ◌∷◌, ◌++◌, map, Result,
  ok, ◌==◌, ◌&&◌, arith, Bool-cases, inl, inr,
}
use turul_a2a.Client.{
  split_lines, split_field, strip_space, Fields, data_line, name_data, name_id, parse_line,
  parse_lines, event_of, parse_sse_event,
}

-- A line: no byte of it ends a line.
unfoldable pub is_line : List ℕ → Bool
is_line [] = true
is_line (b ∷ bs) = not (b == b'\n') && is_line bs

unfoldable pub are_lines : List (List ℕ) → Bool
unfolding is_line
are_lines [] = true
are_lines (line ∷ lines) = is_line line && are_lines lines

-- Lines, with a line feed between them.
unfoldable pub join_lines : List ℕ → List (List ℕ) → List ℕ
join_lines line [] = line
join_lines line (next ∷ lines) = line ++ b'\n' ∷ join_lines next lines

abbrev pub render_field : List ℕ → List ℕ → List ℕ
render_field name value = name ++ b':' ∷ b' ' ∷ value

-- The block of an event: its id, and a `data:` line for every line of its data.
unfoldable pub render_event : List ℕ → List ℕ → List (List ℕ) → List ℕ
unfolding join_lines
render_event id line lines =
    join_lines (render_field name_id id)
      (render_field name_data line ∷ map (render_field name_data) lines)

split_lines-line : (l : List ℕ) → is_line l ≡ true → split_lines l ≡ l ∷ []
unfolding split_lines is_line
split_lines-line [] h = refl
split_lines-line (b ∷ bs) h = elim (Bool-cases (b == b'\n')) [
  | inl newline ↦ absurd (ground (arith, newline, h))
  | inr other ↦ rw (other, split_lines-line bs (ground (arith, other, h))) refl
]

split_lines-append :
    (l rest : List ℕ) → is_line l ≡ true → split_lines (l ++ b'\n' ∷ rest) ≡ l ∷ split_lines rest
unfolding split_lines is_line
split_lines-append [] rest h = refl
split_lines-append (b ∷ bs) rest h = elim (Bool-cases (b == b'\n')) [
  | inl newline ↦ absurd (ground (arith, newline, h))
  | inr other ↦ rw (other, split_lines-append bs rest (ground (arith, other, h))) refl
]

split_lines-join_lines :
    (l : List ℕ) (ls : List (List ℕ))
    → is_line l ≡ true
    → are_lines ls ≡ true
    → split_lines (join_lines l ls) ≡ l ∷ ls
unfolding join_lines are_lines
split_lines-join_lines l [] h hs = split_lines-line l h
split_lines-join_lines l (m ∷ ls) h hs =
    split_lines-append l (join_lines m ls) h
    ∙ ap (λ t. l ∷ t) (split_lines-join_lines m ls (ground (arith, hs)) (ground (arith, hs)))

are_lines-map :
    (ls : List (List ℕ)) → are_lines ls ≡ true → are_lines (map (render_field name_data) ls) ≡ true
unfolding are_lines is_line
are_lines-map [] h = refl
are_lines-map (l ∷ ls) h = ground (arith, h, are_lines-map ls (ground (arith, h)))

parse_line-data :
    (value : List ℕ) (fields : Fields)
    → parse_line (render_field name_data value) fields
      ≡ record fields { «data» = some (data_line value fields.«data») }
unfolding parse_line split_field strip_space
parse_line-data value fields = refl

parse_line-id :
    (value : List ℕ) (fields : Fields)
    → parse_line (render_field name_id value) fields ≡ record fields { id = some value }
unfolding parse_line split_field strip_space
parse_line-id value fields = refl

join_lines-append :
    (d l : List ℕ) (ls : List (List ℕ))
    → join_lines (d ++ b'\n' ∷ l) ls ≡ d ++ b'\n' ∷ join_lines l ls
unfolding join_lines
join_lines-append d l [] = refl
join_lines-append d l (m ∷ ls) = append_assoc d (b'\n' ∷ l) (b'\n' ∷ join_lines m ls)

parse_lines-data :
    (ls : List (List ℕ)) (id : Option (List ℕ)) (d : List ℕ)
    → parse_lines (map (render_field name_data) ls) (record { id = id; «data» = some d })
      ≡ record { id = id; «data» = some (join_lines d ls) }
unfolding parse_lines join_lines
parse_lines-data [] id d = refl
parse_lines-data (l ∷ ls) id d =
    ap (parse_lines (map (render_field name_data) ls))
      (parse_line-data l (record { id = id; «data» = some d }))
    ∙ parse_lines-data ls id (d ++ b'\n' ∷ l)
    ∙ ap (λ t. record { id = id; «data» = some t }) (join_lines-append d l ls)

event_of-some :
    {Value Error : Type 0} (from_str : List ℕ → Result Error Value) (id : Option (List ℕ))
    (d : List ℕ) (value : Value)
    → d ≢ []
    → from_str d ≡ ok value
    → event_of from_str (record { id = id; «data» = some d })
      ≡ ok (some (record { id = id; «data» = value }))
event_of-some from_str id [] value nonempty parsed = absurd (nonempty refl)
event_of-some from_str id (b ∷ bs) value nonempty parsed = rw (parsed) refl

-- A block with the id of an event and a `data:` line for every line of its data, none of them with
-- a line end inside, is parsed into that id and the value of the lines joined with line feeds, when
-- they are not all together empty and the JSON parser accepts them.
pub parse_sse_event-render_event :
    {Value Error : Type 0} (from_str : List ℕ → Result Error Value) (id line : List ℕ)
    (lines : List (List ℕ)) (value : Value)
    → is_line id ≡ true
    → is_line line ≡ true
    → are_lines lines ≡ true
    → join_lines line lines ≢ []
    → from_str (join_lines line lines) ≡ ok value
    → parse_sse_event from_str (render_event id line lines)
      ≡ ok (some (record { id = some id; «data» = value }))
unfolding parse_sse_event render_event parse_lines
parse_sse_event-render_event from_str id line lines value id_line one all nonempty parsed =
    ap (λ ls. event_of from_str (parse_lines ls (record { id = none; «data» = none })))
      (split_lines-join_lines (render_field name_id id)
        (render_field name_data line ∷ map (render_field name_data) lines)
        (unfold is_line in id_line)
        (unfold is_line are_lines in ground (arith, one, are_lines-map lines all)))
    ∙ ap (event_of from_str) (parse_lines-data lines (some id) line)
    ∙ event_of-some from_str (some id) (join_lines line lines) value nonempty parsed
