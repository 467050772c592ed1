-- ===== src/Client/Chunks.antt =====
-- The events of a stream do not depend on how its bytes come in chunks
-- (crates/turul-a2a-client/src/sse.rs).
use mathlib.Core.List.{flatten, append_assoc, append-nil}
use turul_a2a.Prelude.{
  ℕ, zero, suc, ◌+◌, ◌≡◌, ◌≤◌, refl, sym, ap, ◌∙◌, Option, none, some, List, [], ◌∷◌, ◌++◌, map,
  Result, ok, err, ◌==◌, ◌&&◌, arith, length, Option-cases, Bool-cases, inl, inr,
}
use turul_a2a.Client.{
  Decoder, push_byte, push, next_block, finish, Drained, with_block, drain, drain_all, item_of,
  items_of, sse_events, new_decoder,
}

-- A block that is complete stays so, whatever follows.
next_block-append :
    (buf more block rest : List ℕ)
    → next_block buf ≡ some (block, rest)
    → next_block (buf ++ more) ≡ some (block, rest ++ more)
unfolding next_block
next_block-append [] more block rest h = absurd (ground arith)
next_block-append (b ∷ []) more block rest h = absurd (ground arith)
next_block-append (b ∷ c ∷ bs) more block rest h =
    elim (Bool-cases ((b == b'\n') && (c == b'\n'))) [
      | inl blank ↦ ground (arith, blank)
      | inr text ↦ elim (Option-cases (next_block (c ∷ bs))) [
        | inl none_later ↦ absurd (ground (arith, text, none_later))
        | inr ((block', rest'), e) ↦
            ground (arith, text, e, next_block-append (c ∷ bs) more block' rest' e)
      ]
    ]

next_block-shorter :
    (buf block rest : List ℕ) → next_block buf ≡ some (block, rest) → length rest + 2 ≤ length buf
unfolding next_block
next_block-shorter [] block rest h = absurd (ground arith)
next_block-shorter (b ∷ []) block rest h = absurd (ground arith)
next_block-shorter (b ∷ c ∷ bs) block rest h = elim (Bool-cases ((b == b'\n') && (c == b'\n'))) [
  | inl blank ↦ ground (arith, blank)
  | inr text ↦ elim (Option-cases (next_block (c ∷ bs))) [
    | inl none_later ↦ absurd (ground (arith, text, none_later))
    | inr ((block', rest'), e) ↦ ground (arith, text, e, next_block-shorter (c ∷ bs) block' rest' e)
  ]
]

drain_step :
    (fuel : ℕ) (buf block rest : List ℕ)
    → next_block buf ≡ some (block, rest)
    → drain (suc fuel) buf ≡ with_block block (drain fuel rest)
unfolding drain
drain_step fuel buf block rest h = rw (h, drain) refl

drain_stuck :
    (fuel : ℕ) (buf : List ℕ)
    → next_block buf ≡ none
    → drain fuel buf ≡ record { blocks = []; left = buf }
unfolding drain
drain_stuck zero buf h = refl
drain_stuck (suc fuel) buf h = rw (h, drain) refl

-- Any fuel that covers the buffer gives the same.
drain-enough :
    (n m : ℕ) (buf : List ℕ) → length buf ≤ n → length buf ≤ m → drain n buf ≡ drain m buf
unfolding drain
drain-enough zero m [] h g = sym (drain_stuck m [] (unfold next_block in refl))
drain-enough zero m (b ∷ bs) h g = absurd (omega (arith, h))
drain-enough (suc n) zero [] h g = drain_stuck (suc n) [] (unfold next_block in refl)
drain-enough (suc n) zero (b ∷ bs) h g = absurd (omega (arith, g))
drain-enough (suc n) (suc m) buf h g = elim (Option-cases (next_block buf)) [
  | inl stuck ↦ drain_stuck (suc n) buf stuck ∙ sym (drain_stuck (suc m) buf stuck)
  | inr ((block, rest), e) ↦
      drain_step n buf block rest e
      ∙ ap (with_block block) (
          drain-enough n m rest (omega (arith, next_block-shorter buf block rest e, h))
            (omega (arith, next_block-shorter buf block rest e, g)))
      ∙ sym (drain_step m buf block rest e)
]

drain_all_step :
    (buf block rest : List ℕ)
    → next_block buf ≡ some (block, rest)
    → drain_all buf ≡ with_block block (drain_all rest)
unfolding drain_all
drain_all_step buf block rest e =
    drain-enough (length buf) (suc (length buf)) buf (omega arith) (omega arith)
    ∙ drain_step (length buf) buf block rest e
    ∙ ap (with_block block) (
        drain-enough (length buf) (length rest) rest
          (omega (arith, next_block-shorter buf block rest e)) (omega arith))

-- What is left has no complete block.
drain-left : (n : ℕ) (buf : List ℕ) → length buf ≤ n → next_block (drain n buf).left ≡ none
drain-left zero [] h = unfold next_block drain in refl
drain-left zero (b ∷ bs) h = absurd (omega (arith, h))
drain-left (suc n) buf h = elim (Option-cases (next_block buf)) [
  | inl stuck ↦ ap (λ (d : Drained). next_block d.left) (drain_stuck (suc n) buf stuck) ∙ stuck
  | inr ((block, rest), e) ↦
      ap (λ (d : Drained). next_block d.left) (drain_step n buf block rest e)
      ∙ drain-left n rest (omega (arith, h, next_block-shorter buf block rest e))
]

-- Draining a buffer, and then what is left with what follows, is draining it all.
abbrev then : Drained → Drained → Drained
then d e = record { blocks = d.blocks ++ e.blocks; left = e.left }

drain-append :
    (n : ℕ) (buf more : List ℕ)
    → length buf ≤ n
    → drain_all (buf ++ more) ≡ then (drain n buf) (drain_all ((drain n buf).left ++ more))
drain-append zero [] more h = unfold drain in refl
drain-append zero (b ∷ bs) more h = absurd (omega (arith, h))
drain-append (suc n) buf more h = elim (Option-cases (next_block buf)) [
  | inl stuck ↦ ap (λ d. then d (drain_all (d.left ++ more))) (sym (drain_stuck (suc n) buf stuck))
  | inr ((block, rest), e) ↦
      drain_all_step (buf ++ more) block (rest ++ more) (next_block-append buf more block rest e)
      ∙ ap (with_block block)
          (drain-append n rest more (omega (arith, h, next_block-shorter buf block rest e)))
      ∙ ap (λ d. then d (drain_all (d.left ++ more))) (sym (drain_step n buf block rest e))
]

-- What stands in the buffer is not looked at by `push`.
abbrev after : List ℕ → Decoder → Decoder
after x d = record d { buf = x ++ d.buf }

push_byte-after :
    (b : ℕ) (x : List ℕ) (d : Decoder) → push_byte b (after x d) ≡ after x (push_byte b d)
unfolding push_byte
push_byte-after b x d = elim (Bool-cases ((b == b'\n') && d.after_cr)) [
  | inl skipped ↦ rw (skipped) refl
  | inr kept ↦ elim (Bool-cases (b == b'\r')) [
    | inl cr ↦ rw (kept, cr, append_assoc x d.buf (b'\n' ∷ [])) refl
    | inr other ↦ rw (kept, other, append_assoc x d.buf (b ∷ [])) refl
  ]
]

push-after : (bs x : List ℕ) (d : Decoder) → push bs (after x d) ≡ after x (push bs d)
unfolding push
push-after [] x d = refl
push-after (b ∷ bs) x d = ap (push bs) (push_byte-after b x d) ∙ push-after bs x (push_byte b d)

-- The bytes that `push` adds to a buffer
abbrev added : List ℕ → Decoder → List ℕ
added bs d = (push bs (record d { buf = [] })).buf

push-buf : (bs : List ℕ) (d : Decoder) → (push bs d).buf ≡ d.buf ++ added bs d
push-buf bs d =
    ap (λ x. (push bs (record d { buf = x })).buf) (sym (append-nil d.buf))
    ∙ ap (λ (e : Decoder). e.buf) (push-after bs d.buf (record d { buf = [] }))

push-append : (bs cs : List ℕ) (d : Decoder) → push (bs ++ cs) d ≡ push cs (push bs d)
unfolding push
push-append [] cs d = refl
push-append (b ∷ bs) cs d = push-append bs cs (push_byte b d)

module _ {A Error : Type 0} (parse : List ℕ → Result Error (Option A)) where
  item_of-append :
      (r : Result Error (Option A)) (xs ys : List (Result Error A))
      → item_of r (xs ++ ys) ≡ item_of r xs ++ ys
  item_of-append (ok none) xs ys = refl
  item_of-append (ok (some a)) xs ys = refl
  item_of-append (err e) xs ys = refl

  items_of-append :
      (xs ys : List (List ℕ)) → items_of parse (xs ++ ys) ≡ items_of parse xs ++ items_of parse ys
  unfolding items_of
  items_of-append [] ys = refl
  items_of-append (x ∷ xs) ys =
      ap (item_of (parse x)) (items_of-append xs ys)
      ∙ item_of-append (parse x) (items_of parse xs) (items_of parse ys)

  -- The items of a buffer that holds the whole body.
  abbrev items : List ℕ → List (Result Error A)
  items buf =
      items_of parse (drain_all buf).blocks
      ++ items_of parse (drain_all (finish (drain_all buf).left)).blocks

  items-drained :
      (buf more : List ℕ)
      → items_of parse (drain_all buf).blocks ++ items ((drain_all buf).left ++ more)
        ≡ items (buf ++ more)
  unfolding drain_all
  items-drained buf more =
      sym (
        append_assoc (items_of parse (drain_all buf).blocks)
          (items_of parse (drain_all ((drain_all buf).left ++ more)).blocks)
          (items_of parse
            (drain_all (finish (drain_all ((drain_all buf).left ++ more)).left)).blocks))
      ∙ ap
          (λ l.
            l
            ++ items_of parse
                (drain_all (finish (drain_all ((drain_all buf).left ++ more)).left)).blocks)
          (sym (
            items_of-append (drain_all buf).blocks
              (drain_all ((drain_all buf).left ++ more)).blocks))
      ∙ ap (λ d. items_of parse d.blocks ++ items_of parse (drain_all (finish d.left)).blocks)
          (sym (drain-append (length buf) buf more (omega arith)))

  sse_events-items :
      (chunks : List (List ℕ)) (d : Decoder)
      → sse_events parse (map ok chunks) d ≡ items (push (flatten chunks) d).buf
  unfolding sse_events flatten
  sse_events-items [] d = refl
  sse_events-items (c ∷ chunks) d =
      ap (λ l. items_of parse (drain_all d.buf).blocks ++ l)
        (sse_events-items chunks (push c (record d { buf = (drain_all d.buf).left })))
      ∙ ap (λ e. items_of parse (drain_all d.buf).blocks ++ items e.buf)
          (sym (push-append c (flatten chunks) (record d { buf = (drain_all d.buf).left })))
      ∙ ap (λ l. items_of parse (drain_all d.buf).blocks ++ items l)
          (push-buf (c ++ flatten chunks) (record d { buf = (drain_all d.buf).left }))
      ∙ items-drained d.buf (added (c ++ flatten chunks) d)
      ∙ ap items (sym (push-buf (c ++ flatten chunks) d))

  -- The events of a body, with the errors of their data, do not depend on how the body comes in
  -- chunks: two series of chunks that concatenate to the same bytes give the same items.
  pub sse_events-flatten :
      (xs ys : List (List ℕ))
      → flatten xs ≡ flatten ys
      → sse_events parse (map ok xs) new_decoder ≡ sse_events parse (map ok ys) new_decoder
  sse_events-flatten xs ys same =
      sse_events-items xs new_decoder
      ∙ ap (λ bytes. items (push bytes new_decoder).buf) same
      ∙ sym (sse_events-items ys new_decoder)
