-- ===== src/Storage/Epoch.antt =====
-- The time stamps of task rows (`now_iso` and `epoch_secs` of
-- crates/turul-a2a/src/storage/in_memory.rs): the age test of the cleanup reads back what was
-- written.
use turul_a2a.Prelude.{
  ℕ, zero, suc, ◌+◌, ◌-◌, ◌*◌, ◌/◌, ◌%◌, ◌^◌, ◌<◌, ◌≡◌, refl, ◌∙◌, ap, sym, some, List, [], ◌∷◌,
  ◌++◌, arith, ltb, Bool-cases, inl, inr, length, false, ◌==◌, ltb→lt, subst,
}
use mathlib.Core.List.{append_assoc, append-nil}
use turul_a2a.Storage.Clock.{
  digits, pad_zeros, format_padded, now_iso, before_dot, parse_digits, parse_u64, epoch_secs,
}

-- One more digit.
parse-digit :
    (acc d : ℕ) (rest : List ℕ)
    → d < 10
    → acc * 10 + d < 2 ^ 64
    → parse_digits acc ((b'0' + d) ∷ rest) ≡ parse_digits (acc * 10 + d) rest
unfolding parse_digits
parse-digit acc d rest h g = ground (arith, h, g)

parse-digits :
    (fuel n : ℕ) (rest : List ℕ)
    → n < 10 ^ fuel
    → n < 2 ^ 64
    → parse_digits 0 (digits fuel n ++ rest) ≡ parse_digits n rest
unfolding digits
parse-digits zero n rest h g = ap (λ m. parse_digits m rest) (omega (arith, h))
parse-digits (suc fuel) n rest h g = elim (Bool-cases (ltb n 10)) [
  | inl e ↦ rw e (
      parse-digit 0 n rest (omega (arith, ltb→lt n 10 e)) (omega (arith, g))
      ∙ ap (λ m. parse_digits m rest) (omega arith))
  | inr e ↦ rw e (
      ap (parse_digits 0) (append_assoc (digits fuel (n / 10)) _ rest)
      ∙ (parse-digits fuel (n / 10) _ (omega (arith, h)) (omega (arith, g))
          ∙ (parse-digit (n / 10) (n % 10) rest (omega arith) (omega (arith, g))
              ∙ ap (λ m. parse_digits m rest) (omega arith))))
]

parse-zeros : (n : ℕ) (text : List ℕ) → parse_digits 0 (pad_zeros n text) ≡ parse_digits 0 text
unfolding pad_zeros parse_digits
parse-zeros zero text = refl
parse-zeros (suc n) text = ground (arith, parse-zeros n text)

before_dot-digits :
    (fuel n : ℕ) (rest : List ℕ)
    → before_dot (digits fuel n ++ rest) ≡ digits fuel n ++ before_dot rest
unfolding digits before_dot
before_dot-digits zero n rest = refl
before_dot-digits (suc fuel) n rest = elim (Bool-cases (ltb n 10)) [
  | inl e ↦ rw e (ground (arith, ltb→lt n 10 e))
  | inr e ↦ rw e (
      ap before_dot (append_assoc (digits fuel (n / 10)) _ rest)
      ∙ (before_dot-digits fuel (n / 10) _
          ∙ (ap (λ t. digits fuel (n / 10) ++ t) (ground arith)
              ∙ sym (append_assoc (digits fuel (n / 10)) _ (before_dot rest)))))
]

before_dot-zeros :
    (n : ℕ) (text : List ℕ) → before_dot (pad_zeros n text) ≡ pad_zeros n (before_dot text)
unfolding pad_zeros before_dot
before_dot-zeros zero text = refl
before_dot-zeros (suc n) text = ground (arith, before_dot-zeros n text)

pad_zeros-append :
    (n : ℕ) (text rest : List ℕ) → pad_zeros n text ++ rest ≡ pad_zeros n (text ++ rest)
unfolding pad_zeros
pad_zeros-append zero text rest = refl
pad_zeros-append (suc n) text rest = ap (λ t. b'0' ∷ t) (pad_zeros-append n text rest)

-- The text of the seconds ends at the dot.
before_dot-format_padded :
    (width n : ℕ) (rest : List ℕ)
    → before_dot (format_padded width n ++ b'.' ∷ rest) ≡ format_padded width n
unfolding format_padded before_dot
before_dot-format_padded width n rest =
    ap before_dot (pad_zeros-append (width - length (digits 20 n)) (digits 20 n) (b'.' ∷ rest))
    ∙ (before_dot-zeros (width - length (digits 20 n)) _
        ∙ ap (pad_zeros (width - length (digits 20 n)))
            (before_dot-digits 20 n (b'.' ∷ rest) ∙ append-nil (digits 20 n)))

parse_digits-format_padded :
    (width n : ℕ) → n < 2 ^ 64 → parse_digits 0 (format_padded width n) ≡ some n
unfolding format_padded parse_digits
parse_digits-format_padded width n h =
    parse-zeros (width - length (digits 20 n)) (digits 20 n)
    ∙ (ap (parse_digits 0) (sym (append-nil (digits 20 n)))
        ∙ parse-digits 20 n [] (omega (arith, h)) h)

no_sign : (c : ℕ) (text : List ℕ) (n : ℕ) → parse_digits 0 (c ∷ text) ≡ some n → (c == b'+') ≡ false
unfolding parse_digits
no_sign c text n h = ground (arith, h)

-- A text of digits has no sign.
parse_u64-digits :
    (c : ℕ) (text : List ℕ) (n : ℕ)
    → parse_digits 0 (c ∷ text) ≡ some n
    → parse_u64 (c ∷ text) ≡ some n
unfolding parse_u64
parse_u64-digits c [] n h = rw (no_sign c [] n h) h
parse_u64-digits c (d ∷ text) n h = rw (no_sign c (d ∷ text) n h) h

padded-cons :
    (m : ℕ) (text : List ℕ)
    → 0 < m + length text
    → (c : ℕ) × (rest : List ℕ) × (pad_zeros m text ≡ c ∷ rest)
unfolding pad_zeros
padded-cons zero [] h = ground (arith, h)
padded-cons zero (c ∷ text) h = (c, text, refl)
padded-cons (suc m) text h = (b'0', pad_zeros m text, refl)

-- The seconds are read back from a time stamp, as long as they fit in a `u64`.
pub epoch_secs-now_iso :
    (now : ℕ) → now / 1_000_000_000 < 2 ^ 64 → epoch_secs (now_iso now) ≡ some (now / 1_000_000_000)
unfolding epoch_secs now_iso format_padded
epoch_secs-now_iso now h =
    let (c, rest, cons) =
      padded-cons (10 - length (digits 20 (now / 1_000_000_000))) (digits 20 (now / 1_000_000_000))
        (omega arith) in
    let parsed : parse_digits 0 (c ∷ rest) ≡ some (now / 1_000_000_000) =
      subst (λ t. parse_digits 0 t ≡ some (now / 1_000_000_000)) cons
        (parse_digits-format_padded 10 (now / 1_000_000_000) h) in
    ap parse_u64 (before_dot-format_padded 10 (now / 1_000_000_000) _ ∙ cons)
    ∙ parse_u64-digits c rest (now / 1_000_000_000) parsed
