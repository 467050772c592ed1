-- ===== src/Prelude/Order.antt =====
-- The order of texts by code points, which is `str`'s order on UTF-8 bytes, and Rust's stable
-- `sort_by`.
use Prim.Native.Nat.{Ordering}
use Prim.Native.String.{String, compare}
use mathlib.Core.Bool.{Bool, true, false}
use mathlib.Core.List.{List, [], ◌∷◌}
use turul_a2a.Prelude.Tests.{if◌then◌else◌}

-- `s < t`
unfoldable pub str_lt : String → String → Bool
str_lt s t = elim (compare s t) [ Ordering.lt ↦ true | _ ↦ false ]

-- `s <= t`
unfoldable pub str_le : String → String → Bool
str_le s t = elim (compare s t) [ Ordering.gt ↦ false | _ ↦ true ]

module _ {ℓ} {A : Type ℓ} where
  -- `x` before the first element that it is not above.
  unfoldable pub place : (A → A → Bool) → A → List A → List A
  place le x [] = x ∷ []
  place le x (y ∷ ys) = let rest = place le x ys in if le x y then x ∷ y ∷ ys else y ∷ rest

  -- A stable sort by `le`; every stable sort gives this list.
  unfoldable pub sort_by : (A → A → Bool) → List A → List A
  unfolding place
  sort_by le [] = []
  sort_by le (x ∷ xs) = place le x (sort_by le xs)

  -- The list from its first element that passes the test: what follows `position(test)`, or nothing.
  unfoldable pub from_first : (A → Bool) → List A → List A
  from_first test [] = []
  from_first test (x ∷ xs) = let rest = from_first test xs in if test x then x ∷ xs else rest
