-- ===== src/Dict.antt =====
-- `std::collections::HashMap` with the operations that the storage uses. A map is a list of
-- entries in its iteration order, which the program never relies on; `insert` replaces in place.
use turul_a2a.Prelude.{
  ◌≡◌, refl, false, Option, none, some, List, [], ◌∷◌, arith, Eq, beq_refl, if◌then◌else◌, inl, inr,
  Bool-cases, subst,
}

pub record Dict (K V : Type 0) : Type 0 where
  pub entries : List (K × V)

abbrev pub empty : {K V : Type 0} → Dict K V
empty = record { entries = [] }

module _ {K V : Type 0} ⦃e : Eq K⦄ where
  unfoldable pub find : K → List (K × V) → Option V
  find k [] = none
  find k ((j, v) ∷ l) = if e.beq j k then some v else find k l

  unfoldable pub put : K → V → List (K × V) → List (K × V)
  put k v [] = (k, v) ∷ []
  put k v ((j, w) ∷ l) = if e.beq j k then (k, v) ∷ l else (j, w) ∷ put k v l

  unfoldable pub without : K → List (K × V) → List (K × V)
  without k [] = []
  without k ((j, w) ∷ l) = let rest = without k l in if e.beq j k then rest else (j, w) ∷ rest

  -- `map.get(&k)`
  unfoldable pub get : Dict K V → K → Option V
  unfolding find
  get d k = find k d.entries

  -- `map.insert(k, v)`
  unfoldable pub insert : Dict K V → K → V → Dict K V
  unfolding put
  insert d k v = record { entries = put k v d.entries }

  -- `map.remove(&k)`
  unfoldable pub remove : Dict K V → K → Dict K V
  unfolding without
  remove d k = record { entries = without k d.entries }

  find-put_self : (k : K) (v : V) (l : List (K × V)) → find k (put k v l) ≡ some v
  unfolding find put
  find-put_self k v [] = ground (arith, beq_refl k)
  find-put_self k v ((j, w) ∷ l) = ground (arith, beq_refl k, find-put_self k v l)

  find-put_other :
      (k i : K) (v : V) (l : List (K × V)) → e.beq k i ≡ false → find i (put k v l) ≡ find i l
  unfolding find put
  find-put_other k i v [] h = ground arith
  find-put_other k i v ((j, w) ∷ l) h =
      ground (arith, find-put_other k i v l h, e.beq_iff j k, e.beq_iff j i, e.beq_iff k i)

  find-without_self : (k : K) (l : List (K × V)) → find k (without k l) ≡ none
  unfolding find without
  find-without_self k [] = refl
  find-without_self k ((j, w) ∷ l) = ground (arith, find-without_self k l)

  find-without_other :
      (k i : K) (l : List (K × V)) → e.beq k i ≡ false → find i (without k l) ≡ find i l
  unfolding find without
  find-without_other k i [] h = refl
  find-without_other k i ((j, w) ∷ l) h =
      ground (arith, find-without_other k i l h, e.beq_iff j k, e.beq_iff j i, e.beq_iff k i)

  pub get-insert_self : (d : Dict K V) (k : K) (v : V) → get (insert d k v) k ≡ some v
  unfolding get insert
  get-insert_self d k v = find-put_self k v d.entries

  pub get-insert_other :
      (d : Dict K V) (k i : K) (v : V) → e.beq k i ≡ false → get (insert d k v) i ≡ get d i
  unfolding get insert
  get-insert_other d k i v = find-put_other k i v d.entries

  pub get-remove_self : (d : Dict K V) (k : K) → get (remove d k) k ≡ none
  unfolding get remove
  get-remove_self d k = find-without_self k d.entries

  pub get-remove_other : (d : Dict K V) (k i : K) → e.beq k i ≡ false → get (remove d k) i ≡ get d i
  unfolding get remove
  get-remove_other d k i = find-without_other k i d.entries

  -- A read after a write, at every key.
  pub get-insert :
      (d : Dict K V) (k i : K) (v : V)
      → get (insert d k v) i ≡ (if e.beq k i then some v else get d i)
  get-insert d k i v = elim (Bool-cases (e.beq k i)) [
    | inl h ↦
        rw h
          (subst (λ j. get (insert d k v) j ≡ some v) ((e.beq_iff k i).0 h) (get-insert_self d k v))
    | inr h ↦ rw h (get-insert_other d k i v h)
  ]

  -- A read after a removal, at every key.
  pub get-remove :
      (d : Dict K V) (k i : K) → get (remove d k) i ≡ (if e.beq k i then none else get d i)
  get-remove d k i = elim (Bool-cases (e.beq k i)) [
    | inl h ↦
        rw h (subst (λ j. get (remove d k) j ≡ none) ((e.beq_iff k i).0 h) (get-remove_self d k))
    | inr h ↦ rw h (get-remove_other d k i h)
  ]
