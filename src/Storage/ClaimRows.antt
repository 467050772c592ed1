-- ===== src/Storage/ClaimRows.antt =====
-- How each call of the claim store changes a row (crates/turul-a2a/src/storage/in_memory.rs).
use turul_a2a.Prelude.{
  ℕ, ◌^◌, ◌≤◌, ◌<◌, ◌≡◌, refl, String, true, false, Option, none, some, arith, Bool-cases,
  Option-cases, inl, inr, ◌∙◌, ok, subst, ltb, ◌||◌, str_eq_iff, Result-cases,
}
use turul_a2a.Dict.{get, get-insert}
use turul_a2a.Storage.State.{
  Store, PushDeliveryKey, delivery_key, delivery_key_eq, delivery_key_eq_iff, StoredDeliveryClaim,
}
use turul_a2a.Storage.Claims.{
  DeliveryOutcome, claim_delivery, record_attempt_started, record_delivery_outcome, fenced_row,
  attempt_row, outcome_row, reclaimed, claim_terminal, put_claim,
}

abbrev pub claim_of : Store → PushDeliveryKey → Option StoredDeliveryClaim
claim_of s k = get s.push_delivery_claims k

-- How a row of the claim table may change: a terminal row not at all, the generation and the
-- attempts only upwards, the attempts within a `u32`, the owner never.
pub record Advances (old new : StoredDeliveryClaim) : Type 0 where
  pub frozen : claim_terminal old.status ≡ true → new ≡ old
  pub generation_up : old.generation ≤ new.generation
  pub attempts_up :
      old.delivery_attempt_count < 2 ^ 32
      → (old.delivery_attempt_count ≤ new.delivery_attempt_count)
        × (new.delivery_attempt_count < 2 ^ 32)
  pub same_owner : new.owner ≡ old.owner

Advances-refl : (row : StoredDeliveryClaim) → Advances row row
Advances-refl row = record {
  frozen = λ _. refl;
  generation_up = omega arith;
  attempts_up = λ h. (omega arith, h);
  same_owner = refl;
}

pub Advances-trans : (a b c : StoredDeliveryClaim) → Advances a b → Advances b c → Advances a c
Advances-trans a b c f g = record {
  frozen = λ h. ground (arith, f.frozen h, g.frozen);
  generation_up = omega (arith, f.generation_up, g.generation_up);
  attempts_up = λ h.
      let first = f.attempts_up h in
      let second = g.attempts_up first.1 in (omega (arith, first.0, second.0), second.1);
  same_owner = g.same_owner ∙ f.same_owner;
}

-- The row of a key in a later store.
pub record IsAdvanced (t : Store) (k : PushDeliveryKey) (old : StoredDeliveryClaim) : Type 0 where
  pub row : StoredDeliveryClaim
  pub there : claim_of t k ≡ some row
  pub advances : Advances old row

put_claim-IsAdvanced :
    (s : Store) (k j : PushDeliveryKey) (old before after : StoredDeliveryClaim)
    → claim_of s k ≡ some old
    → claim_of s j ≡ some before
    → Advances before after
    → IsAdvanced (put_claim j after s) k old
put_claim-IsAdvanced s k j old before after h g a = elim (Bool-cases (delivery_key_eq j k)) [
  | inl e ↦
      let same = (delivery_key_eq_iff j k).0 e in
      let there : claim_of (put_claim j after s) k ≡ some after =
        get-insert s.push_delivery_claims j k after ∙ ground arith in
      let was : before ≡ old = ground arith in
      record { row = after; there = there; advances = subst (λ b. Advances b after) was a }
  | inr e ↦ record {
    row = old;
    there = get-insert s.push_delivery_claims j k after ∙ ground arith;
    advances = Advances-refl old;
  }
]

put_claim_new :
    (s : Store) (k j : PushDeliveryKey) (old after : StoredDeliveryClaim)
    → claim_of s k ≡ some old
    → claim_of s j ≡ none
    → IsAdvanced (put_claim j after s) k old
put_claim_new s k j old after h g = record {
  row = old;
  there = get-insert s.push_delivery_claims j k after ∙ ground (arith, delivery_key_eq_iff j k);
  advances = Advances-refl old;
}

reclaimed-Advances :
    (now : ℕ) (claimant : String) (expiry : ℕ) (row : StoredDeliveryClaim)
    → claim_terminal row.status ≡ false
    → Advances row (reclaimed now claimant expiry row)
unfolding reclaimed
reclaimed-Advances now claimant expiry row h = record {
  frozen = λ e. ground arith;
  generation_up = omega arith;
  attempts_up = λ e. (omega arith, e);
  same_owner = refl;
}

attempt_row-Advances :
    (now : ℕ) (row : StoredDeliveryClaim)
    → claim_terminal row.status ≡ false
    → Advances row (attempt_row now row)
unfolding attempt_row
attempt_row-Advances now row h = record {
  frozen = λ e. ground arith;
  generation_up = omega arith;
  attempts_up = λ e. (omega arith, omega arith);
  same_owner = refl;
}

outcome_row-Advances :
    (now : ℕ) (o : DeliveryOutcome) (row : StoredDeliveryClaim)
    → claim_terminal row.status ≡ false
    → Advances row (outcome_row now o row)
unfolding outcome_row
outcome_row-Advances now o row h = record {
  frozen = λ e. ground arith;
  generation_up = ground arith;
  attempts_up = λ e. ground arith;
  same_owner = ground arith;
}

fenced_row-there :
    (k : PushDeliveryKey) (claimant : String) (generation : ℕ) (s : Store)
    (row : StoredDeliveryClaim)
    → fenced_row k claimant generation s ≡ ok row
    → (claim_of s k ≡ some row) × (row.claimant ≡ claimant) × (row.generation ≡ generation)
unfolding fenced_row
fenced_row-there k claimant generation s row h = ground (arith, str_eq_iff row.claimant claimant)

module _ (s : Store) (k : PushDeliveryKey) (old : StoredDeliveryClaim)
    (here : claim_of s k ≡ some old) where
  pub unchanged : IsAdvanced s k old
  unchanged = record { row = old; there = here; advances = Advances-refl old }

  pub claim_delivery-IsAdvanced :
      (now : ℕ) (j : PushDeliveryKey) (claimant owner : String) (expiry : ℕ)
      → IsAdvanced (claim_delivery now j claimant owner expiry s).1 k old
  unfolding claim_delivery
  claim_delivery-IsAdvanced now j claimant owner expiry = elim (Option-cases (claim_of s j)) [
    | inl e ↦ rw (e, claim_delivery) (put_claim_new s k j old _ here e)
    | inr (row, e) ↦
        rw (e, claim_delivery)
          (elim (Bool-cases (claim_terminal row.status || ltb now row.expires_at)) [
            | inl b ↦ rw b unchanged
            | inr b ↦ rw b (
                put_claim-IsAdvanced s k j old row _ here e
                  (reclaimed-Advances now claimant expiry row (ground arith)))
          ])
  ]

  pub record_attempt_started-IsAdvanced :
      (now : ℕ) (j : PushDeliveryKey) (claimant : String) (generation : ℕ)
      → IsAdvanced (record_attempt_started now j claimant generation s).1 k old
  unfolding record_attempt_started
  record_attempt_started-IsAdvanced now j claimant generation =
      elim (Result-cases (fenced_row j claimant generation s)) [
        | inl (e, r) ↦ rw (r, record_attempt_started) unchanged
        | inr (row, r) ↦
            rw (r, record_attempt_started)
              (elim (Bool-cases (claim_terminal row.status)) [
                | inl b ↦ rw b unchanged
                | inr b ↦ rw b (
                    put_claim-IsAdvanced s k j old row _ here
                      (fenced_row-there j claimant generation s row r).0
                      (attempt_row-Advances now row b))
              ])
      ]

  pub record_delivery_outcome-IsAdvanced :
      (now : ℕ) (j : PushDeliveryKey) (claimant : String) (generation : ℕ) (o : DeliveryOutcome)
      → IsAdvanced (record_delivery_outcome now j claimant generation o s).1 k old
  unfolding record_delivery_outcome
  record_delivery_outcome-IsAdvanced now j claimant generation o =
      elim (Result-cases (fenced_row j claimant generation s)) [
        | inl (e, r) ↦ rw (r, record_delivery_outcome) unchanged
        | inr (row, r) ↦
            rw (r, record_delivery_outcome)
              (elim (Bool-cases (claim_terminal row.status)) [
                | inl b ↦ rw b unchanged
                | inr b ↦ rw b (
                    put_claim-IsAdvanced s k j old row _ here
                      (fenced_row-there j claimant generation s row r).0
                      (outcome_row-Advances now o row b))
              ])
      ]

  pub elsewhere-IsAdvanced :
      (t : Store) → t.push_delivery_claims ≡ s.push_delivery_claims → IsAdvanced t k old
  elsewhere-IsAdvanced t e = record {
    row = old;
    there = ground (arith, here);
    advances = Advances-refl old;
  }
