-- ===== src/Push/Delivery/Ends.antt =====
-- How the writes of the delivery worker end (crates/turul-a2a/src/push/delivery.rs), and what each
-- leaves of the claim row and of the posts.
use turul_a2a.Prelude.{
  ℕ, ◌+◌, ◌^◌, ◌≡◌, ◌≤◌, ◌<◌, refl, String, Bool, true, false, none, some, List, [], ◌∷◌, Result,
  ok, err, arith, Bool-cases, Option-cases, Result-cases, inl, inr, sym, subst,
}
use turul_a2a.Dict.{get-insert_self}
use turul_a2a.Storage.State.{
  Store, StorageError, PushDeliveryKey, delivery_key, StoredDeliveryClaim,
}
use turul_a2a.Storage.Claims.{
  DeliveryClaim, DeliveryOutcome, record_attempt_started, record_delivery_outcome, fenced_row,
  attempt_row, outcome_row, claim_terminal,
}
use turul_a2a.Storage.ClaimRows.{claim_of, IsAdvanced}
use turul_a2a.Push.Worker.{
  Worker, Target, Delivery, DeliveryReport, StorageCall, Tries, target_key, perform_call,
}
use turul_a2a.Push.Persist.{persist_loop, persist_terminal, success_report, is_stale}

-- The claim row of a key is there, with at least `count` attempts, a `u32`.
pub record IsTracked (s : Store) (k : PushDeliveryKey) (count : ℕ) : Type 0 where
  pub row : StoredDeliveryClaim
  pub there : claim_of s k ≡ some row
  pub reached : count ≤ row.delivery_attempt_count
  pub small : row.delivery_attempt_count < 2 ^ 32

pub advanced-IsTracked :
    (s t : Store) (k : PushDeliveryKey) (count : ℕ) (a : IsTracked s k count)
    → IsAdvanced t k a.row
    → IsTracked t k count
advanced-IsTracked s t k count a b =
    let up = b.advances.attempts_up a.small in
    record { row = b.row; there = b.there; reached = omega (arith, a.reached, up.0); small = up.1 }

-- The claim row of a key is there, in a terminal status.
pub record IsFinal (s : Store) (k : PushDeliveryKey) : Type 0 where
  pub row : StoredDeliveryClaim
  pub there : claim_of s k ≡ some row
  pub final : claim_terminal row.status ≡ true

-- The reports that say that the delivery has ended for everyone.
abbrev pub is_final : DeliveryReport → Bool
is_final (DeliveryReport.succeeded _) = true
is_final (DeliveryReport.gave_up _) = true
is_final (DeliveryReport.abandoned _) = true
is_final _ = false

outcome_row-final :
    (now : ℕ) (o : DeliveryOutcome) (row : StoredDeliveryClaim) (report : DeliveryReport)
    → success_report o ≡ some report
    → claim_terminal (outcome_row now o row).status ≡ true
unfolding success_report outcome_row claim_terminal
outcome_row-final now (DeliveryOutcome.succeeded _) row report h = refl
outcome_row-final now (DeliveryOutcome.gave_up _ _ _ _) row report h = refl
outcome_row-final now (DeliveryOutcome.abandoned _) row report h = refl
outcome_row-final now (DeliveryOutcome.retry _ _ _) row report h = absurd (ground arith)

fenced_row-there :
    (k : PushDeliveryKey) (claimant : String) (generation : ℕ) (s : Store)
    (row : StoredDeliveryClaim)
    → fenced_row k claimant generation s ≡ ok row
    → claim_of s k ≡ some row
unfolding fenced_row
fenced_row-there k claimant generation s row h = ground arith

-- A terminal outcome that the store accepts leaves a terminal row.
outcome-IsFinal :
    (now : ℕ) (k : PushDeliveryKey) (claimant : String) (generation : ℕ) (o : DeliveryOutcome)
    (report : DeliveryReport) (s : Store) (u : Unit {0})
    → success_report o ≡ some report
    → (record_delivery_outcome now k claimant generation o s).0 ≡ ok u
    → IsFinal (record_delivery_outcome now k claimant generation o s).1 k
unfolding record_delivery_outcome
outcome-IsFinal now k claimant generation o report s u h done =
    elim (Result-cases (fenced_row k claimant generation s)) [
      | inl (e, r) ↦ absurd (ground (arith, r))
      | inr (row, r) ↦ elim (Bool-cases (claim_terminal row.status)) [
        | inl over ↦
            rw (r, record_delivery_outcome)
              (rw over (record {
                row = row;
                there = fenced_row-there k claimant generation s row r;
                final = over;
              }))
        | inr going ↦
            rw (r, record_delivery_outcome)
              (rw going (record {
                row = outcome_row now o row;
                there = get-insert_self s.push_delivery_claims k (outcome_row now o row);
                final = outcome_row-final now o row report h;
              }))
      ]
    ]

-- How a terminal write ends: with no new post, and with a final report only where the row is final.
pub record IsEnd (k : PushDeliveryKey) (before : Delivery) (report : DeliveryReport)
    (after : Delivery) : Type 0 where
  pub posts : after.posts ≡ before.posts
  pub final : is_final report ≡ true → IsFinal after.store k

module _ (w : Worker) (t : Target) (c : DeliveryClaim) (o : DeliveryOutcome)
    (report : DeliveryReport) (terminal : success_report o ≡ some report) where
  abbrev written : StorageCall → Delivery → Result StorageError (Unit {0}) × Store
  written call d =
      perform_call w.storage call
        (λ now. record_delivery_outcome now (target_key t) c.claimant c.generation o) d.store

  written-IsFinal :
      (call : StorageCall) (d : Delivery) (u : Unit {0})
      → (written call d).0 ≡ ok u
      → IsFinal (written call d).1 (target_key t)
  unfolding perform_call
  written-IsFinal call d u h = elim (Option-cases call.fault) [
    | inl sound ↦ rw sound (
        outcome-IsFinal call.now (target_key t) c.claimant c.generation o report _ u terminal
          (ground (arith, sound)))
    | inr (e, faulty) ↦ absurd (ground (arith, faulty))
  ]

  persist_accepted :
      (call : StorageCall) (calls : List StorageCall) (d : Delivery) (u : Unit {0})
      → (written call d).0 ≡ ok u
      → persist_loop w t c o report (call ∷ calls) d
        ≡ (report, record d { store = (written call d).1 })
  unfolding persist_loop
  persist_accepted call calls d u h = ground arith

  persist_stale :
      (call : StorageCall) (calls : List StorageCall) (d : Delivery) (e : StorageError)
      → (written call d).0 ≡ err e
      → is_stale e ≡ true
      → persist_loop w t c o report (call ∷ calls) d
        ≡ (DeliveryReport.claim_lost_or_final, record d { store = (written call d).1 })
  unfolding persist_loop
  persist_stale call calls d e h stale = ground arith

  persist_again :
      (call : StorageCall) (calls : List StorageCall) (d : Delivery) (e : StorageError)
      → (written call d).0 ≡ err e
      → is_stale e ≡ false
      → persist_loop w t c o report (call ∷ calls) d
        ≡ persist_loop w t c o report calls (record d { store = (written call d).1 })
  unfolding persist_loop
  persist_again call calls d e h other = ground arith

  persist_loop-IsEnd :
      (calls : List StorageCall) (d : Delivery)
      → let p = persist_loop w t c o report calls d in IsEnd (target_key t) d p.0 p.1
  persist_loop-IsEnd [] d =
      unfold persist_loop in record { posts = refl; final = λ h. absurd (ground arith) }
  persist_loop-IsEnd (call ∷ calls) d =
      let P = λ (p : DeliveryReport × Delivery). IsEnd (target_key t) d p.0 p.1 in
      elim (Result-cases (written call d).0) [
        | inr (u, r) ↦
            subst P (sym (persist_accepted call calls d u r))
              (record { posts = refl; final = λ _. written-IsFinal call d u r })
        | inl (e, r) ↦ elim (Bool-cases (is_stale e)) [
          | inl stale ↦
              subst P (sym (persist_stale call calls d e r stale))
                (record { posts = refl; final = λ h. absurd (ground arith) })
          | inr other ↦
              let rest = persist_loop-IsEnd calls (record d { store = (written call d).1 }) in
              subst P (sym (persist_again call calls d e r other))
                (record { posts = rest.posts; final = rest.final })
        ]
      ]

module _ (w : Worker) (t : Target) (c : DeliveryClaim) (tries : Tries) (o : DeliveryOutcome)
    (d : Delivery) where
  persist_nothing :
      success_report o ≡ none
      → persist_terminal w t c tries o d ≡ (DeliveryReport.transient_store_error, d)
  unfolding persist_terminal
  persist_nothing h = ground arith

  persist_something :
      (report : DeliveryReport)
      → success_report o ≡ some report
      → persist_terminal w t c tries o d
        ≡ persist_loop w t c o report (tries.first ∷ tries.second ∷ tries.third ∷ []) d
  unfolding persist_terminal
  persist_something report h = ground arith

attempt_up :
    (now : ℕ) (row : StoredDeliveryClaim) (count n : ℕ)
    → count ≤ row.delivery_attempt_count
    → count + 1 < 2 ^ 32
    → (attempt_row now row).delivery_attempt_count ≡ n
    → count < n
unfolding attempt_row
attempt_up now row count n h g e = ground arith

attempt_small :
    (now : ℕ) (row : StoredDeliveryClaim) → (attempt_row now row).delivery_attempt_count < 2 ^ 32
unfolding attempt_row
attempt_small now row = ground arith

pub persist_terminal-IsEnd :
    (w : Worker) (t : Target) (c : DeliveryClaim) (tries : Tries) (o : DeliveryOutcome)
    (d : Delivery)
    → let p = persist_terminal w t c tries o d in IsEnd (target_key t) d p.0 p.1
persist_terminal-IsEnd w t c tries o d =
    let P = λ (p : DeliveryReport × Delivery). IsEnd (target_key t) d p.0 p.1 in
    elim (Option-cases (success_report o)) [
      | inl no_report ↦
          subst P (sym (persist_nothing w t c tries o d no_report))
            (record { posts = refl; final = λ h. absurd (ground arith) })
      | inr (report, r) ↦
          subst P (sym (persist_something w t c tries o d report r))
            (persist_loop-IsEnd w t c o report r _ d)
    ]

-- The row after an attempt has started: the count goes up, below the ceiling of a `u32`.
pub attempt-IsTracked :
    (now : ℕ) (k : PushDeliveryKey) (claimant : String) (generation count n : ℕ) (s : Store)
    → IsTracked s k count
    → count + 1 < 2 ^ 32
    → (record_attempt_started now k claimant generation s).0 ≡ ok n
    → (count < n) × IsTracked (record_attempt_started now k claimant generation s).1 k n
unfolding record_attempt_started
attempt-IsTracked now k claimant generation count n s a small h =
    elim (Result-cases (fenced_row k claimant generation s)) [
      | inl (e, r) ↦ absurd (ground (arith, r))
      | inr (row, r) ↦ elim (Bool-cases (claim_terminal row.status)) [
        | inl over ↦ absurd (ground (arith, r))
        | inr going ↦
            let there = fenced_row-there k claimant generation s row r in
            let same : (attempt_row now row).delivery_attempt_count ≡ n = ground (arith, r) in
            rw (r, record_attempt_started)
              (rw going (
                attempt_up now row count n (ground (arith, there, a.there, a.reached)) small same,
                record {
                  row = attempt_row now row;
                  there = get-insert_self s.push_delivery_claims k (attempt_row now row);
                  reached = omega (arith, same);
                  small = attempt_small now row;
                },
              ))
      ]
    ]
