-- ===== src/Storage/Fencing.antt =====
-- Push delivery claims (crates/turul-a2a/src/push/claim.rs, storage/in_memory.rs): a claim is
-- fenced by its generation, and a terminal claim is frozen.
use turul_a2a.Prelude.{
  ℕ, ◌<◌, ◌≡◌, refl, String, some, List, [], ◌∷◌, arith, Option-cases, inl, inr, ok, err,
}
use turul_a2a.Dict.{get-insert_self}
use turul_a2a.Storage.State.{
  Store, PushDeliveryKey, delivery_key, StoredDeliveryClaim, TaskPushNotificationConfig,
}
use turul_a2a.Storage.Clock.{Environment}
use turul_a2a.Storage.Claims.{
  DeliveryClaim, DeliveryOutcome, claim_delivery, record_attempt_started, record_delivery_outcome,
  fenced_row, reclaimed, fresh_claim, put_claim, stale, as_claim,
}
use turul_a2a.Storage.Configs.{try_config, put_config, delete_config}
use turul_a2a.Storage.Events.{append_event}
use turul_a2a.Storage.Claims.{record_pending_dispatch, delete_pending_dispatch}
use turul_a2a.Storage.Requests.{
  Record, perform_record, config_write, write_config, claim, start_attempt, report_outcome,
}
use turul_a2a.Storage.ClaimRows.{
  claim_of, Advances-trans, IsAdvanced, unchanged, claim_delivery-IsAdvanced,
  record_attempt_started-IsAdvanced, record_delivery_outcome-IsAdvanced, elsewhere-IsAdvanced,
}

config_write-claims :
    (tenant : String) (config : TaskPushNotificationConfig) (floor : ℕ) (s : Store)
    → (config_write tenant config floor s).push_delivery_claims ≡ s.push_delivery_claims
unfolding try_config put_config
config_write-claims tenant config floor s = ground arith

perform_record-IsAdvanced :
    (env : Environment) (r : Record) (s : Store) (k : PushDeliveryKey) (old : StoredDeliveryClaim)
    → claim_of s k ≡ some old
    → IsAdvanced (perform_record env r s).store k old
unfolding perform_record delete_config append_event record_pending_dispatch delete_pending_dispatch
perform_record-IsAdvanced env (write_config tenant config floor) s k old h =
    elsewhere-IsAdvanced s k old h _ (config_write-claims tenant config floor s)
perform_record-IsAdvanced env (claim now j claimant owner expiry) s k old h =
    claim_delivery-IsAdvanced s k old h now j claimant owner expiry
perform_record-IsAdvanced env (start_attempt now j claimant generation) s k old h =
    record_attempt_started-IsAdvanced s k old h now j claimant generation
perform_record-IsAdvanced env (report_outcome now j claimant generation o) s k old h =
    record_delivery_outcome-IsAdvanced s k old h now j claimant generation o
perform_record-IsAdvanced env _ s k old h = elsewhere-IsAdvanced s k old h _ refl

-- The store after a sequence of calls that leave the tasks alone.
unfoldable pub serve_records : Environment → List Record → Store → Store
serve_records env [] s = s
serve_records env (r ∷ rs) s = serve_records env rs (perform_record env r s).store

-- Through any sequence of claims, attempts and outcomes by any workers, and of other calls that
-- leave the tasks alone, a claim row stays in the table; its generation never falls, nor does its
-- number of attempts, which stays within a `u32` if it was; its owner never changes, and once it
-- has a terminal status the row does not change at all.
pub claim_row_advances :
    (env : Environment) (rs : List Record) (s : Store) (k : PushDeliveryKey)
    (old : StoredDeliveryClaim)
    → claim_of s k ≡ some old
    → IsAdvanced (serve_records env rs s) k old
unfolding serve_records
claim_row_advances env [] s k old h = unchanged s k old h
claim_row_advances env (r ∷ rs) s k old h =
    let first = perform_record-IsAdvanced env r s k old h in
    let rest = claim_row_advances env rs _ k first.row first.there in
    record {
      row = rest.row;
      there = rest.there;
      advances = Advances-trans old first.row rest.row first.advances rest.advances;
    }

written :
    (s : Store) (k : PushDeliveryKey) (row : StoredDeliveryClaim)
    → claim_of (put_claim k row s) k ≡ some row
written s k row = get-insert_self s.push_delivery_claims k row

-- A successful claim hands out the generation of the row that it writes.
claimed_row :
    (now : ℕ) (k : PushDeliveryKey) (claimant owner : String) (expiry : ℕ) (s : Store)
    (c : DeliveryClaim)
    → (claim_delivery now k claimant owner expiry s).0 ≡ ok c
    → (row : StoredDeliveryClaim) × (claim_of (claim_delivery now k claimant owner expiry s).1 k
        ≡ some row)
      × (row.generation ≡ c.generation)
unfolding claim_delivery as_claim
claimed_row now k claimant owner expiry s c h = elim (Option-cases (claim_of s k)) [
  | inl e ↦ (
    fresh_claim now claimant owner expiry,
    ground (arith, e, written s k (fresh_claim now claimant owner expiry)),
    ground (arith, e),
  )
  | inr (row, e) ↦ (
    reclaimed now claimant expiry row,
    ground (arith, e, written s k (reclaimed now claimant expiry row)),
    ground (arith, e),
  )
]

stale_refused :
    (t : Store) (k : PushDeliveryKey) (row : StoredDeliveryClaim) (other : String) (generation : ℕ)
    → claim_of t k ≡ some row
    → generation < row.generation
    → fenced_row k other generation t ≡ err (stale k)
unfolding fenced_row
stale_refused t k row other generation h lt = ground arith

-- After a worker has claimed a delivery, whatever calls of the claim, config, event and dispatch
-- stores follow (no cleanup), a worker that still holds an earlier generation of that claim is
-- refused: its attempt and its outcome return the stale-claim error and change nothing.
pub earlier_generation_fenced :
    (env : Environment) (now : ℕ) (k : PushDeliveryKey) (claimant owner : String) (expiry : ℕ)
    (s : Store) (c : DeliveryClaim) (rs : List Record) (later : ℕ) (other : String) (generation : ℕ)
    (o : DeliveryOutcome)
    → (claim_delivery now k claimant owner expiry s).0 ≡ ok c
    → generation < c.generation
    → let t = serve_records env rs (claim_delivery now k claimant owner expiry s).1 in
      (record_attempt_started later k other generation t ≡ (err (stale k), t))
      × (record_delivery_outcome later k other generation o t ≡ (err (stale k), t))
unfolding record_attempt_started record_delivery_outcome
earlier_generation_fenced env now k claimant owner expiry s c rs later other generation o h lt =
    let (row, there, same) = claimed_row now k claimant owner expiry s c h in
    let end =
      claim_row_advances env rs (claim_delivery now k claimant owner expiry s).1 k row there in
    let refused =
      stale_refused (serve_records env rs (claim_delivery now k claimant owner expiry s).1) k
        end.row other generation end.there (omega (arith, end.advances.generation_up)) in
    (rw (refused, record_attempt_started) refl, rw (refused, record_delivery_outcome) refl)
