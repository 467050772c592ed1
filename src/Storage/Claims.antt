-- ===== src/Storage/Claims.antt =====
-- `impl A2aPushDeliveryStore for InMemoryA2aStorage` (crates/turul-a2a/src/storage/in_memory.rs).
-- The generation is a `u64` that grows by one with each re-claim; it is unbounded here.
use turul_a2a.Prelude.{
  ℕ, ◌+◌, ◌-◌, ◌^◌, String, Bool, true, false, Option, none, some, List, map, keep, ltb, leb, ◌==◌,
  str_eq, ◌&&◌, ◌||◌, not, min, if◌then◌else◌, length, take, Result, ok, err,
}
use turul_a2a.Dict.{get, insert, remove}
use turul_a2a.Storage.State.{
  Store, StorageError, claim_already_held, stale_delivery_claim, PushDeliveryKey, delivery_key,
  StoredDeliveryClaim, ClaimStatus, GaveUpReason, AbandonedReason, DeliveryErrorClass,
  PendingDispatchKey, pending_key, StoredPendingDispatch,
}
use turul_a2a.Storage.Action.{Action, reads, writes}

-- `push::DeliveryClaim`
pub record DeliveryClaim : Type 0 where
  pub claimant : String
  pub owner : String
  pub generation : ℕ
  pub claimed_at : ℕ
  pub delivery_attempt_count : ℕ
  pub status : ClaimStatus

-- `StoredDeliveryClaim::as_claim`
unfoldable pub as_claim : StoredDeliveryClaim → DeliveryClaim
as_claim row = record {
  claimant = row.claimant;
  owner = row.owner;
  generation = row.generation;
  claimed_at = row.claimed_at;
  delivery_attempt_count = row.delivery_attempt_count;
  status = row.status;
}

-- `matches!(status, Succeeded | GaveUp | Abandoned)`
unfoldable pub claim_terminal : ClaimStatus → Bool
claim_terminal ClaimStatus.pending = false
claim_terminal ClaimStatus.attempting = false
claim_terminal ClaimStatus.succeeded = true
claim_terminal ClaimStatus.gave_up = true
claim_terminal ClaimStatus.abandoned = true

-- The row of a first claim.
unfoldable pub fresh_claim : ℕ → String → String → ℕ → StoredDeliveryClaim
fresh_claim now claimant owner claim_expiry = record {
  claimant = claimant;
  owner = owner;
  generation = 1;
  claimed_at = now;
  expires_at = now + claim_expiry;
  delivery_attempt_count = 0;
  status = ClaimStatus.pending;
  first_attempted_at = none;
  last_attempted_at = none;
  last_http_status = none;
  last_error_class = none;
  gave_up_at = none;
  gave_up_reason = none;
  abandoned_reason = none;
}

-- The row of a re-claim: the next generation, with the owner, the attempts and the diagnostics of
-- the row that expired.
unfoldable pub reclaimed : ℕ → String → ℕ → StoredDeliveryClaim → StoredDeliveryClaim
reclaimed now claimant claim_expiry existing = record {
  claimant = claimant;
  owner = existing.owner;
  generation = existing.generation + 1;
  claimed_at = now;
  expires_at = now + claim_expiry;
  delivery_attempt_count = existing.delivery_attempt_count;
  status = ClaimStatus.pending;
  first_attempted_at = existing.first_attempted_at;
  last_attempted_at = existing.last_attempted_at;
  last_http_status = existing.last_http_status;
  last_error_class = existing.last_error_class;
  gave_up_at = none;
  gave_up_reason = none;
  abandoned_reason = none;
}

abbrev pub put_claim : PushDeliveryKey → StoredDeliveryClaim → Store → Store
put_claim k row s = record s { push_delivery_claims = insert s.push_delivery_claims k row }

abbrev pub held : PushDeliveryKey → StorageError
held k = claim_already_held k.tenant k.task_id k.event_sequence k.config_id

abbrev pub stale : PushDeliveryKey → StorageError
stale k = stale_delivery_claim k.tenant k.task_id k.event_sequence k.config_id

-- `claim_delivery`; `k` is the tuple of tenant, task, event and config.
unfoldable pub claim_delivery : ℕ → PushDeliveryKey → String → String → ℕ → Action DeliveryClaim
claim_delivery now k claimant owner claim_expiry s = elim (get s.push_delivery_claims k) [
  | none ↦
      let fresh = fresh_claim now claimant owner claim_expiry in
      (ok (as_claim fresh), put_claim k fresh s)
  | some existing ↦
      if claim_terminal existing.status || ltb now existing.expires_at
      then (err (held k), s)
      else let new_claim = reclaimed now claimant claim_expiry existing in
        (ok (as_claim new_claim), put_claim k new_claim s)
]

-- The row that a worker may write: present, with its claimant and its generation.
unfoldable pub fenced_row :
    PushDeliveryKey → String → ℕ → Store → Result StorageError StoredDeliveryClaim
fenced_row k claimant generation s = elim (get s.push_delivery_claims k) [
  | none ↦ err (stale k)
  | some row ↦
      if str_eq row.claimant claimant && (row.generation == generation)
      then ok row
      else err (stale k)
]

-- `x.get_or_insert(now)`
abbrev pub or_some : Option ℕ → ℕ → Option ℕ
or_some none now = some now
or_some (some t) now = some t

-- The row after an attempt starts; the count is a `u32` with `saturating_add`.
unfoldable pub attempt_row : ℕ → StoredDeliveryClaim → StoredDeliveryClaim
attempt_row now row = record row {
  delivery_attempt_count = min (row.delivery_attempt_count + 1) (2 ^ 32 - 1);
  status = elim row.status [ ClaimStatus.pending ↦ ClaimStatus.attempting | other ↦ other ];
  first_attempted_at = or_some row.first_attempted_at now;
  last_attempted_at = some now;
}

unfoldable pub record_attempt_started : ℕ → PushDeliveryKey → String → ℕ → Action ℕ
record_attempt_started now k claimant generation s = elim (fenced_row k claimant generation s) [
  | err e ↦ (err e, s)
  | ok row ↦
      if claim_terminal row.status
      then (err (stale k), s)
      else let row' = attempt_row now row in (ok row'.delivery_attempt_count, put_claim k row' s)
]

-- `push::DeliveryOutcome`
pub data DeliveryOutcome : Type 0 where
  succeeded : ℕ → DeliveryOutcome
  retry : ℕ → Option ℕ → DeliveryErrorClass → DeliveryOutcome
  gave_up : GaveUpReason → DeliveryErrorClass → Option ℕ → ℕ → DeliveryOutcome
  abandoned : AbandonedReason → DeliveryOutcome

-- The row after an outcome.
unfoldable pub outcome_row : ℕ → DeliveryOutcome → StoredDeliveryClaim → StoredDeliveryClaim
outcome_row now (DeliveryOutcome.succeeded http_status) row = record row {
  status = ClaimStatus.succeeded;
  last_http_status = some http_status;
  first_attempted_at = or_some row.first_attempted_at now;
  last_attempted_at = some now;
}
outcome_row now (DeliveryOutcome.retry _ http_status error_class) row = record row {
  status = ClaimStatus.attempting;
  last_http_status = http_status;
  last_error_class = some error_class;
  last_attempted_at = some now;
}
outcome_row now (DeliveryOutcome.gave_up reason last_error_class last_http_status retained_until)
      row =
    record row {
      status = ClaimStatus.gave_up;
      expires_at = retained_until;
      gave_up_at = some now;
      gave_up_reason = some reason;
      last_error_class = some last_error_class;
      last_http_status = last_http_status;
      first_attempted_at = or_some row.first_attempted_at row.claimed_at;
      last_attempted_at = or_some row.last_attempted_at now;
    }
outcome_row now (DeliveryOutcome.abandoned reason) row = record row {
  status = ClaimStatus.abandoned;
  abandoned_reason = some reason;
}

-- `record_delivery_outcome`: on a terminal row nothing is written, and the call succeeds.
unfoldable pub record_delivery_outcome :
    ℕ → PushDeliveryKey → String → ℕ → DeliveryOutcome → Action (Unit {0})
record_delivery_outcome now k claimant generation outcome s =
    elim (fenced_row k claimant generation s) [
      | err e ↦ (err e, s)
      | ok row ↦
          if claim_terminal row.status
          then (ok tt, s)
          else (ok tt, put_claim k (outcome_row now outcome row) s)
    ]

-- `matches!(row.status, Pending | Attempting) && row.expires_at < now`
unfoldable pub reclaimable : ℕ → PushDeliveryKey × StoredDeliveryClaim → Bool
unfolding claim_terminal
reclaimable now entry = not (claim_terminal (entry.1).status) && ltb (entry.1).expires_at now

unfoldable pub sweep_expired_claims : ℕ → Action ℕ
unfolding reclaimable
sweep_expired_claims now =
    reads (λ s. length (keep (reclaimable now) s.push_delivery_claims.entries))

pub record ReclaimableClaim : Type 0 where
  pub tenant : String
  pub owner : String
  pub task_id : String
  pub event_sequence : ℕ
  pub config_id : String

abbrev pub reclaimable_claim : PushDeliveryKey × StoredDeliveryClaim → ReclaimableClaim
reclaimable_claim entry = record {
  tenant = (entry.0).tenant;
  owner = (entry.1).owner;
  task_id = (entry.0).task_id;
  event_sequence = (entry.0).event_sequence;
  config_id = (entry.0).config_id;
}

unfoldable pub list_reclaimable_claims : ℕ → ℕ → Action (List ReclaimableClaim)
unfolding reclaimable
list_reclaimable_claims now limit = reads (λ s.
    take limit (map reclaimable_claim (keep (reclaimable now) s.push_delivery_claims.entries)))

abbrev pub pending_dispatch_key : String → String → ℕ → PendingDispatchKey
pending_dispatch_key tenant task_id event_sequence = record {
  tenant = tenant;
  task_id = task_id;
  event_sequence = event_sequence;
}

unfoldable pub record_pending_dispatch : ℕ → String → String → String → ℕ → Action (Unit {0})
record_pending_dispatch now tenant owner task_id event_sequence = writes (λ s. record s {
  pending_dispatches =
      insert s.pending_dispatches (pending_dispatch_key tenant task_id event_sequence)
        (record { owner = owner; recorded_at = now });
})

unfoldable pub delete_pending_dispatch : String → String → ℕ → Action (Unit {0})
delete_pending_dispatch tenant task_id event_sequence = writes (λ s. record s {
  pending_dispatches =
      remove s.pending_dispatches (pending_dispatch_key tenant task_id event_sequence);
})

pub record PendingDispatch : Type 0 where
  pub tenant : String
  pub owner : String
  pub task_id : String
  pub event_sequence : ℕ
  pub recorded_at : ℕ

abbrev pub pending_dispatch : PendingDispatchKey × StoredPendingDispatch → PendingDispatch
pending_dispatch entry = record {
  tenant = (entry.0).tenant;
  owner = (entry.1).owner;
  task_id = (entry.0).task_id;
  event_sequence = (entry.0).event_sequence;
  recorded_at = (entry.1).recorded_at;
}

unfoldable pub list_stale_pending_dispatches : ℕ → ℕ → Action (List PendingDispatch)
list_stale_pending_dispatches older_than limit = reads (λ s. take limit (
    map pending_dispatch (
      keep
        (λ (entry : PendingDispatchKey × StoredPendingDispatch).
          leb (entry.1).recorded_at older_than)
        s.pending_dispatches.entries)))
