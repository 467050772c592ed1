-- ===== src/Storage/Failed.antt =====
-- `list_failed_deliveries` of the in-memory backend (crates/turul-a2a/src/storage/in_memory.rs).
use turul_a2a.Prelude.{
  ℕ, String, Bool, true, false, Option, none, some, List, [], ◌∷◌, ltb, leb, str_eq, ◌||◌, not,
  if◌then◌else◌, take,
}
use turul_a2a.Prelude.Order.{sort_by}
use turul_a2a.Storage.State.{
  PushDeliveryKey, StoredDeliveryClaim, ClaimStatus, DeliveryErrorClass, network_error,
}
use turul_a2a.Storage.Action.{Action, reads}

-- `push::FailedDelivery`
pub record FailedDelivery : Type 0 where
  pub task_id : String
  pub config_id : String
  pub event_sequence : ℕ
  pub first_attempted_at : ℕ
  pub last_attempted_at : ℕ
  pub gave_up_at : ℕ
  pub delivery_attempt_count : ℕ
  pub last_http_status : Option ℕ
  pub last_error_class : DeliveryErrorClass

abbrev pub is_gave_up : ClaimStatus → Bool
is_gave_up ClaimStatus.gave_up = true
is_gave_up _ = false

abbrev pub unwrap_or {ℓ} : {A : Type ℓ} → Option A → A → A
unwrap_or none a = a
unwrap_or (some b) a = b

-- The report of a row of the tenant that gave up at or after `since`.
unfoldable pub failed_delivery :
    String → ℕ → PushDeliveryKey × StoredDeliveryClaim → Option FailedDelivery
failed_delivery tenant since entry =
    let row = entry.1 in
    if not (str_eq (entry.0).tenant tenant) || not (is_gave_up row.status)
    then none
    else elim row.gave_up_at [
      | none ↦ none
      | some gave_up_at ↦
          if ltb gave_up_at since
          then none
          else some (record {
            task_id = (entry.0).task_id;
            config_id = (entry.0).config_id;
            event_sequence = (entry.0).event_sequence;
            first_attempted_at = unwrap_or row.first_attempted_at row.claimed_at;
            last_attempted_at = unwrap_or row.last_attempted_at gave_up_at;
            gave_up_at = gave_up_at;
            delivery_attempt_count = row.delivery_attempt_count;
            last_http_status = row.last_http_status;
            last_error_class = unwrap_or row.last_error_class network_error;
          })
    ]

-- The reports of the rows, in the order of the map.
unfoldable pub failed_deliveries :
    String → ℕ → List (PushDeliveryKey × StoredDeliveryClaim) → List FailedDelivery
unfolding failed_delivery
failed_deliveries tenant since [] = []
failed_deliveries tenant since (entry ∷ rest) =
    let later = failed_deliveries tenant since rest in
    elim (failed_delivery tenant since entry) [ none ↦ later | some f ↦ f ∷ later ]

unfoldable pub list_failed_deliveries : String → ℕ → ℕ → Action (List FailedDelivery)
unfolding failed_deliveries sort_by
list_failed_deliveries tenant since limit = reads (λ s. take limit (
    sort_by (λ a b. leb b.gave_up_at a.gave_up_at)
      (failed_deliveries tenant since s.push_delivery_claims.entries)))
