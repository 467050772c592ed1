-- ===== src/Storage/Requests.antt =====
-- Every call that writes to the in-memory backend, as data: the executions of the storage are the
-- sequences of such requests. A call that waits between two locks (`create_config`) takes part with
-- the write that it makes under its lock.
use turul_a2a.Prelude.{ℕ, ℤ, String, Bool, Option, none, some, List, [], ◌∷◌, Result, ok, err}
use turul_a2a.Message.{Message, Artifact}
use turul_a2a.Task.{Task, TaskStatus}
use turul_a2a.Streaming.{StreamEvent}
use turul_a2a.Storage.State.{Store, StorageError, PushDeliveryKey, TaskPushNotificationConfig}
use turul_a2a.Storage.Clock.{Environment}
use turul_a2a.Storage.Action.{Action}
use turul_a2a.Storage.Tasks.{
  create_task, update_task, delete_task, update_task_status, store_message, store_artifact,
  set_cancel_requested,
}
use turul_a2a.Storage.Supervisor.{supervisor_renew_executor_leases}
use turul_a2a.Storage.Configs.{try_config, delete_config}
use turul_a2a.Storage.Events.{append_event}
use turul_a2a.Storage.Atomic.{
  create_task_with_events, update_task_status_with_events, update_task_with_events,
}
use turul_a2a.Storage.Claims.{
  DeliveryOutcome, claim_delivery, record_attempt_started, record_delivery_outcome,
  record_pending_dispatch, delete_pending_dispatch,
}
use turul_a2a.Storage.Cleanup.{cleanup_expired}

-- Calls that write the row of a task that is there: no one creates, replaces or deletes a task.
pub data Update : Type 0 where
  set_state : ℕ → String → String → String → TaskStatus → Update
  add_message : String → String → String → Message → Update
  add_artifact : ℕ → String → String → String → Artifact → Bool → Bool → Update
  request_cancel : String → String → String → Update
  renew_leases : String → List String → Option ℤ → Update
  commit_state : ℕ → String → String → String → TaskStatus → List StreamEvent → Update
  commit_task : ℕ → String → String → Task → List StreamEvent → Update

-- Calls that leave the tasks alone.
pub data Record : Type 0 where
  write_config : String → TaskPushNotificationConfig → ℕ → Record
  drop_config : String → String → String → Record
  log_event : ℕ → String → String → StreamEvent → Record
  claim : ℕ → PushDeliveryKey → String → String → ℕ → Record
  start_attempt : ℕ → PushDeliveryKey → String → ℕ → Record
  report_outcome : ℕ → PushDeliveryKey → String → ℕ → DeliveryOutcome → Record
  note_dispatch : ℕ → String → String → String → ℕ → Record
  drop_dispatch : String → String → ℕ → Record

pub data Request : Type 0 where
  update : Update → Request
  keep_record : Record → Request
  create : ℕ → String → String → Task → Request
  create_with_events : ℕ → String → String → Task → List StreamEvent → Request
  replace : ℕ → String → String → Task → Request
  delete : String → String → String → Request
  cleanup : ℕ → Request

-- The error of a call, if any, and the store that it leaves.
pub record Outcome : Type 0 where
  pub error : Option StorageError
  pub store : Store

abbrev pub error_of : {A : Type 0} → Result StorageError A → Option StorageError
error_of (ok _) = none
error_of (err e) = some e

abbrev pub outcome : {A : Type 0} → Action A → Store → Outcome
outcome m s = record { error = error_of (m s).0; store = (m s).1 }

unfoldable pub perform_update : Environment → Update → Store → Outcome
perform_update env (set_state now tenant id owner status) =
    outcome (update_task_status now tenant id owner status)
perform_update env (add_message tenant id owner message) =
    outcome (store_message tenant id owner message)
perform_update env (add_artifact now tenant id owner artifact append last) =
    outcome (store_artifact now tenant id owner artifact append last)
perform_update env (request_cancel tenant id owner) = outcome (set_cancel_requested tenant id owner)
perform_update env (renew_leases tenant ids expires) =
    outcome (supervisor_renew_executor_leases tenant ids expires)
perform_update env (commit_state now tenant id owner status events) =
    outcome (update_task_status_with_events env now tenant id owner status events)
perform_update env (commit_task now tenant owner task events) =
    outcome (update_task_with_events env now tenant owner task events)

-- The write of `create_config`, where its test passes.
abbrev pub config_write : String → TaskPushNotificationConfig → ℕ → Store → Store
config_write tenant config floor s = elim (try_config tenant config floor s) [
  | none ↦ s
  | some written ↦ written
]

unfoldable pub perform_record : Environment → Record → Store → Outcome
perform_record env (write_config tenant config floor) s = record {
  error = none;
  store = config_write tenant config floor s;
}
perform_record env (drop_config tenant id config_id) s =
    outcome (delete_config tenant id config_id) s
perform_record env (log_event now tenant id event) s = outcome (append_event now tenant id event) s
perform_record env (claim now k claimant owner expiry) s =
    outcome (claim_delivery now k claimant owner expiry) s
perform_record env (start_attempt now k claimant generation) s =
    outcome (record_attempt_started now k claimant generation) s
perform_record env (report_outcome now k claimant generation result) s =
    outcome (record_delivery_outcome now k claimant generation result) s
perform_record env (note_dispatch now tenant owner id seq) s =
    outcome (record_pending_dispatch now tenant owner id seq) s
perform_record env (drop_dispatch tenant id seq) s =
    outcome (delete_pending_dispatch tenant id seq) s

unfoldable pub perform : Environment → Request → Store → Outcome
perform env (update u) = perform_update env u
perform env (keep_record r) = perform_record env r
perform env (create now tenant owner task) = outcome (create_task now tenant owner task)
perform env (create_with_events now tenant owner task events) =
    outcome (create_task_with_events env now tenant owner task events)
perform env (replace now tenant owner task) = outcome (update_task now tenant owner task)
perform env (delete tenant id owner) = outcome (delete_task tenant id owner)
perform env (cleanup now) = outcome (cleanup_expired now)

-- The store after a sequence of requests, failing or not.
unfoldable pub serve : Environment → List Request → Store → Store
serve env [] s = s
serve env (r ∷ rs) s = serve env rs (perform env r s).store

unfoldable pub serve_updates : Environment → List Update → Store → Store
serve_updates env [] s = s
serve_updates env (u ∷ us) s = serve_updates env us (perform_update env u s).store
