-- ===== src/Storage/Atomicity.antt =====
-- A call that fails changes nothing (crates/turul-a2a/src/storage/in_memory.rs).
use turul_a2a.Prelude.{◌≡◌, some, arith}
use turul_a2a.Storage.State.{Store, StorageError}
use turul_a2a.Storage.Clock.{Environment}
use turul_a2a.Storage.Tasks.{
  create_task, update_task, delete_task, update_task_status, store_message, store_artifact,
  set_cancel_requested,
}
use turul_a2a.Storage.Supervisor.{supervisor_renew_executor_leases}
use turul_a2a.Storage.Configs.{delete_config}
use turul_a2a.Storage.Events.{append_event}
use turul_a2a.Storage.Atomic.{
  create_task_with_events, update_task_status_with_events, update_task_with_events,
}
use turul_a2a.Storage.Claims.{
  claim_delivery, record_attempt_started, record_delivery_outcome, record_pending_dispatch,
  delete_pending_dispatch,
}
use turul_a2a.Storage.Cleanup.{cleanup_expired}
use turul_a2a.Storage.Requests.{
  Update, set_state, Record, write_config, Request, update, keep_record, perform_update,
  perform_record, perform,
}

update_error :
    (env : Environment) (u : Update) (s : Store) (e : StorageError)
    → (perform_update env u s).error ≡ some e
    → (perform_update env u s).store ≡ s
unfolding perform_update update_task_status store_message store_artifact set_cancel_requested
    supervisor_renew_executor_leases update_task_status_with_events update_task_with_events
update_error env (set_state _ _ _ _ _) s e h = ground arith
update_error env _ s e h = ground arith

record_error :
    (env : Environment) (r : Record) (s : Store) (e : StorageError)
    → (perform_record env r s).error ≡ some e
    → (perform_record env r s).store ≡ s
unfolding perform_record delete_config append_event claim_delivery record_attempt_started
    record_delivery_outcome record_pending_dispatch delete_pending_dispatch
record_error env (write_config _ _ _) s e h = ground arith
record_error env _ s e h = ground arith

-- A call that returns an error leaves the whole store as it was.
pub perform_error_unchanged :
    (env : Environment) (r : Request) (s : Store) (e : StorageError)
    → (perform env r s).error ≡ some e
    → (perform env r s).store ≡ s
unfolding perform create_task create_task_with_events update_task delete_task cleanup_expired
perform_error_unchanged env (update u) s e h = update_error env u s e h
perform_error_unchanged env (keep_record r) s e h = record_error env r s e h
perform_error_unchanged env _ s e h = ground arith
