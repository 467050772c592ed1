-- ===== src/Storage/Sequence/Preserved.antt =====
-- Every call that writes to the backend keeps the invariant of `Sequence.WellFormed`
-- (crates/turul-a2a/src/storage/in_memory.rs).
use turul_a2a.Prelude.{
  Bool, ℕ, ℤ, ◌≡◌, refl, String, Option, some, List, [], ◌∷◌, arith, Option-cases, inl, inr,
}
use turul_a2a.Dict.{get, find}
use turul_a2a.Storage.State.{
  Store, RetentionConfig, new, configured, task_key, TaskPushNotificationConfig,
}
use turul_a2a.Storage.Clock.{Environment}
use turul_a2a.Storage.Action.{key}
use turul_a2a.Storage.Supervisor.{supervisor_renew_executor_leases, renew_lease}
use turul_a2a.Storage.Supervisor
use turul_a2a.Storage.Configs.{delete_config, floor_of, try_config, put_config}
use turul_a2a.Storage.Events.{counter_of, log_of}
use turul_a2a.Storage.Claims.{
  claim_delivery, record_attempt_started, record_delivery_outcome, record_pending_dispatch,
  delete_pending_dispatch,
}
use turul_a2a.Storage.Reads.{row_of}
use turul_a2a.Storage.Requests.{
  Update, Record, Request, perform_update, perform_record, perform, serve, config_write, set_state,
  add_message, add_artifact, request_cancel, commit_state, commit_task, write_config, drop_config,
  log_event, update, keep_record, create, create_with_events, replace, delete, cleanup,
}
use turul_a2a.Storage.Sequence.WellFormed.{
  IsWellFormed, stamp_of, put_config-IsWellFormed, IsShrunk-IsWellFormed, same-IsShrunk,
  remove_config-IsShrunk,
}
use turul_a2a.Storage.Sequence.Cleanup.{cleanup_expired-IsShrunk}
use turul_a2a.Storage.Sequence.Calls.{
  put_row-IsWellFormed, update_task_status-IsWellFormed, store_message-IsWellFormed,
  store_artifact-IsWellFormed, set_cancel_requested-IsWellFormed, update_task-IsWellFormed,
  create_task-IsWellFormed, delete_task-IsWellFormed, update_task_status_with_events-IsWellFormed,
  update_task_with_events-IsWellFormed, create_task_with_events-IsWellFormed,
  append_event-IsWellFormed,
}

renew_lease-IsWellFormed :
    (tenant : String) (expires : Option ℤ) (id : String) (s : Store)
    → IsWellFormed s
    → IsWellFormed (renew_lease tenant expires id s)
unfolding renew_lease
renew_lease-IsWellFormed tenant expires id s w = elim (Option-cases (row_of s (key tenant id))) [
  | inl e ↦ rw (e, renew_lease) w
  | inr (row, e) ↦ rw (e, renew_lease) (put_row-IsWellFormed s (key tenant id) row _ e refl w)
]

renew_leases-IsWellFormed :
    (tenant : String) (expires : Option ℤ) (ids : List String) (s : Store)
    → IsWellFormed s
    → IsWellFormed (Supervisor.renew_leases tenant expires ids s)
unfolding Supervisor.renew_leases
renew_leases-IsWellFormed tenant expires [] s w = w
renew_leases-IsWellFormed tenant expires (id ∷ ids) s w =
    renew_leases-IsWellFormed tenant expires ids _ (renew_lease-IsWellFormed tenant expires id s w)

config_written :
    (tenant : String) (config : TaskPushNotificationConfig) (floor : ℕ) (s t : Store)
    → try_config tenant config floor s ≡ some t
    → (t ≡ put_config tenant config floor s) × (floor_of s (key tenant config.task_id) ≡ floor)
unfolding try_config
config_written tenant config floor s t h = ground arith

try_config-IsWellFormed :
    (tenant : String) (config : TaskPushNotificationConfig) (floor : ℕ) (s : Store)
    → IsWellFormed s
    → IsWellFormed (config_write tenant config floor s)
try_config-IsWellFormed tenant config floor s w =
    elim (Option-cases (try_config tenant config floor s)) [
      | inl e ↦ rw (e, config_write) w
      | inr (t, e) ↦
          let done = config_written tenant config floor s t e in
          rw (e, config_write)
            (rw done.0 (
              put_config-IsWellFormed s tenant config floor
                (omega (arith, done.1, w.floored (key tenant config.task_id))) w))
    ]

-- A call that leaves tasks, logs, counters and configs alone.
untouched :
    (s t : Store)
    → t.tasks ≡ s.tasks
    → t.events ≡ s.events
    → t.event_counters ≡ s.event_counters
    → t.push_configs ≡ s.push_configs
    → IsWellFormed s
    → IsWellFormed t
unfolding counter_of log_of floor_of stamp_of
untouched s t tasks events counters configs w =
    IsShrunk-IsWellFormed s t
      (same-IsShrunk s t (λ k. ground arith) (λ k. ground arith) (λ k. ground arith)
        (λ c. ground arith))
      w

perform_update-IsWellFormed :
    (env : Environment) (u : Update) (s : Store)
    → IsWellFormed s
    → IsWellFormed (perform_update env u s).store
unfolding perform_update supervisor_renew_executor_leases
perform_update-IsWellFormed env (set_state now tenant id owner status) s w =
    update_task_status-IsWellFormed s w now tenant id owner status
perform_update-IsWellFormed env (add_message tenant id owner message) s w =
    store_message-IsWellFormed s w tenant id owner message
perform_update-IsWellFormed env (add_artifact now tenant id owner artifact append last) s w =
    store_artifact-IsWellFormed s w now tenant id owner artifact append last
perform_update-IsWellFormed env (request_cancel tenant id owner) s w =
    set_cancel_requested-IsWellFormed s w tenant id owner
perform_update-IsWellFormed env (Update.renew_leases tenant ids expires) s w =
    renew_leases-IsWellFormed tenant expires ids s w
perform_update-IsWellFormed env (commit_state now tenant id owner status events) s w =
    update_task_status_with_events-IsWellFormed s w env now tenant id owner status events
perform_update-IsWellFormed env (commit_task now tenant owner task events) s w =
    update_task_with_events-IsWellFormed s w env now tenant owner task events

perform_record-IsWellFormed :
    (env : Environment) (r : Record) (s : Store)
    → IsWellFormed s
    → IsWellFormed (perform_record env r s).store
unfolding perform_record delete_config claim_delivery record_attempt_started record_delivery_outcome
    record_pending_dispatch delete_pending_dispatch
perform_record-IsWellFormed env (write_config tenant config floor) s w =
    try_config-IsWellFormed tenant config floor s w
perform_record-IsWellFormed env (drop_config tenant id config_id) s w =
    IsShrunk-IsWellFormed s _ (remove_config-IsShrunk s _) w
perform_record-IsWellFormed env (log_event now tenant id event) s w =
    append_event-IsWellFormed s w now tenant id event
perform_record-IsWellFormed env _ s w =
    untouched s _ (ground arith) (ground arith) (ground arith) (ground arith) w

-- Every call, failing or not, keeps the invariant.
pub perform-IsWellFormed :
    (env : Environment) (r : Request) (s : Store)
    → IsWellFormed s
    → IsWellFormed (perform env r s).store
unfolding perform
perform-IsWellFormed env (update u) s w = perform_update-IsWellFormed env u s w
perform-IsWellFormed env (keep_record r) s w = perform_record-IsWellFormed env r s w
perform-IsWellFormed env (create now tenant owner task) s w =
    create_task-IsWellFormed s w now tenant owner task
perform-IsWellFormed env (create_with_events now tenant owner task events) s w =
    create_task_with_events-IsWellFormed s w env now tenant owner task events
perform-IsWellFormed env (replace now tenant owner task) s w =
    update_task-IsWellFormed s w now tenant owner task
perform-IsWellFormed env (delete tenant id owner) s w = delete_task-IsWellFormed s w tenant id owner
perform-IsWellFormed env (cleanup now) s w =
    IsShrunk-IsWellFormed s _ (cleanup_expired-IsShrunk now s) w

pub new-IsWellFormed : IsWellFormed new
unfolding counter_of log_of floor_of stamp_of get find
new-IsWellFormed = record {
  logged = λ k. omega arith;
  floored = λ k. omega arith;
  stamped = λ c. omega arith;
}

serve_from-IsWellFormed :
    (env : Environment) (rs : List Request) (s : Store)
    → IsWellFormed s
    → IsWellFormed (serve env rs s)
unfolding serve
serve_from-IsWellFormed env [] s w = w
serve_from-IsWellFormed env (r ∷ rs) s w =
    serve_from-IsWellFormed env rs _ (perform-IsWellFormed env r s w)

configured-IsWellFormed :
    (retention : RetentionConfig) (enabled : Bool) → IsWellFormed (configured retention enabled)
unfolding counter_of log_of floor_of stamp_of get find
configured-IsWellFormed retention enabled = record {
  logged = λ k. omega arith;
  floored = λ k. omega arith;
  stamped = λ c. omega arith;
}

-- After any sequence of calls on a new backend, with any retention and with push dispatch on or off:
-- the sequence numbers of every event log rise
-- strictly and end within the counter of its task, and neither the causal floor of a task nor the
-- floor that a push config was registered at is above that counter.
pub serve-IsWellFormed :
    (env : Environment) (retention : RetentionConfig) (enabled : Bool) (rs : List Request)
    → IsWellFormed (serve env rs (configured retention enabled))
serve-IsWellFormed env retention enabled rs =
    serve_from-IsWellFormed env rs _ (configured-IsWellFormed retention enabled)
