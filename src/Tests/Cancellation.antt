-- ===== src/Tests/Cancellation.antt =====
-- The cancel marker at a task that is completed after the request, and the cleanup of one task.
use turul_a2a.Prelude.{◌≡◌, refl, ok, some, not, List, [], ◌∷◌, pos, str_eq}
use turul_a2a.Dict.{get, find}
use turul_a2a.TaskState.{is_terminal}
use turul_a2a.Task.{task_state}
use turul_a2a.Storage.State.{StoredTask, task_key_eq}
use turul_a2a.Storage.Tasks.{set_cancel_requested, cancelable, find_task}
use turul_a2a.Storage.Supervisor.{row_terminal, supervisor_get_cancel_requested}
use turul_a2a.Storage.Requests.{Update, renew_leases, commit_state, serve_updates}
use turul_a2a.Storage.Reads.{row_of}
use turul_a2a.Storage.Cancellation.{cancel_request_stays}
use turul_a2a.Prelude.{true, length, ◌+◌}
use turul_a2a.Storage.State.{batch}
use turul_a2a.Storage.Cleanup.{unswept, sweep_tasks, sweep_events, entry_count, event_expired}
use turul_a2a.Storage.Sweeps.{cleanup_ends}
use turul_a2a.Tests.Data.{env, now, k, working, completed, finished, store}

abbrev later : List Update
later =
    renew_leases "acme" ("task-1" ∷ []) (some (pos 7))
    ∷ commit_state now "acme" "task-1" "alice" completed (finished ∷ [])
    ∷ []

accepted : (set_cancel_requested "acme" "task-1" "alice" (store working)).0 ≡ ok tt
unfolding set_cancel_requested cancelable find_task get find task_key_eq str_eq task_state
    is_terminal
accepted = refl

cancel_request_stays_example :
    let t =
      serve_updates env later (set_cancel_requested "acme" "task-1" "alice" (store working)).1 in
    (row : StoredTask) × (row_of t k ≡ some row)
    × (supervisor_get_cancel_requested "acme" "task-1" t ≡ (ok (not (row_terminal row)), t))
cancel_request_stays_example =
    cancel_request_stays env "acme" "task-1" "alice" later (store working) accepted

cleanup_ends_example :
    ((sweep_tasks
        (length ((store completed).tasks).entries + 1)
        (batch (store completed).retention)
        1_800_000_000
        60
        (unswept (store completed).tasks)).is_done
      ≡ true)
    × ((sweep_events
          (entry_count ((store completed).events).entries + 1)
          (batch (store completed).retention)
          (event_expired now 60)
          (unswept (store completed).events)).is_done
        ≡ true)
    × ((sweep_tasks
          (length ((store completed).tasks).entries + 1 + 3)
          (batch (store completed).retention)
          1_800_000_000
          60
          (unswept (store completed).tasks))
        ≡ (sweep_tasks
            (length ((store completed).tasks).entries + 1)
            (batch (store completed).retention)
            1_800_000_000
            60
            (unswept (store completed).tasks)))
    × ((sweep_events
          (entry_count ((store completed).events).entries + 1 + 3)
          (batch (store completed).retention)
          (event_expired now 60)
          (unswept (store completed).events))
        ≡ (sweep_events
            (entry_count ((store completed).events).entries + 1)
            (batch (store completed).retention)
            (event_expired now 60)
            (unswept (store completed).events)))
cleanup_ends_example = cleanup_ends (store completed) 3 1_800_000_000 60 (event_expired now 60)
