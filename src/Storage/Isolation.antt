-- ===== src/Storage/Isolation.antt =====
-- Ownership of tasks in the in-memory backend (crates/turul-a2a/src/storage/in_memory.rs): what a
-- caller can do to a task of another owner.
use turul_a2a.Prelude.{
  ℕ, ◌≡◌, refl, ◌≢◌, String, false, Option, none, some, err, arith, str_eq, str_eq_iff,
}
use turul_a2a.TaskState.{A2aTypeError}
use turul_a2a.Task.{Task, TaskStatus}
use turul_a2a.Storage.State.{
  Store, StoredTask, StorageError, task_not_found, owner_mismatch, task_key,
}
use turul_a2a.Storage.Clock.{Environment, stamp_task}
use turul_a2a.Storage.Action.{key}
use turul_a2a.Storage.Tasks.{
  owned_task, find_task, cancelable, check_update, update_task, delete_task, update_task_status,
  store_message, store_artifact, set_cancel_requested,
}
use turul_a2a.Storage.Atomic.{open_task, update_task_status_with_events, update_task_with_events}
use turul_a2a.Storage.Reads.{row_of}
use turul_a2a.Storage.Requests.{
  Update, Request, Outcome, update, keep_record, create, create_with_events, replace, delete,
  cleanup, set_state, add_message, add_artifact, request_cancel, renew_leases, commit_state,
  commit_task, perform, perform_update,
}

-- The task that a call names, and the owner in whose name it comes.
pub record Address : Type 0 where
  pub tenant : String
  pub task_id : String
  pub owner : String

abbrev pub to : String → String → String → Option Address
to tenant task_id owner = some (record { tenant = tenant; task_id = task_id; owner = owner })

-- The address of a call that works on a task that is there, for one owner.
unfoldable pub update_address : Update → Option Address
update_address (set_state _ tenant id owner _) = to tenant id owner
update_address (add_message tenant id owner _) = to tenant id owner
update_address (add_artifact _ tenant id owner _ _ _) = to tenant id owner
update_address (request_cancel tenant id owner) = to tenant id owner
update_address (renew_leases _ _ _) = none
update_address (commit_state _ tenant id owner _ _) = to tenant id owner
update_address (commit_task _ tenant owner task _) = to tenant task.id owner

unfoldable pub address : Request → Option Address
unfolding update_address
address (update u) = update_address u
address (replace _ tenant owner task) = to tenant task.id owner
address (delete tenant id owner) = to tenant id owner
address _ = none

-- The named row is there, and it is another owner's.
unfoldable pub IsStranger : Store → Option Address → Type 0
IsStranger s none = ⊥
IsStranger s (some a) =
    (row : StoredTask) × (row_of s (key a.tenant a.task_id) ≡ some row) × (row.owner ≢ a.owner)

-- The answer to a stranger: a cancel request does not tell a foreign task from a missing one, a
-- delete is answered with `false`, and every other call with the mismatch.
unfoldable pub answer : Request → String → Option StorageError
answer (update (request_cancel _ _ _)) id = some (task_not_found id)
answer (delete _ _ _) id = none
answer _ id = some (owner_mismatch id)

abbrev pub named_id : Option Address → String
named_id none = ""
named_id (some a) = a.task_id

stamped_id : (now : ℕ) (task : Task) → (stamp_task now task).id ≡ task.id
unfolding stamp_task
stamped_id now task = ground arith

module _ (s : Store) (tenant id owner : String) (row : StoredTask)
    (there : row_of s (key tenant id) ≡ some row) (foreign : row.owner ≢ owner) where
  not_owned : str_eq row.owner owner ≡ false
  not_owned = ground (arith, str_eq_iff row.owner owner)

  owned_task_foreign : owned_task tenant id owner s ≡ err (owner_mismatch id)
  unfolding owned_task find_task
  owned_task_foreign = ground (arith, not_owned)

  cancelable_foreign : cancelable tenant id owner s ≡ err (task_not_found id)
  unfolding cancelable find_task
  cancelable_foreign = ground (arith, not_owned)

  open_task_foreign : open_task tenant id owner s ≡ err (owner_mismatch id)
  unfolding open_task
  open_task_foreign = ground (arith, owned_task_foreign)

  check_update_foreign :
      (report : String → A2aTypeError → StorageError) (status : TaskStatus)
      → check_update report tenant id owner status s ≡ err (owner_mismatch id)
  unfolding check_update
  check_update_foreign report status = ground (arith, owned_task_foreign)

-- The outcome of a call of a stranger.
abbrev pub turned_away : Request → Store → Outcome
unfolding address
turned_away r s = record { error = answer r (named_id (address r)); store = s }

update_foreign :
    (env : Environment) (u : Update) (s : Store)
    → IsStranger s (update_address u)
    → perform_update env u s ≡ turned_away (update u) s
unfolding perform_update update_address address answer update_task_status store_message
    store_artifact set_cancel_requested update_task_status_with_events update_task_with_events
    IsStranger
update_foreign env (set_state now tenant id owner status) s (row, there, foreign) =
    rw (check_update_foreign s tenant id owner row there foreign _ status) refl
update_foreign env (add_message tenant id owner message) s (row, there, foreign) =
    rw (owned_task_foreign s tenant id owner row there foreign) refl
update_foreign env (add_artifact now tenant id owner artifact append last) s (row, there, foreign) =
    rw (owned_task_foreign s tenant id owner row there foreign) refl
update_foreign env (request_cancel tenant id owner) s (row, there, foreign) =
    rw (cancelable_foreign s tenant id owner row there foreign) refl
update_foreign env (commit_state now tenant id owner status events) s (row, there, foreign) =
    rw (check_update_foreign s tenant id owner row there foreign _ status) refl
update_foreign env (commit_task now tenant owner task events) s (row, there, foreign) =
    rw (stamped_id now task, open_task_foreign s tenant task.id owner row there foreign) refl
update_foreign env (renew_leases _ _ _) s h = elim h [ ]

-- Whoever names a task of another owner in a call that works on a task that is there is turned away.
-- These calls are the two full replacements, both status updates, a message, an artifact, a cancel
-- request and a delete (not the two that create a task, nor a lease renewal, which has no owner).
-- The call leaves the whole store as it was and gets the answer for strangers: the task-not-found
-- error for a cancel request, no error for a delete, and the owner mismatch for every other call.
pub stranger_turned_away :
    (env : Environment) (r : Request) (s : Store)
    → IsStranger s (address r)
    → perform env r s ≡ turned_away r s
unfolding perform address answer IsStranger update_task delete_task
stranger_turned_away env (update u) s h = update_foreign env u s h
stranger_turned_away env (replace now tenant owner task) s (row, there, foreign) =
    rw (stamped_id now task, owned_task_foreign s tenant task.id owner row there foreign) refl
stranger_turned_away env (delete tenant id owner) s (row, there, foreign) =
    rw (there, delete_task) (rw (not_owned s tenant id owner row there foreign) refl)
stranger_turned_away env (keep_record _) s h = elim h [ ]
stranger_turned_away env (create _ _ _ _) s h = elim h [ ]
stranger_turned_away env (create_with_events _ _ _ _ _) s h = elim h [ ]
stranger_turned_away env (cleanup _) s h = elim h [ ]
