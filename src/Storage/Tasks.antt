-- ===== src/Storage/Tasks.antt =====
-- `impl A2aTaskStorage for InMemoryA2aStorage` (crates/turul-a2a/src/storage/in_memory.rs), but for
-- `list_tasks`. `now` is the instant that every read of the clock in one call gives.
use turul_a2a.Prelude.{
  ℕ, ℤ, String, Bool, true, false, Option, none, some, Result, ok, err, and_then, ok_or, map_err,
  str_eq, if◌then◌else◌, length,
}
use turul_a2a.TaskState.{A2aTypeError, validate_transition, is_terminal}
use turul_a2a.Message.{Message, Artifact}
use turul_a2a.Task.{
  Task, TaskStatus, status_state, task_status, task_try_from, task_state, set_status,
  append_message, append_artifact, extend_first, trim_history,
}
use turul_a2a.Dict.{get, insert, remove}
use turul_a2a.Storage.State.{
  task_key, Store, StoredTask, TaskKey, StorageError, task_not_found, invalid_transition,
  terminal_state, owner_mismatch, type_error,
}
use turul_a2a.Storage.Clock.{now_iso, stamp_task}
use turul_a2a.Storage.Action.{Action, ◌>>=◌, ◌>>◌, pure, reads, decides, writes, check, key}

-- `tasks.insert(key, row)`
abbrev pub put_task : TaskKey → StoredTask → Store → Store
put_task k row s = record s { tasks = insert s.tasks k row }

-- `tasks.get(&key).ok_or_else(|| TaskNotFound)`
unfoldable pub find_task : String → String → Store → Result StorageError StoredTask
find_task tenant task_id s = ok_or (get s.tasks (key tenant task_id)) (task_not_found task_id)

-- A row that an update may touch: present, and of this owner.
unfoldable pub owned_task : String → String → String → Store → Result StorageError StoredTask
unfolding find_task
owned_task tenant task_id owner s = and_then (find_task tenant task_id s) (λ stored.
    and_then (check (str_eq stored.owner owner) (owner_mismatch task_id)) (λ _. ok stored))

unfoldable pub create_task : ℕ → String → String → Task → Action Task
create_task now tenant owner task = do
  let stamped_task = stamp_task now task
  writes (
      put_task (key tenant stamped_task.id) (record {
        tenant = tenant;
        owner = owner;
        task = stamped_task;
        updated_at = now_iso now;
        cancel_requested = false;
        lease_expires_at = none;
        latest_event_sequence = 0;
      }))
  pure stamped_task

-- A row of another owner and a missing row give one answer.
unfoldable pub visible : Option StoredTask → String → Option ℤ → Option Task
visible none owner history_length = none
visible (some stored) owner history_length =
    if str_eq stored.owner owner then some (trim_history stored.task history_length) else none

unfoldable pub get_task : String → String → String → Option ℤ → Action (Option Task)
unfolding visible
get_task tenant task_id owner history_length =
    reads (λ s. visible (get s.tasks (key tenant task_id)) owner history_length)

-- The row that replaces `stored`: the markers are kept.
unfoldable pub replaced : ℕ → String → String → Task → StoredTask → StoredTask
replaced now tenant owner task stored = record {
  tenant = tenant;
  owner = owner;
  task = task;
  updated_at = now_iso now;
  cancel_requested = stored.cancel_requested;
  lease_expires_at = stored.lease_expires_at;
  latest_event_sequence = stored.latest_event_sequence;
}

unfoldable pub update_task : ℕ → String → String → Task → Action (Unit {0})
update_task now tenant owner task = do
  let stamped_task = stamp_task now task
  stored ← decides (owned_task tenant stamped_task.id owner)
  writes (put_task (key tenant stamped_task.id) (replaced now tenant owner stamped_task stored))

unfoldable pub delete_task : String → String → String → Action Bool
delete_task tenant task_id owner s = elim (get s.tasks (key tenant task_id)) [
  | none ↦ (ok false, s)
  | some stored ↦
      if str_eq stored.owner owner
      then (ok true, record s { tasks = remove s.tasks (key tenant task_id) })
      else (ok false, s)
]

-- How `update_task_status` reports a refused transition.
unfoldable pub transition_error : String → A2aTypeError → StorageError
transition_error task_id (A2aTypeError.invalid_transition current requested) =
    invalid_transition task_id current requested
transition_error task_id (A2aTypeError.terminal_state s) = terminal_state task_id s
transition_error task_id other = type_error other

-- The row that is updated and the task with its new status.
pub record Checked : Type 0 where
  pub stored : StoredTask
  pub task : Task

-- The checks that `update_task_status` and `update_task_status_with_events` share: presence, owner,
-- both states, the transition, and the task that results. They differ in `report`.
unfoldable pub check_update :
    (String → A2aTypeError → StorageError)
    → String
    → String
    → String
    → TaskStatus
    → Store
    → Result StorageError Checked
unfolding owned_task
check_update report tenant task_id owner new_status s =
    and_then (owned_task tenant task_id owner s) λ stored.
      and_then (ok_or (task_status stored.task) (task_not_found task_id)) λ status.
        and_then (map_err type_error (status_state status)) λ current.
          and_then (map_err type_error (status_state new_status)) λ requested.
            and_then (map_err (report task_id) (validate_transition current requested)) λ _.
              and_then (map_err type_error (task_try_from (set_status new_status stored.task)))
                λ task. ok (record { stored = stored; task = task })

unfoldable pub update_task_status : ℕ → String → String → String → TaskStatus → Action Task
update_task_status now tenant task_id owner new_status = do
  checked ← decides (check_update transition_error tenant task_id owner new_status)
  let updated_task = stamp_task now checked.task
  writes (put_task (key tenant task_id) (replaced now tenant owner updated_task checked.stored))
  pure updated_task

unfoldable pub store_message : String → String → String → Message → Action (Unit {0})
store_message tenant task_id owner message = do
  stored ← decides (owned_task tenant task_id owner)
  writes
      (put_task (key tenant task_id) (record stored { task = append_message message stored.task }))

-- The task with the artifact: its parts joined to the first artifact of the same id when `append`,
-- a new last artifact otherwise.
unfoldable pub with_artifact : Artifact → Bool → Task → Task
unfolding extend_first append_artifact
with_artifact artifact false task = append_artifact artifact task
with_artifact artifact true task = elim (extend_first artifact task.artifacts) [
  | some artifacts ↦ record task { artifacts = artifacts }
  | none ↦ append_artifact artifact task
]

unfoldable pub store_artifact :
    ℕ → String → String → String → Artifact → Bool → Bool → Action (Unit {0})
store_artifact now tenant task_id owner artifact append _ = do
  stored ← decides (owned_task tenant task_id owner)
  writes (
      put_task (key tenant task_id) (record stored {
        task = with_artifact artifact append stored.task;
        updated_at = now_iso now;
      }))

unfoldable pub task_count : Action ℕ
task_count = reads (λ s. length s.tasks.entries)

-- The row that may be marked: present, of this owner (a wrong owner looks like a missing row), with
-- a state, and not terminal.
unfoldable pub cancelable : String → String → String → Store → Result StorageError StoredTask
unfolding find_task
cancelable tenant task_id owner s = and_then (find_task tenant task_id s) λ stored.
    and_then (check (str_eq stored.owner owner) (task_not_found task_id)) λ _.
      and_then (ok_or (task_state stored.task) (task_not_found task_id))
        λ state. if is_terminal state then err (terminal_state task_id state) else ok stored

unfoldable pub set_cancel_requested : String → String → String → Action (Unit {0})
set_cancel_requested tenant task_id owner = do
  stored ← decides (cancelable tenant task_id owner)
  writes (put_task (key tenant task_id) (record stored { cancel_requested = true }))
