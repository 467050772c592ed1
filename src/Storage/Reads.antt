-- ===== src/Storage/Reads.antt =====
-- What a read of the store finds after a write, and what the checks of the methods say of the rows.
use turul_a2a.Prelude.{
  ◌≡◌, String, Option, none, some, arith, ok, err, ◌≢◌, inl, inr, Option-cases, Result-cases,
  str_eq_iff, if◌then◌else◌,
}
use turul_a2a.TaskState.{A2aTypeError, TaskState, validate_transition}
use turul_a2a.Task.{TaskStatus, task_state, status_state, task_try_from, set_status}
use turul_a2a.Dict.{get, get-insert}
use turul_a2a.Storage.State.{Store, StoredTask, TaskKey, task_key, task_key_eq, StorageError}
use turul_a2a.Storage.Action.{key}
use turul_a2a.Storage.Tasks.{put_task, find_task, owned_task, cancelable, Checked, check_update}
use turul_a2a.Storage.Events.{Appended, counter_of, log_of}
use turul_a2a.Storage.Atomic.{commit, open_task}
use turul_a2a.Storage.Configs.{floor_of}

-- The row of a key.
abbrev pub row_of : Store → TaskKey → Option StoredTask
row_of s k = get s.tasks k

pub row_of-put_task :
    (s : Store) (k j : TaskKey) (row : StoredTask)
    → row_of (put_task k row s) j ≡ (if task_key_eq k j then some row else row_of s j)
row_of-put_task s k j row = get-insert s.tasks k j row

pub floor_of-put_task :
    (s : Store) (k j : TaskKey) (row : StoredTask)
    → floor_of (put_task k row s) j
      ≡ (if task_key_eq k j then row.latest_event_sequence else floor_of s j)
unfolding floor_of
floor_of-put_task s k j row = ground (arith, get-insert s.tasks k j row)

pub floor_of-commit :
    (s : Store) (k j : TaskKey) (a : Appended) (row : StoredTask)
    → floor_of (commit k a row s) j
      ≡ (if task_key_eq k j then row.latest_event_sequence else floor_of s j)
unfolding floor_of
floor_of-commit s k j a row = ground (arith, get-insert s.tasks k j row)

pub counter_of-commit :
    (s : Store) (k j : TaskKey) (a : Appended) (row : StoredTask)
    → counter_of (commit k a row s) j ≡ (if task_key_eq k j then a.counter else counter_of s j)
unfolding counter_of
counter_of-commit s k j a row = ground (arith, get-insert s.event_counters k j a.counter)

pub log_of-commit :
    (s : Store) (k j : TaskKey) (a : Appended) (row : StoredTask)
    → log_of (commit k a row s) j ≡ (if task_key_eq k j then a.log else log_of s j)
unfolding log_of
log_of-commit s k j a row = ground (arith, get-insert s.events k j a.log)

pub floor_of-row :
    (s : Store) (k : TaskKey) (row : StoredTask)
    → row_of s k ≡ some row
    → floor_of s k ≡ row.latest_event_sequence
unfolding floor_of
floor_of-row s k row h = ground arith

pub find_task-row :
    (tenant task_id : String) (s : Store) (row : StoredTask)
    → find_task tenant task_id s ≡ ok row
    → row_of s (key tenant task_id) ≡ some row
unfolding find_task
find_task-row tenant task_id s row h = ground arith

pub owned_task-row :
    (tenant task_id owner : String) (s : Store) (row : StoredTask)
    → owned_task tenant task_id owner s ≡ ok row
    → (row_of s (key tenant task_id) ≡ some row) × (row.owner ≡ owner)
unfolding owned_task
owned_task-row tenant task_id owner s row h = ground (arith, str_eq_iff row.owner owner)

pub cancelable-row :
    (tenant task_id owner : String) (s : Store) (row : StoredTask)
    → cancelable tenant task_id owner s ≡ ok row
    → (row_of s (key tenant task_id) ≡ some row) × (row.owner ≡ owner)
unfolding cancelable
cancelable-row tenant task_id owner s row h = ground (arith, str_eq_iff row.owner owner)

pub open_task-row :
    (tenant task_id owner : String) (s : Store) (row : StoredTask)
    → open_task tenant task_id owner s ≡ ok row
    → (row_of s (key tenant task_id) ≡ some row) × (row.owner ≡ owner)
unfolding open_task
open_task-row tenant task_id owner s row h = ground (arith, str_eq_iff row.owner owner)

-- What `check_update` has established where it succeeds.
pub record IsChecked (tenant task_id owner : String) (new_status : TaskStatus) (s : Store)
    (c : Checked) : Type 0 where
  pub present : row_of s (key tenant task_id) ≡ some c.stored
  pub owned : (c.stored).owner ≡ owner
  pub current : TaskState
  pub requested : TaskState
  pub has_state : task_state (c.stored).task ≡ some current
  pub wants_state : status_state new_status ≡ ok requested
  pub allowed : validate_transition current requested ≡ ok tt
  pub updated : c.task ≡ set_status new_status (c.stored).task

module _ (report : String → A2aTypeError → StorageError) (tenant task_id owner : String)
    (new_status : TaskStatus) (s : Store) (c : Checked)
    (done : check_update report tenant task_id owner new_status s ≡ ok c) where
  checked_row : (row_of s (key tenant task_id) ≡ some c.stored) × ((c.stored).owner ≡ owner)
  unfolding check_update
  checked_row = ground (arith, owned_task-row tenant task_id owner s c.stored)

  checked_task : c.task ≡ set_status new_status (c.stored).task
  unfolding check_update task_try_from
  checked_task = ground arith

  checked_current : task_state (c.stored).task ≢ none
  unfolding check_update task_state
  checked_current h = ground arith

  checked_requested : (e : A2aTypeError) → status_state new_status ≢ err e
  unfolding check_update
  checked_requested e h = ground arith

  checked_transition :
      (current requested : TaskState)
      → task_state (c.stored).task ≡ some current
      → status_state new_status ≡ ok requested
      → validate_transition current requested ≡ ok tt
  unfolding check_update task_state
  checked_transition current requested h k = ground arith

  pub check_update-IsChecked : IsChecked tenant task_id owner new_status s c
  check_update-IsChecked = elim (Option-cases (task_state (c.stored).task)) [
    | inl no_state ↦ absurd (checked_current no_state)
    | inr (current, has_state) ↦ elim (Result-cases (status_state new_status)) [
      | inl (e, refused) ↦ absurd (checked_requested e refused)
      | inr (requested, wants) ↦ record {
        present = checked_row.0;
        owned = checked_row.1;
        current = current;
        requested = requested;
        has_state = has_state;
        wants_state = wants;
        allowed = checked_transition current requested has_state wants;
        updated = checked_task;
      }
    ]
  ]
