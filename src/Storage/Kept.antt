-- ===== src/Storage/Kept.antt =====
-- Rows whose status and owner are kept by a write (crates/turul-a2a/src/storage/in_memory.rs).
use turul_a2a.Prelude.{
  ◌≡◌, ◌≢◌, refl, String, Bool, true, false, some, arith, Bool-cases, inl, inr, ok, ◌∙◌,
}
use turul_a2a.TaskState.{TaskState, A2aTypeError, is_terminal, validate_transition}
use turul_a2a.Message.{Artifact}
use turul_a2a.Task.{Task, TaskStatus, task_state}
use turul_a2a.Storage.State.{
  Store, StoredTask, TaskKey, task_key, task_key_eq, task_key_eq_iff, StorageError,
}
use turul_a2a.Storage.Action.{key}
use turul_a2a.Storage.Tasks.{put_task, Checked, check_update, with_artifact}
use turul_a2a.Storage.Atomic.{open_task}
use turul_a2a.Storage.Reads.{row_of, row_of-put_task, open_task-row, check_update-IsChecked}

-- The row of a key in `t`, with the status and the owner of `row`.
pub record IsKept (t : Store) (k : TaskKey) (row : StoredTask) : Type 0 where
  pub kept : StoredTask
  pub there : row_of t k ≡ some kept
  pub same_status : (kept.task).status ≡ (row.task).status
  pub same_owner : kept.owner ≡ row.owner

-- A row in a terminal state.
pub record IsOver (s : Store) (k : TaskKey) (row : StoredTask) : Type 0 where
  pub there : row_of s k ≡ some row
  pub state : TaskState
  pub has_state : task_state row.task ≡ some state
  pub over : is_terminal state ≡ true

pub still : (s : Store) (k : TaskKey) (row : StoredTask) → row_of s k ≡ some row → IsKept s k row
still s k row h = record { kept = row; there = h; same_status = refl; same_owner = refl }

-- A write of a row that has the status and the owner of the row it replaces.
pub put-IsKept :
    (s : Store) (k j : TaskKey) (row old new : StoredTask)
    → row_of s k ≡ some row
    → row_of s j ≡ some old
    → (new.task).status ≡ (old.task).status
    → new.owner ≡ old.owner
    → IsKept (put_task j new s) k row
put-IsKept s k j row old new h g status owner = elim (Bool-cases (task_key_eq j k)) [
  | inl e ↦
      let same = (task_key_eq_iff j k).0 e in
      record {
        kept = new;
        there = row_of-put_task s j k new ∙ ground arith;
        same_status = ground arith;
        same_owner = ground arith;
      }
  | inr e ↦ record {
    kept = row;
    there = row_of-put_task s j k new ∙ ground arith;
    same_status = refl;
    same_owner = refl;
  }
]

-- A write to another key.
pub put_elsewhere :
    (s : Store) (k j : TaskKey) (row new : StoredTask)
    → row_of s k ≡ some row
    → j ≢ k
    → IsKept (put_task j new s) k row
put_elsewhere s k j row new h apart = record {
  kept = row;
  there = row_of-put_task s j k new ∙ ground (arith, task_key_eq_iff j k);
  same_status = refl;
  same_owner = refl;
}

-- A store with the same tasks.
pub same_tasks :
    (t u : Store) (k : TaskKey) (row : StoredTask)
    → u.tasks ≡ t.tasks
    → IsKept t k row
    → IsKept u k row
same_tasks t u k row same a = record {
  kept = a.kept;
  there = ground (arith, a.there);
  same_status = a.same_status;
  same_owner = a.same_owner;
}

pub with_artifact-status :
    (artifact : Artifact) (append : Bool) (task : Task)
    → (with_artifact artifact append task).status ≡ task.status
unfolding with_artifact
with_artifact-status artifact true task = ground arith
with_artifact-status artifact false task = ground arith

no_exit : (a b : TaskState) → is_terminal a ≡ true → validate_transition a b ≢ ok tt
unfolding is_terminal validate_transition
no_exit a b t h = ground arith

-- The checks pass for another task than one that is over.
pub check_update-elsewhere :
    (report : String → A2aTypeError → StorageError) (tenant id owner : String) (status : TaskStatus)
    (s : Store) (c : Checked) (k : TaskKey) (row : StoredTask)
    → check_update report tenant id owner status s ≡ ok c
    → IsOver s k row
    → key tenant id ≢ k
check_update-elsewhere report tenant id owner status s c k row h over e =
    let checked = check_update-IsChecked report tenant id owner status s c h in
    no_exit checked.current checked.requested
      (ground (arith, checked.present, checked.has_state, over.there, over.has_state, over.over))
      checked.allowed

open_task-open :
    (tenant id owner : String) (s : Store) (old : StoredTask) (state : TaskState)
    → open_task tenant id owner s ≡ ok old
    → task_state old.task ≡ some state
    → is_terminal state ≡ false
unfolding open_task
open_task-open tenant id owner s old state h g = ground arith

pub open_task-elsewhere :
    (tenant id owner : String) (s : Store) (old : StoredTask) (k : TaskKey) (row : StoredTask)
    → open_task tenant id owner s ≡ ok old
    → IsOver s k row
    → key tenant id ≢ k
open_task-elsewhere tenant id owner s old k row h over e = ground (
  arith,
  (open_task-row tenant id owner s old h).0,
  over.there,
  over.has_state,
  over.over,
  open_task-open tenant id owner s old over.state h,
)
