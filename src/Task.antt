-- ===== src/Task.antt =====
-- `TaskStatus` and `Task` (crates/turul-a2a-types/src/task.rs). The wrappers of that file hold a
-- proto message and nothing else, so they are that message here.
use turul_a2a.Prelude.{
  ◌-◌, String, Bool, true, false, Option, none, some, List, [], ◌∷◌, ◌++◌, Result, ok, err,
  and_then, ok_or, to_option, ℤ, pos, negsuc, str_eq, if◌then◌else◌, length, drop,
}
use turul_a2a.TaskState.{
  TaskState, ProtoTaskState, A2aTypeError, invalid_state, missing_field, of_proto, to_proto, number,
  of_number,
}
use turul_a2a.Message.{Message, Artifact, Timestamp, Fields}

pub record TaskStatus : Type 0 where
  pub state : ℤ  -- the open proto enum, an i32
  pub message : Option Message
  pub timestamp : Option Timestamp

pub record Task : Type 0 where
  pub id : String
  pub context_id : String
  pub status : Option TaskStatus
  pub artifacts : List Artifact
  pub history : List Message
  pub metadata : Option Fields

-- `pb::TaskState::try_from(i32)`
unfoldable pub proto_of_i32 : ℤ → Option ProtoTaskState
unfolding of_number
proto_of_i32 (pos n) = of_number n
proto_of_i32 (negsuc _) = none

-- `TaskStatus::new`
unfoldable pub status_new : TaskState → TaskStatus
unfolding to_proto number
status_new s = record { state = pos (number (to_proto s)); message = none; timestamp = none }

-- `TaskStatus::state`
unfoldable pub status_state : TaskStatus → Result A2aTypeError TaskState
unfolding proto_of_i32 of_proto
status_state status = and_then (ok_or (proto_of_i32 status.state) invalid_state) of_proto

-- The check that `TryFrom<pb::TaskStatus>` makes.
abbrev checked_state : ProtoTaskState → TaskStatus → Result A2aTypeError TaskStatus
checked_state ProtoTaskState.unspecified _ = err invalid_state
checked_state _ status = ok status

-- `TryFrom<pb::TaskStatus> for TaskStatus`
unfoldable pub status_try_from : TaskStatus → Result A2aTypeError TaskStatus
unfolding proto_of_i32
status_try_from status =
    and_then (ok_or (proto_of_i32 status.state) invalid_state) (λ p. checked_state p status)

-- `Task::new`
unfoldable pub task_new : String → TaskStatus → Task
task_new id status = record {
  id = id;
  context_id = "";
  status = some status;
  artifacts = [];
  history = [];
  metadata = none;
}

-- `Task::status`
unfoldable pub task_status : Task → Option TaskStatus
unfolding status_try_from
task_status task = elim task.status [ none ↦ none | some s ↦ to_option (status_try_from s) ]

-- `TryFrom<pb::Task> for Task`
unfoldable pub task_try_from : Task → Result A2aTypeError Task
unfolding status_try_from
task_try_from task =
    if str_eq task.id ""
    then err (missing_field "id")
    else and_then (ok_or task.status (missing_field "status"))
        (λ s. and_then (status_try_from s) (λ _. ok task))

-- `task.status().and_then(|s| s.state().ok())`, the state that the storage decides on.
unfoldable pub task_state : Task → Option TaskState
unfolding task_status status_state
task_state task = elim (task_status task) [ none ↦ none | some s ↦ to_option (status_state s) ]

-- `Task::set_status`
unfoldable pub set_status : TaskStatus → Task → Task
set_status status task = record task { status = some status }

-- `Task::append_message`
unfoldable pub append_message : Message → Task → Task
append_message message task = record task { history = task.history ++ message ∷ [] }

-- `Task::append_artifact`
unfoldable pub append_artifact : Artifact → Task → Task
append_artifact artifact task = record task { artifacts = task.artifacts ++ artifact ∷ [] }

-- `iter_mut().find(|a| a.artifact_id == id)` and `existing.parts.extend(parts)`: the first artifact
-- with the id gets the parts; `none` when there is none.
unfoldable pub extend_first : Artifact → List Artifact → Option (List Artifact)
extend_first new [] = none
extend_first new (a ∷ rest) =
    let later = extend_first new rest in
    if str_eq a.artifact_id new.artifact_id
    then some (record a { parts = a.parts ++ new.parts } ∷ rest)
    else elim later [ none ↦ none | some rest' ↦ some (a ∷ rest') ]

-- `Task::merge_artifact`; the `last_chunk` flag is not used.
unfoldable pub merge_artifact : Artifact → Bool → Bool → Task → Task
unfolding extend_first append_artifact
merge_artifact artifact false _ task = append_artifact artifact task
merge_artifact artifact true _ task = elim (extend_first artifact task.artifacts) [
  | none ↦ append_artifact artifact task
  | some artifacts ↦ record task { artifacts = artifacts }
]

-- `storage::trim_history`: a count that is no `usize` (a negative one) keeps everything.
unfoldable pub trim_history : Task → Option ℤ → Task
trim_history task none = task
trim_history task (some (negsuc _)) = task
trim_history task (some (pos n)) = record task {
  history = drop (length task.history - n) task.history;
}
