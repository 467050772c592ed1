-- ===== src/TaskState.antt =====
-- The task lifecycle: `TaskState` and its conversions (crates/turul-a2a-types/src/task.rs), the
-- transition rules (crates/turul-a2a-types/src/state_machine.rs) and the error type of that crate
-- (crates/turul-a2a-types/src/error.rs). The proto enum is that of
-- crates/turul-a2a-proto/proto/a2a.proto.
pub mod Lifecycle
use turul_a2a.Prelude.{
  ℕ, zero, suc, String, Bool, true, false, Option, none, some, List, [], ◌∷◌, Result, ok, err, any,
  ◌==◌, ◌||◌, if◌then◌else◌, and_then, ok_or, to_option,
}

pub data TaskState : Type 0 where
  submitted working completed failed canceled input_required rejected auth_required : TaskState

-- `pb::TaskState`, the enum of the proto file.
pub data ProtoTaskState : Type 0 where
  unspecified : ProtoTaskState
  submitted working completed failed : ProtoTaskState
  canceled input_required rejected auth_required : ProtoTaskState

pub data A2aTypeError : Type 0 where
  invalid_transition : TaskState → TaskState → A2aTypeError
  terminal_state : TaskState → A2aTypeError
  invalid_state : A2aTypeError
  missing_field : String → A2aTypeError
  deserialization : String → A2aTypeError

-- `TryFrom<pb::TaskState> for TaskState`
unfoldable pub of_proto : ProtoTaskState → Result A2aTypeError TaskState
of_proto ProtoTaskState.submitted = ok TaskState.submitted
of_proto ProtoTaskState.working = ok TaskState.working
of_proto ProtoTaskState.completed = ok TaskState.completed
of_proto ProtoTaskState.failed = ok TaskState.failed
of_proto ProtoTaskState.canceled = ok TaskState.canceled
of_proto ProtoTaskState.input_required = ok TaskState.input_required
of_proto ProtoTaskState.rejected = ok TaskState.rejected
of_proto ProtoTaskState.auth_required = ok TaskState.auth_required
of_proto ProtoTaskState.unspecified = err invalid_state

-- `From<TaskState> for pb::TaskState`
unfoldable pub to_proto : TaskState → ProtoTaskState
to_proto TaskState.submitted = ProtoTaskState.submitted
to_proto TaskState.working = ProtoTaskState.working
to_proto TaskState.completed = ProtoTaskState.completed
to_proto TaskState.failed = ProtoTaskState.failed
to_proto TaskState.canceled = ProtoTaskState.canceled
to_proto TaskState.input_required = ProtoTaskState.input_required
to_proto TaskState.rejected = ProtoTaskState.rejected
to_proto TaskState.auth_required = ProtoTaskState.auth_required

-- The wire number of a proto enum value, and back.
unfoldable pub number : ProtoTaskState → ℕ
number ProtoTaskState.unspecified = 0
number ProtoTaskState.submitted = 1
number ProtoTaskState.working = 2
number ProtoTaskState.completed = 3
number ProtoTaskState.failed = 4
number ProtoTaskState.canceled = 5
number ProtoTaskState.input_required = 6
number ProtoTaskState.rejected = 7
number ProtoTaskState.auth_required = 8

unfoldable pub of_number : ℕ → Option ProtoTaskState
of_number n =
    if n == 0
    then some ProtoTaskState.unspecified
    else if n == 1
    then some ProtoTaskState.submitted
    else if n == 2
    then some ProtoTaskState.working
    else if n == 3
    then some ProtoTaskState.completed
    else if n == 4
    then some ProtoTaskState.failed
    else if n == 5
    then some ProtoTaskState.canceled
    else if n == 6
    then some ProtoTaskState.input_required
    else if n == 7
    then some ProtoTaskState.rejected
    else if n == 8
    then some ProtoTaskState.auth_required
    else none

-- The name of a proto enum value (`as_str_name`), and back (`from_str_name`).
unfoldable pub wire_name : TaskState → String
wire_name TaskState.submitted = "TASK_STATE_SUBMITTED"
wire_name TaskState.working = "TASK_STATE_WORKING"
wire_name TaskState.completed = "TASK_STATE_COMPLETED"
wire_name TaskState.failed = "TASK_STATE_FAILED"
wire_name TaskState.canceled = "TASK_STATE_CANCELED"
wire_name TaskState.input_required = "TASK_STATE_INPUT_REQUIRED"
wire_name TaskState.rejected = "TASK_STATE_REJECTED"
wire_name TaskState.auth_required = "TASK_STATE_AUTH_REQUIRED"

-- The requests that each state accepts.
unfoldable pub validate_transition : TaskState → TaskState → Result A2aTypeError Unit
validate_transition TaskState.submitted TaskState.working = ok tt
validate_transition TaskState.submitted TaskState.rejected = ok tt
validate_transition TaskState.submitted TaskState.failed = ok tt
validate_transition TaskState.submitted TaskState.canceled = ok tt
validate_transition TaskState.submitted to = err (invalid_transition TaskState.submitted to)
validate_transition TaskState.working TaskState.completed = ok tt
validate_transition TaskState.working TaskState.failed = ok tt
validate_transition TaskState.working TaskState.canceled = ok tt
validate_transition TaskState.working TaskState.rejected = ok tt
validate_transition TaskState.working TaskState.input_required = ok tt
validate_transition TaskState.working TaskState.auth_required = ok tt
validate_transition TaskState.working to = err (invalid_transition TaskState.working to)
validate_transition TaskState.input_required TaskState.working = ok tt
validate_transition TaskState.input_required TaskState.completed = ok tt
validate_transition TaskState.input_required TaskState.failed = ok tt
validate_transition TaskState.input_required TaskState.canceled = ok tt
validate_transition TaskState.input_required TaskState.rejected = ok tt
validate_transition TaskState.input_required to =
    err (invalid_transition TaskState.input_required to)
validate_transition TaskState.auth_required TaskState.working = ok tt
validate_transition TaskState.auth_required TaskState.failed = ok tt
validate_transition TaskState.auth_required TaskState.canceled = ok tt
validate_transition TaskState.auth_required TaskState.rejected = ok tt
validate_transition TaskState.auth_required to = err (invalid_transition TaskState.auth_required to)
validate_transition TaskState.completed to = err (terminal_state TaskState.completed)
validate_transition TaskState.failed to = err (terminal_state TaskState.failed)
validate_transition TaskState.canceled to = err (terminal_state TaskState.canceled)
validate_transition TaskState.rejected to = err (terminal_state TaskState.rejected)

-- `==` of the derived `PartialEq`.
unfoldable pub state_eq : TaskState → TaskState → Bool
state_eq TaskState.submitted TaskState.submitted = true
state_eq TaskState.working TaskState.working = true
state_eq TaskState.completed TaskState.completed = true
state_eq TaskState.failed TaskState.failed = true
state_eq TaskState.canceled TaskState.canceled = true
state_eq TaskState.input_required TaskState.input_required = true
state_eq TaskState.rejected TaskState.rejected = true
state_eq TaskState.auth_required TaskState.auth_required = true
state_eq _ _ = false

abbrev pub terminal_states : List TaskState
terminal_states =
    TaskState.completed ∷ TaskState.failed ∷ TaskState.canceled ∷ TaskState.rejected ∷ []

abbrev pub executor_held_states : List TaskState
executor_held_states = TaskState.submitted ∷ TaskState.working ∷ []

abbrev pub client_held_states : List TaskState
client_held_states = TaskState.input_required ∷ TaskState.auth_required ∷ []

-- `LIST.contains(&state)`
unfoldable pub contains : List TaskState → TaskState → Bool
unfolding state_eq
contains states s = any (λ t. state_eq t s) states

unfoldable pub is_terminal : TaskState → Bool
unfolding contains
is_terminal s = contains terminal_states s

unfoldable pub can_transition_to : TaskState → TaskState → Bool
unfolding validate_transition
can_transition_to from to = elim (validate_transition from to) [ ok _ ↦ true | err _ ↦ false ]
