-- ===== src/Server/Sink/Races.antt =====
-- What the two writes of a sink learn from the store (crates/turul-a2a/src/event_sink.rs): a lost
-- race and an accepted terminal status both leave a row that is in a terminal state.
use turul_a2a.Prelude.{
  ℕ, pos, ◌≡◌, ◌≢◌, refl, String, true, Option, none, some, List, arith, Option-cases, Result-cases,
  inl, inr, ok, err, ◌∙◌, ap, subst,
}
use turul_a2a.TaskState.{
  TaskState, A2aTypeError, is_terminal, validate_transition, of_proto, to_proto, number, of_number,
}
use turul_a2a.Message.{Message}
use turul_a2a.Task.{
  Task, TaskStatus, task_state, task_status, status_state, status_new, status_try_from,
  proto_of_i32, set_status,
}
use turul_a2a.Streaming.{StreamEvent}
use turul_a2a.Storage.State.{Store, StoredTask, terminal_state_already_set, task_key}
use turul_a2a.Dict.{get-insert_self}
use turul_a2a.Storage.Named.{stamp_task-id}
use turul_a2a.Storage.Clock.{Environment, stamp_task}
use turul_a2a.Storage.Action.{key}
use turul_a2a.Storage.Tasks.{owned_task, find_task, check_update}
use turul_a2a.Storage.Atomic.{
  Committed, committed_row, cas_error, open_task, update_task_status_with_events,
  update_task_with_events,
}
use turul_a2a.Storage.Reads.{check_update-IsChecked, row_of, owned_task-row}
use turul_a2a.Storage.Kept.{IsOver}
use turul_a2a.Server.Sink.{with_message}

-- The row of a task is in a terminal state.
abbrev pub IsEnded : Store → String → String → Type 0
IsEnded s tenant id = (row : StoredTask) × IsOver s (key tenant id) row

owned_task-open :
    (tenant id owner t c : String) (s : Store)
    → owned_task tenant id owner s ≢ err (terminal_state_already_set t c)
unfolding owned_task find_task
owned_task-open tenant id owner t c s h = ground arith

transition-lost :
    (id t x : String) (a b : TaskState) (e : A2aTypeError)
    → validate_transition a b ≡ err e
    → cas_error id e ≡ terminal_state_already_set t x
    → is_terminal a ≡ true
unfolding validate_transition is_terminal cas_error
transition-lost id t x a b e h g = ground arith

-- A status whose state is the number of `state`, in a task.
proto_back :
    (state : TaskState) → proto_of_i32 (pos (number (to_proto state))) ≡ some (to_proto state)
unfolding proto_of_i32 of_number number to_proto
proto_back TaskState.submitted = refl
proto_back TaskState.working = refl
proto_back TaskState.completed = refl
proto_back TaskState.failed = refl
proto_back TaskState.canceled = refl
proto_back TaskState.input_required = refl
proto_back TaskState.rejected = refl
proto_back TaskState.auth_required = refl

state_back : (state : TaskState) → of_proto (to_proto state) ≡ ok state
unfolding of_proto to_proto
state_back TaskState.submitted = refl
state_back TaskState.working = refl
state_back TaskState.completed = refl
state_back TaskState.failed = refl
state_back TaskState.canceled = refl
state_back TaskState.input_required = refl
state_back TaskState.rejected = refl
state_back TaskState.auth_required = refl

try_back :
    (state : TaskState) (status : TaskStatus)
    → status.state ≡ pos (number (to_proto state))
    → status_try_from status ≡ ok status
unfolding status_try_from to_proto
try_back TaskState.submitted status h = rw (h, proto_back TaskState.submitted) refl
try_back TaskState.working status h = rw (h, proto_back TaskState.working) refl
try_back TaskState.completed status h = rw (h, proto_back TaskState.completed) refl
try_back TaskState.failed status h = rw (h, proto_back TaskState.failed) refl
try_back TaskState.canceled status h = rw (h, proto_back TaskState.canceled) refl
try_back TaskState.input_required status h = rw (h, proto_back TaskState.input_required) refl
try_back TaskState.rejected status h = rw (h, proto_back TaskState.rejected) refl
try_back TaskState.auth_required status h = rw (h, proto_back TaskState.auth_required) refl

task_state_back :
    (state : TaskState) (status : TaskStatus) (task : Task)
    → task.status ≡ some status
    → status.state ≡ pos (number (to_proto state))
    → task_state task ≡ some state
unfolding task_state task_status status_state
task_state_back state status task there h =
    ground (arith, try_back state status h, proto_back state, state_back state)

pub stamped_state :
    (now : ℕ) (state : TaskState) (message : Option Message) (task : Task)
    → task_state (stamp_task now (set_status (with_message message (status_new state)) task))
      ≡ some state
unfolding stamp_task set_status status_new
stamped_state now state none task = task_state_back state _ _ refl refl
stamped_state now state (some m) task = task_state_back state _ _ refl refl

module _ (s : Store) (tenant id : String) (row : StoredTask) (state : TaskState)
    (has_state : task_state row.task ≡ some state) where
  over_of : row_of s (key tenant id) ≡ some row → is_terminal state ≡ true → IsEnded s tenant id
  over_of there over =
      (row, record { there = there; state = state; has_state = has_state; over = over })

check_update-lost :
    (tenant id owner t x : String) (status : TaskStatus) (s : Store)
    → check_update cas_error tenant id owner status s ≡ err (terminal_state_already_set t x)
    → IsEnded s tenant id
unfolding check_update task_state
check_update-lost tenant id owner t x status s h =
    elim (Result-cases (owned_task tenant id owner s)) [
      | inl (e, r) ↦ absurd (owned_task-open tenant id owner t x s (ground (arith, r)))
      | inr (old, r) ↦ elim (Option-cases (task_status old.task)) [
        | inl missing ↦ absurd (ground (arith, r))
        | inr (st, has) ↦ elim (Result-cases (status_state st)) [
          | inl (e, fails) ↦ absurd (ground (arith, r))
          | inr (current, cur) ↦ elim (Result-cases (status_state status)) [
            | inl (e, fails) ↦ absurd (ground (arith, r))
            | inr (requested, req) ↦
                over_of s tenant id old current (ground arith)
                  (owned_task-row tenant id owner s old r).0
                  (elim (Result-cases (validate_transition current requested)) [
                    | inl (e, v) ↦ transition-lost id t x current requested e v (ground (arith, r))
                    | inr (u, v) ↦ absurd (ground (arith, r))
                  ])
          ]
        ]
      ]
    ]

open_task-lost :
    (tenant id owner t x : String) (s : Store)
    → open_task tenant id owner s ≡ err (terminal_state_already_set t x)
    → IsEnded s tenant id
unfolding open_task
open_task-lost tenant id owner t x s h = elim (Result-cases (owned_task tenant id owner s)) [
  | inl (e, r) ↦ absurd (owned_task-open tenant id owner t x s (ground (arith, r)))
  | inr (old, r) ↦ elim (Option-cases (task_state old.task)) [
    | inl missing ↦ absurd (ground (arith, r))
    | inr (current, has) ↦
        over_of s tenant id old current has (owned_task-row tenant id owner s old r).0
          (ground arith)
  ]
]

-- A status commit that lost the race leaves the store, in which the task has ended.
pub status-lost :
    (env : Environment) (now : ℕ) (tenant id owner t x : String) (status : TaskStatus)
    (events : List StreamEvent) (s : Store)
    → (update_task_status_with_events env now tenant id owner status events s).0
      ≡ err (terminal_state_already_set t x)
    → IsEnded (update_task_status_with_events env now tenant id owner status events s).1 tenant id
unfolding update_task_status_with_events
status-lost env now tenant id owner t x status events s h =
    elim (Result-cases (check_update cas_error tenant id owner status s)) [
      | inl (e, r) ↦ rw r (check_update-lost tenant id owner t x status s (ground (arith, r)))
      | inr (c, r) ↦ absurd (ground (arith, r))
    ]

pub task-lost :
    (env : Environment) (now : ℕ) (tenant owner t x : String) (task : Task)
    (events : List StreamEvent) (s : Store)
    → (update_task_with_events env now tenant owner task events s).0
      ≡ err (terminal_state_already_set t x)
    → IsEnded (update_task_with_events env now tenant owner task events s).1 tenant task.id
unfolding update_task_with_events
task-lost env now tenant owner t x task events s h =
    elim (Result-cases (open_task tenant (stamp_task now task).id owner s)) [
      | inl (e, r) ↦ rw r (
          subst (IsEnded s tenant) (stamp_task-id now task)
            (open_task-lost tenant _ owner t x s (ground (arith, r))))
      | inr (old, r) ↦ absurd (ground (arith, r))
    ]

-- A terminal status that was committed leaves the task ended.
pub status-won :
    (env : Environment) (now : ℕ) (tenant id owner : String) (state : TaskState)
    (message : Option Message) (events : List StreamEvent) (s : Store) (c : Committed)
    → is_terminal state ≡ true
    → (update_task_status_with_events env now tenant id owner
        (with_message message (status_new state))
        events
        s).0
      ≡ ok c
    → IsEnded
        (update_task_status_with_events env now tenant id owner
          (with_message message (status_new state))
          events
          s).1
        tenant
        id
unfolding update_task_status_with_events committed_row
status-won env now tenant id owner state message events s c over h =
    elim (Result-cases
      (check_update cas_error tenant id owner (with_message message (status_new state)) s)) [
        | inl (e, r) ↦ absurd (ground (arith, r))
        | inr (c', r) ↦ rw r (
            over_of _ tenant id _ state
              (ap (λ t. task_state (stamp_task now t))
                  (check_update-IsChecked cas_error tenant id owner _ s c' r).updated
                ∙ stamped_state now state message (c'.stored).task)
              (get-insert_self s.tasks (key tenant id) _) over)
      ]
