-- ===== src/Storage/Atomic.antt =====
-- `impl A2aAtomicStore for InMemoryA2aStorage` (crates/turul-a2a/src/storage/in_memory.rs). Each
-- method holds its locks from its first read to its last write, so it is one action.
use turul_a2a.Prelude.{
  ℕ, String, Bool, false, Option, none, some, List, [], ◌∷◌, Result, ok, err, and_then, any, max,
  str_eq, ◌&&◌, if◌then◌else◌,
}
use turul_a2a.TaskState.{A2aTypeError, is_terminal, wire_name}
use turul_a2a.Task.{Task, TaskStatus, task_state}
use turul_a2a.Streaming.{StreamEvent, event_is_terminal, is_status_update}
use turul_a2a.Dict.{insert}
use turul_a2a.Storage.State.{
  Store, StoredTask, TaskKey, task_key, PushConfigKey, StoredPushConfig, StorageError,
  invalid_transition, terminal_state_already_set, type_error,
}
use turul_a2a.Storage.Clock.{Environment, now_iso, stamp_task, stamp_events}
use turul_a2a.Storage.Action.{Action, ◌>>=◌, ◌>>◌, pure, decides, reads, writes, key}
use turul_a2a.Storage.Tasks.{owned_task, check_update}
use turul_a2a.Storage.Events.{Appended, append_events}

-- `sequences.iter().copied().max()`
unfoldable pub max_of : List ℕ → Option ℕ
max_of [] = none
max_of (n ∷ ns) = elim (max_of ns) [ none ↦ some n | some m ↦ some (max n m) ]

-- `.max().unwrap_or(0)`, and `.max().map(|m| m.max(prev)).unwrap_or(prev)`
abbrev pub max_or_zero : List ℕ → ℕ
max_or_zero ns = elim (max_of ns) [ none ↦ 0 | some m ↦ m ]

abbrev pub max_with : List ℕ → ℕ → ℕ
max_with ns prev = elim (max_of ns) [ none ↦ prev | some m ↦ max m prev ]

-- The writes of a commit: the log, the counter and the pending dispatches that the loop left, and
-- the task row.
abbrev pub commit : TaskKey → Appended → StoredTask → Store → Store
commit k a row s = record s {
  events = insert s.events k a.log;
  event_counters = insert s.event_counters k a.counter;
  pending_dispatches = a.pending;
  tasks = insert s.tasks k row;
}

-- A task and the sequence numbers of the events committed with it.
pub record Committed : Type 0 where
  pub task : Task
  pub sequences : List ℕ

-- No event of `create_task_with_events` or `update_task_with_events` leaves a pending dispatch.
abbrev pub unmarked : StreamEvent → Bool
unmarked _ = false

unfoldable pub create_task_with_events :
    Environment → ℕ → String → String → Task → List StreamEvent → Action Committed
create_task_with_events env now tenant owner task events = do
  let stamped_task = stamp_task now task
  let k = key tenant stamped_task.id
  appended ← reads (append_events unmarked now owner k (stamp_events env now task events))
  writes (
      commit k appended (record {
        tenant = tenant;
        owner = owner;
        task = stamped_task;
        updated_at = now_iso now;
        cancel_requested = false;
        lease_expires_at = none;
        latest_event_sequence = max_or_zero appended.sequences;
      }))
  pure (record { task = stamped_task; sequences = appended.sequences })

-- A terminal state in the row means that another writer won the race.
unfoldable pub cas_error : String → A2aTypeError → StorageError
unfolding wire_name
cas_error task_id (A2aTypeError.invalid_transition current requested) =
    invalid_transition task_id current requested
cas_error task_id (A2aTypeError.terminal_state s) = terminal_state_already_set task_id (wire_name s)
cas_error task_id other = type_error other

-- Whether a push config exists for the task.
unfoldable pub has_configs : Store → TaskKey → Bool
has_configs s k =
    any
      (λ (entry : PushConfigKey × StoredPushConfig).
        str_eq (entry.0).tenant k.tenant && str_eq (entry.0).task_id k.task_id)
      s.push_configs.entries

-- The events that leave a pending dispatch: with push on, terminal status updates of a task that
-- has a config.
unfoldable pub push_marked : Environment → Store → TaskKey → StreamEvent → Bool
unfolding has_configs event_is_terminal
push_marked env s k event =
    s.push_dispatch_enabled
    && (event_is_terminal env.decode_status event && (is_status_update event && has_configs s k))

-- The row after a commit: the markers kept, the floor raised to the last new sequence number.
unfoldable pub committed_row : ℕ → String → String → Task → StoredTask → List ℕ → StoredTask
unfolding max_of
committed_row now tenant owner task stored sequences = record {
  tenant = tenant;
  owner = owner;
  task = task;
  updated_at = now_iso now;
  cancel_requested = stored.cancel_requested;
  lease_expires_at = stored.lease_expires_at;
  latest_event_sequence = max_with sequences stored.latest_event_sequence;
}

unfoldable pub update_task_status_with_events :
    Environment → ℕ → String → String → String → TaskStatus → List StreamEvent → Action Committed
update_task_status_with_events env now tenant task_id owner new_status events = do
  let k = key tenant task_id
  checked ← decides (check_update cas_error tenant task_id owner new_status)
  let updated_task = stamp_task now checked.task
  appended ← reads (λ s.
      append_events (push_marked env s k) now owner k (stamp_events env now checked.task events) s)
  writes (
      commit k appended
        (committed_row now tenant owner updated_task checked.stored appended.sequences))
  pure (record { task = updated_task; sequences = appended.sequences })

-- The row that a full replacement may touch: of this owner, and not terminal.
unfoldable pub open_task : String → String → String → Store → Result StorageError StoredTask
unfolding owned_task wire_name
open_task tenant task_id owner s = and_then (owned_task tenant task_id owner s) (λ stored.
    elim (task_state stored.task) [
      | none ↦ ok stored
      | some state ↦
          if is_terminal state
          then err (terminal_state_already_set task_id (wire_name state))
          else ok stored
    ])

unfoldable pub update_task_with_events :
    Environment → ℕ → String → String → Task → List StreamEvent → Action (List ℕ)
update_task_with_events env now tenant owner task events = do
  let stamped_task = stamp_task now task
  let k = key tenant stamped_task.id
  stored ← decides (open_task tenant stamped_task.id owner)
  appended ← reads (append_events unmarked now owner k (stamp_events env now task events))
  writes (commit k appended (committed_row now tenant owner stamped_task stored appended.sequences))
  pure appended.sequences
