-- ===== src/Storage/Marks.antt =====
-- The pending dispatches that a status update leaves for the push dispatcher
-- (`update_task_status_with_events` of crates/turul-a2a/src/storage/in_memory.rs).
use turul_a2a.Prelude.{◌⊎◌, ◌≡◌, true, some, List, [], ◌∷◌}
use turul_a2a.TaskState.{TaskState, is_terminal}
use turul_a2a.Streaming.{StreamEvent, StatusUpdatePayload, status_update, event_state}
use turul_a2a.Storage.State.{
  Store, TaskKey, LogEntry, EventLog, PendingDispatchKey, pending_key, PushConfigKey,
  StoredPushConfig,
}
use turul_a2a.Storage.Clock.{Environment}

-- An event that is a status update to a terminal state.
pub record IsFinal (env : Environment) (event : StreamEvent) : Type 0 where
  pub payload : StatusUpdatePayload
  pub state : TaskState
  pub is_update : event ≡ status_update payload
  pub decoded : event_state env.decode_status event ≡ some state
  pub ends : is_terminal state ≡ true

-- One of the entries of a list.
abbrev pub Some : {A : Type 0} → (A → Type 0) → List A → Type 0
Some P [] = ⊥
Some P (x ∷ xs) = P x ⊎ Some P xs

-- The pending dispatch `p` is due: push is on, a push configuration of the task is registered, and
-- `p` is the place of a final event of the batch.
pub record IsDue (env : Environment) (s : Store) (k : TaskKey) (batch : EventLog)
    (p : PendingDispatchKey) : Type 0 where
  pub enabled : s.push_dispatch_enabled ≡ true
  pub registered :
      Some
        (λ (entry : PushConfigKey × StoredPushConfig).
          ((entry.0).tenant ≡ k.tenant) × ((entry.0).task_id ≡ k.task_id))
        s.push_configs.entries
  pub final :
      Some
        (λ (e : LogEntry).
          IsFinal env e.event
          × (record { tenant = k.tenant; task_id = k.task_id; event_sequence = e.sequence } ≡ p))
        batch

module _ (env : Environment) (s : Store) (k : TaskKey) where
  -- A push configuration of the task is registered.
  abbrev IsRegistered : Type 0
  IsRegistered =
      Some
        (λ (entry : PushConfigKey × StoredPushConfig).
          ((entry.0).tenant ≡ k.tenant) × ((entry.0).task_id ≡ k.task_id))
        s.push_configs.entries

  abbrev IsPlace : PendingDispatchKey → LogEntry → Type 0
  IsPlace p e =
      IsFinal env e.event
      × (record { tenant = k.tenant; task_id = k.task_id; event_sequence = e.sequence } ≡ p)
