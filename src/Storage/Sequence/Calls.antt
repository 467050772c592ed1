-- ===== src/Storage/Sequence/Calls.antt =====
-- The calls that write tasks and events keep the invariant of `Sequence.WellFormed`
-- (crates/turul-a2a/src/storage/in_memory.rs).
use turul_a2a.Prelude.{
  ℕ, ◌+◌, ◌≤◌, ◌≡◌, refl, String, Bool, some, List, arith, length, Bool-cases, Option-cases, inl,
  inr, Result-cases, str_eq, ap,
}
use turul_a2a.Streaming.{StreamEvent}
use turul_a2a.Task.{Task, TaskStatus}
use turul_a2a.Message.{Message, Artifact}
use turul_a2a.Storage.State.{Store, StoredTask, TaskKey, task_key}
use turul_a2a.Storage.Clock.{Environment, stamp_task, stamp_events}
use turul_a2a.Storage.Action.{key}
use turul_a2a.Storage.Tasks.{
  create_task, update_task, delete_task, update_task_status, store_message, store_artifact,
  set_cancel_requested, put_task, replaced, owned_task, check_update, transition_error, cancelable,
}
use turul_a2a.Storage.Events.{append_event, append_events, counter_of, log_of, Appended}
use turul_a2a.Storage.Atomic.{
  create_task_with_events, update_task_status_with_events, update_task_with_events, commit,
  committed_row, unmarked, cas_error, open_task, push_marked, max_with, max_or_zero,
}
use turul_a2a.Storage.Reads.{
  row_of, floor_of-row, owned_task-row, cancelable-row, open_task-row, check_update-IsChecked,
}
use turul_a2a.Storage.Sequence.{
  Ascending, Ascending-snoc, append_loop-Ascending, append_loop-counter, append_loop-sequences,
  max_with-upto, upto,
}
use turul_a2a.Storage.Sequence.WellFormed.{
  IsWellFormed, put_task-IsWellFormed, commit-IsWellFormed, write_log-IsWellFormed,
  IsShrunk-IsWellFormed, remove_task-IsShrunk,
}

-- A row that keeps the floor of the row that it replaces.
pub put_row-IsWellFormed :
    (s : Store) (k : TaskKey) (old row : StoredTask)
    → row_of s k ≡ some old
    → row.latest_event_sequence ≡ old.latest_event_sequence
    → IsWellFormed s
    → IsWellFormed (put_task k row s)
put_row-IsWellFormed s k old row here same w =
    put_task-IsWellFormed s k row (omega (arith, w.floored k, floor_of-row s k old here)) w

module _ (marked : StreamEvent → Bool) (now : ℕ) (owner : String) (k : TaskKey)
    (events : List StreamEvent) (s : Store) where
  abbrev appended : Appended
  appended = append_events marked now owner k events s

  appended-Ascending : IsWellFormed s → Ascending 0 appended.counter appended.log
  unfolding append_events
  appended-Ascending w = append_loop-Ascending marked now owner k 0 events _ (w.logged k)

  appended-counter : appended.counter ≡ counter_of s k + length events
  unfolding append_events
  appended-counter = append_loop-counter marked now owner k events _

  appended-sequences : appended.sequences ≡ upto (counter_of s k) (length events)
  unfolding append_events
  appended-sequences = append_loop-sequences marked now owner k events _

  -- A commit whose row has the floor `prev` raised to the new numbers.
  commit_events-IsWellFormed :
      (row : StoredTask) (prev : ℕ)
      → prev ≤ counter_of s k
      → row.latest_event_sequence ≡ max_with appended.sequences prev
      → IsWellFormed s
      → IsWellFormed (commit k appended row s)
  commit_events-IsWellFormed row prev low raised w =
      commit-IsWellFormed s k appended row (appended-Ascending w) (omega (arith, appended-counter))
        (omega (
          arith,
          raised,
          appended-counter,
          ap (λ ns. max_with ns prev) appended-sequences,
          max_with-upto (counter_of s k) (length events) prev low,
        ))
        w

max_or_zero-with : (ns : List ℕ) → max_or_zero ns ≡ max_with ns 0
max_or_zero-with ns = ground arith

module _ (s : Store) (w : IsWellFormed s) where
  pub update_task_status-IsWellFormed :
      (now : ℕ) (tenant id owner : String) (status : TaskStatus)
      → IsWellFormed (update_task_status now tenant id owner status s).1
  unfolding update_task_status replaced
  update_task_status-IsWellFormed now tenant id owner status =
      elim (Result-cases (check_update transition_error tenant id owner status s)) [
        | inl (e, r) ↦ rw r w
        | inr (c, r) ↦ rw r (
            put_row-IsWellFormed s (key tenant id) c.stored _
              (check_update-IsChecked transition_error tenant id owner status s c r).present refl w)
      ]

  pub store_message-IsWellFormed :
      (tenant id owner : String) (message : Message)
      → IsWellFormed (store_message tenant id owner message s).1
  unfolding store_message
  store_message-IsWellFormed tenant id owner message =
      elim (Result-cases (owned_task tenant id owner s)) [
        | inl (e, r) ↦ rw r w
        | inr (row, r) ↦ rw r (
            put_row-IsWellFormed s (key tenant id) row _ (owned_task-row tenant id owner s row r).0
              refl w)
      ]

  pub store_artifact-IsWellFormed :
      (now : ℕ) (tenant id owner : String) (artifact : Artifact) (append last : Bool)
      → IsWellFormed (store_artifact now tenant id owner artifact append last s).1
  unfolding store_artifact
  store_artifact-IsWellFormed now tenant id owner artifact append last =
      elim (Result-cases (owned_task tenant id owner s)) [
        | inl (e, r) ↦ rw r w
        | inr (row, r) ↦ rw r (
            put_row-IsWellFormed s (key tenant id) row _ (owned_task-row tenant id owner s row r).0
              refl w)
      ]

  pub set_cancel_requested-IsWellFormed :
      (tenant id owner : String) → IsWellFormed (set_cancel_requested tenant id owner s).1
  unfolding set_cancel_requested
  set_cancel_requested-IsWellFormed tenant id owner =
      elim (Result-cases (cancelable tenant id owner s)) [
        | inl (e, r) ↦ rw r w
        | inr (row, r) ↦ rw r (
            put_row-IsWellFormed s (key tenant id) row _ (cancelable-row tenant id owner s row r).0
              refl w)
      ]

  pub update_task-IsWellFormed :
      (now : ℕ) (tenant owner : String) (task : Task)
      → IsWellFormed (update_task now tenant owner task s).1
  unfolding update_task replaced
  update_task-IsWellFormed now tenant owner task =
      let id = (stamp_task now task).id in
      elim (Result-cases (owned_task tenant (stamp_task now task).id owner s)) [
        | inl (e, r) ↦ rw r w
        | inr (row, r) ↦ rw r (
            put_row-IsWellFormed s (key tenant (stamp_task now task).id) row _
              (owned_task-row tenant (stamp_task now task).id owner s row r).0 refl w)
      ]

  pub create_task-IsWellFormed :
      (now : ℕ) (tenant owner : String) (task : Task)
      → IsWellFormed (create_task now tenant owner task s).1
  unfolding create_task
  create_task-IsWellFormed now tenant owner task =
      put_task-IsWellFormed s (key tenant (stamp_task now task).id) _ (omega arith) w

  pub delete_task-IsWellFormed :
      (tenant id owner : String) → IsWellFormed (delete_task tenant id owner s).1
  unfolding delete_task
  delete_task-IsWellFormed tenant id owner = elim (Option-cases (row_of s (key tenant id))) [
    | inl e ↦ rw (e, delete_task) w
    | inr (row, e) ↦
        rw (e, delete_task)
          (elim (Bool-cases (str_eq row.owner owner)) [
            | inl o ↦ rw o (IsShrunk-IsWellFormed s _ (remove_task-IsShrunk s (key tenant id)) w)
            | inr o ↦ rw o w
          ])
  ]

  pub update_task_status_with_events-IsWellFormed :
      (env : Environment) (now : ℕ) (tenant id owner : String) (status : TaskStatus)
      (events : List StreamEvent)
      → IsWellFormed (update_task_status_with_events env now tenant id owner status events s).1
  unfolding update_task_status_with_events committed_row
  update_task_status_with_events-IsWellFormed env now tenant id owner status events =
      elim (Result-cases (check_update cas_error tenant id owner status s)) [
        | inl (e, r) ↦ rw r w
        | inr (c, r) ↦
            let here = (check_update-IsChecked cas_error tenant id owner status s c r).present in
            rw r (
              commit_events-IsWellFormed (push_marked env s (key tenant id)) now owner
                (key tenant id) (stamp_events env now c.task events) s _
                (c.stored).latest_event_sequence
                (omega
                  (arith, w.floored (key tenant id), floor_of-row s (key tenant id) c.stored here))
                refl w)
      ]

  pub update_task_with_events-IsWellFormed :
      (env : Environment) (now : ℕ) (tenant owner : String) (task : Task)
      (events : List StreamEvent)
      → IsWellFormed (update_task_with_events env now tenant owner task events s).1
  unfolding update_task_with_events committed_row
  update_task_with_events-IsWellFormed env now tenant owner task events =
      elim (Result-cases (open_task tenant (stamp_task now task).id owner s)) [
        | inl (e, r) ↦ rw r w
        | inr (row, r) ↦
            let k = key tenant (stamp_task now task).id in
            let here = (open_task-row tenant (stamp_task now task).id owner s row r).0 in
            rw r (
              commit_events-IsWellFormed unmarked now owner k (stamp_events env now task events) s _
                row.latest_event_sequence (omega (arith, w.floored k, floor_of-row s k row here))
                refl w)
      ]

  pub create_task_with_events-IsWellFormed :
      (env : Environment) (now : ℕ) (tenant owner : String) (task : Task)
      (events : List StreamEvent)
      → IsWellFormed (create_task_with_events env now tenant owner task events s).1
  unfolding create_task_with_events
  create_task_with_events-IsWellFormed env now tenant owner task events =
      commit_events-IsWellFormed unmarked now owner (key tenant (stamp_task now task).id)
        (stamp_events env now task events) s _ 0 (omega arith) (max_or_zero-with _) w

  pub append_event-IsWellFormed :
      (now : ℕ) (tenant id : String) (event : StreamEvent)
      → IsWellFormed (append_event now tenant id event s).1
  unfolding append_event
  append_event-IsWellFormed now tenant id event =
      let k = key tenant id in
      write_log-IsWellFormed s k (counter_of s k + 1) _
        (Ascending-snoc 0 (counter_of s k) (log_of s k)
          (record { sequence = counter_of s k + 1; event = event; appended_at = now }) (w.logged k)
          (omega arith))
        (omega arith) w
