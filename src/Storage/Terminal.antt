-- ===== src/Storage/Terminal.antt =====
-- The single terminal writer (crates/turul-a2a/src/storage/in_memory.rs): once a task is in a
-- terminal state, no update moves its status.
use turul_a2a.Prelude.{
  ℕ, ℤ, ◌≡◌, refl, String, Bool, Option, some, List, [], ◌∷◌, arith, Option-cases, inl, inr,
  Result-cases, ◌∙◌,
}
use turul_a2a.Message.{Message, Artifact}
use turul_a2a.Task.{Task, TaskStatus, task_state, append_message}
use turul_a2a.Streaming.{StreamEvent}
use turul_a2a.Storage.State.{Store, StoredTask, TaskKey, task_key}
use turul_a2a.Storage.Clock.{Environment, stamp_task}
use turul_a2a.Storage.Action.{key}
use turul_a2a.Storage.Tasks.{
  owned_task, cancelable, check_update, transition_error, update_task_status, store_message,
  store_artifact, set_cancel_requested,
}
use turul_a2a.Storage.Supervisor
use turul_a2a.Storage.Supervisor.{supervisor_renew_executor_leases, renew_lease}
use turul_a2a.Storage.Atomic.{
  open_task, cas_error, update_task_status_with_events, update_task_with_events,
}
use turul_a2a.Storage.Reads.{row_of, owned_task-row, cancelable-row}
use turul_a2a.Storage.Requests.{
  Update, perform_update, serve_updates, set_state, add_message, add_artifact, request_cancel,
  commit_state, commit_task,
}
use turul_a2a.Storage.Kept.{
  IsKept, IsOver, still, put-IsKept, put_elsewhere, same_tasks, with_artifact-status,
  check_update-elsewhere, open_task-elsewhere,
}

module _ (s : Store) (k : TaskKey) (row : StoredTask) (over : IsOver s k row) where
  update_task_status-IsKept :
      (now : ℕ) (tenant id owner : String) (status : TaskStatus)
      → IsKept (update_task_status now tenant id owner status s).1 k row
  unfolding update_task_status
  update_task_status-IsKept now tenant id owner status =
      elim (Result-cases (check_update transition_error tenant id owner status s)) [
        | inl (e, r) ↦ rw r (still s k row over.there)
        | inr (c, r) ↦ rw r (
            put_elsewhere s k (key tenant id) row _ over.there
              (check_update-elsewhere transition_error tenant id owner status s c k row r over))
      ]

  store_message-IsKept :
      (tenant id owner : String) (message : Message)
      → IsKept (store_message tenant id owner message s).1 k row
  unfolding store_message append_message
  store_message-IsKept tenant id owner message =
      elim (Result-cases (owned_task tenant id owner s)) [
        | inl (e, r) ↦ rw r (still s k row over.there)
        | inr (old, r) ↦ rw r (
            put-IsKept s k (key tenant id) row old _ over.there
              (owned_task-row tenant id owner s old r).0 refl refl)
      ]

  store_artifact-IsKept :
      (now : ℕ) (tenant id owner : String) (artifact : Artifact) (append last : Bool)
      → IsKept (store_artifact now tenant id owner artifact append last s).1 k row
  unfolding store_artifact
  store_artifact-IsKept now tenant id owner artifact append last =
      elim (Result-cases (owned_task tenant id owner s)) [
        | inl (e, r) ↦ rw r (still s k row over.there)
        | inr (old, r) ↦ rw r (
            put-IsKept s k (key tenant id) row old _ over.there
              (owned_task-row tenant id owner s old r).0
              (with_artifact-status artifact append old.task) refl)
      ]

  set_cancel_requested-IsKept :
      (tenant id owner : String) → IsKept (set_cancel_requested tenant id owner s).1 k row
  unfolding set_cancel_requested
  set_cancel_requested-IsKept tenant id owner = elim (Result-cases (cancelable tenant id owner s)) [
    | inl (e, r) ↦ rw r (still s k row over.there)
    | inr (old, r) ↦ rw r (
        put-IsKept s k (key tenant id) row old _ over.there
          (cancelable-row tenant id owner s old r).0 refl refl)
  ]

  pub update_task_status_with_events-IsKept :
      (env : Environment) (now : ℕ) (tenant id owner : String) (status : TaskStatus)
      (events : List StreamEvent)
      → IsKept (update_task_status_with_events env now tenant id owner status events s).1 k row
  unfolding update_task_status_with_events
  update_task_status_with_events-IsKept env now tenant id owner status events =
      elim (Result-cases (check_update cas_error tenant id owner status s)) [
        | inl (e, r) ↦ rw r (still s k row over.there)
        | inr (c, r) ↦ rw r (
            same_tasks _ _ k row refl (
              put_elsewhere s k (key tenant id) row _ over.there
                (check_update-elsewhere cas_error tenant id owner status s c k row r over)))
      ]

  pub update_task_with_events-IsKept :
      (env : Environment) (now : ℕ) (tenant owner : String) (task : Task)
      (events : List StreamEvent)
      → IsKept (update_task_with_events env now tenant owner task events s).1 k row
  unfolding update_task_with_events
  update_task_with_events-IsKept env now tenant owner task events =
      elim (Result-cases (open_task tenant (stamp_task now task).id owner s)) [
        | inl (e, r) ↦ rw r (still s k row over.there)
        | inr (old, r) ↦ rw r (
            same_tasks _ _ k row refl (
              put_elsewhere s k (key tenant (stamp_task now task).id) row _ over.there
                (open_task-elsewhere tenant (stamp_task now task).id owner s old k row r over)))
      ]

IsKept-trans :
    (t u : Store) (k : TaskKey) (row : StoredTask)
    → (a : IsKept t k row) → IsKept u k a.kept
    → IsKept u k row
IsKept-trans t u k row a b = record {
  kept = b.kept;
  there = b.there;
  same_status = b.same_status ∙ a.same_status;
  same_owner = b.same_owner ∙ a.same_owner;
}

renew_lease-IsKept :
    (tenant : String) (expires : Option ℤ) (id : String) (s : Store) (k : TaskKey)
    (row : StoredTask)
    → row_of s k ≡ some row
    → IsKept (renew_lease tenant expires id s) k row
renew_lease-IsKept tenant expires id s k row h = elim (Option-cases (row_of s (key tenant id))) [
  | inl e ↦ unfold renew_lease in rw (e, renew_lease) (still s k row h)
  | inr (old, e) ↦
      unfold renew_lease in
      rw (e, renew_lease) (put-IsKept s k (key tenant id) row old _ h e refl refl)
]

renew_leases-IsKept :
    (tenant : String) (expires : Option ℤ) (ids : List String) (s : Store) (k : TaskKey)
    (row : StoredTask)
    → row_of s k ≡ some row
    → IsKept (Supervisor.renew_leases tenant expires ids s) k row
unfolding Supervisor.renew_leases
renew_leases-IsKept tenant expires [] s k row h = still s k row h
renew_leases-IsKept tenant expires (id ∷ ids) s k row h =
    let first = renew_lease-IsKept tenant expires id s k row h in
    IsKept-trans _ _ k row first (
      renew_leases-IsKept tenant expires ids (renew_lease tenant expires id s) k first.kept
        first.there)

perform_update-IsKept :
    (env : Environment) (u : Update) (s : Store) (k : TaskKey) (row : StoredTask)
    → IsOver s k row
    → IsKept (perform_update env u s).store k row
unfolding perform_update supervisor_renew_executor_leases
perform_update-IsKept env (set_state now tenant id owner status) s k row o =
    update_task_status-IsKept s k row o now tenant id owner status
perform_update-IsKept env (add_message tenant id owner message) s k row o =
    store_message-IsKept s k row o tenant id owner message
perform_update-IsKept env (add_artifact now tenant id owner artifact append last) s k row o =
    store_artifact-IsKept s k row o now tenant id owner artifact append last
perform_update-IsKept env (request_cancel tenant id owner) s k row o =
    set_cancel_requested-IsKept s k row o tenant id owner
perform_update-IsKept env (Update.renew_leases tenant ids expires) s k row o =
    renew_leases-IsKept tenant expires ids s k row o.there
perform_update-IsKept env (commit_state now tenant id owner status events) s k row o =
    update_task_status_with_events-IsKept s k row o env now tenant id owner status events
perform_update-IsKept env (commit_task now tenant owner task events) s k row o =
    update_task_with_events-IsKept s k row o env now tenant owner task events

state_of_status : (a b : Task) → a.status ≡ b.status → task_state a ≡ task_state b
unfolding task_state
state_of_status a b h = ground arith

pub IsKept-IsOver :
    (s t : Store) (k : TaskKey) (row : StoredTask)
    → IsOver s k row
    → (a : IsKept t k row) → IsOver t k a.kept
IsKept-IsOver s t k row o a = record {
  there = a.there;
  state = o.state;
  has_state = state_of_status _ _ a.same_status ∙ o.has_state;
  over = o.over;
}

-- Through any sequence of status updates, messages, artifacts, cancel requests, lease renewals and
-- the two atomic updates, by any callers, a task in a terminal state keeps its row under its key, with
-- its owner and its status, message and timestamp included: of these writers of a terminal state the
-- first one wins. No task is created, deleted, cleaned up, or replaced by `update_task`, which does
-- not look at the state of the row that it replaces.
pub serve_updates-IsKept :
    (env : Environment) (us : List Update) (s : Store) (k : TaskKey) (row : StoredTask)
    → IsOver s k row
    → IsKept (serve_updates env us s) k row
unfolding serve_updates
serve_updates-IsKept env [] s k row o = still s k row o.there
serve_updates-IsKept env (u ∷ us) s k row o =
    let first = perform_update-IsKept env u s k row o in
    IsKept-trans _ _ k row first
      (serve_updates-IsKept env us _ k first.kept (IsKept-IsOver s _ k row o first))
