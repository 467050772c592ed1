-- ===== src/Storage/Named.antt =====
-- The rows of the in-memory backend stand under the ids of their tasks
-- (crates/turul-a2a/src/storage/in_memory.rs), through every call that updates a task.
use turul_a2a.Prelude.{
  ℕ, ℤ, ◌≡◌, refl, ap, String, Bool, true, false, Option, some, List, [], ◌∷◌, arith, Option-cases,
  inl, inr, Result-cases, ok, ◌∙◌,
}
use turul_a2a.Message.{Message, Artifact}
use turul_a2a.Task.{Task, TaskStatus, append_message, set_status, append_artifact}
use turul_a2a.Streaming.{StreamEvent}
use turul_a2a.Storage.State.{Store, StoredTask, TaskKey, task_key, task_key_eq_iff, StorageError}
use turul_a2a.Storage.Clock.{Environment, stamp_task}
use turul_a2a.Storage.Action.{key}
use turul_a2a.Storage.Tasks.{
  owned_task, cancelable, check_update, Checked, transition_error, update_task_status,
  store_message, store_artifact, set_cancel_requested, put_task, with_artifact, replaced,
}
use turul_a2a.TaskState.{A2aTypeError}
use turul_a2a.Storage.Supervisor
use turul_a2a.Storage.Supervisor.{supervisor_renew_executor_leases, renew_lease}
use turul_a2a.Storage.Atomic.{
  open_task, committed_row, cas_error, update_task_status_with_events, update_task_with_events,
}
use turul_a2a.Storage.Reads.{
  row_of, row_of-put_task, owned_task-row, cancelable-row, check_update-IsChecked,
}
use turul_a2a.Storage.Requests.{
  Update, perform_update, serve_updates, set_state, add_message, add_artifact, request_cancel,
  commit_state, commit_task,
}

-- Every row holds the task that its key names.
abbrev pub IsNamed : Store → Type 0
IsNamed s = (k : TaskKey) (row : StoredTask) → row_of s k ≡ some row → (row.task).id ≡ k.task_id

put-IsNamed :
    (s : Store) (k : TaskKey) (new : StoredTask)
    → (new.task).id ≡ k.task_id
    → IsNamed s
    → IsNamed (put_task k new s)
put-IsNamed s k new h named j row e =
    ground (arith, row_of-put_task s k j new, task_key_eq_iff k j, named j row)

pub stamp_task-id : (now : ℕ) (task : Task) → (stamp_task now task).id ≡ task.id
unfolding stamp_task
stamp_task-id now task = ground arith

with_artifact-id :
    (artifact : Artifact) (append : Bool) (task : Task)
    → (with_artifact artifact append task).id ≡ task.id
unfolding with_artifact append_artifact
with_artifact-id artifact true task = ground arith
with_artifact-id artifact false task = refl

module _ (s : Store) (named : IsNamed s) where
  checked_id :
      (report : String → A2aTypeError → StorageError) (tenant id owner : String)
      (status : TaskStatus) (c : Checked)
      → check_update report tenant id owner status s ≡ ok c
      → (c.task).id ≡ id
  unfolding set_status
  checked_id report tenant id owner status c r =
      let checked = check_update-IsChecked report tenant id owner status s c r in
      ap (λ t. t.id) checked.updated ∙ named _ _ checked.present

  update_task_status-IsNamed :
      (now : ℕ) (tenant id owner : String) (status : TaskStatus)
      → IsNamed (update_task_status now tenant id owner status s).1
  unfolding update_task_status replaced
  update_task_status-IsNamed now tenant id owner status =
      elim (Result-cases (check_update transition_error tenant id owner status s)) [
        | inl (e, r) ↦ rw r named
        | inr (c, r) ↦ rw r (
            put-IsNamed s _ _ (stamp_task-id now c.task ∙ checked_id _ tenant id owner status c r)
              named)
      ]

  store_message-IsNamed :
      (tenant id owner : String) (message : Message)
      → IsNamed (store_message tenant id owner message s).1
  unfolding store_message append_message
  store_message-IsNamed tenant id owner message =
      elim (Result-cases (owned_task tenant id owner s)) [
        | inl (e, r) ↦ rw r named
        | inr (old, r) ↦
            rw r (put-IsNamed s _ _ (named _ _ (owned_task-row tenant id owner s old r).0) named)
      ]

  store_artifact-IsNamed :
      (now : ℕ) (tenant id owner : String) (artifact : Artifact) (append last : Bool)
      → IsNamed (store_artifact now tenant id owner artifact append last s).1
  unfolding store_artifact
  store_artifact-IsNamed now tenant id owner artifact append last =
      elim (Result-cases (owned_task tenant id owner s)) [
        | inl (e, r) ↦ rw r named
        | inr (old, r) ↦ rw r (
            put-IsNamed s _ _
              (with_artifact-id artifact append old.task
                ∙ named _ _ (owned_task-row tenant id owner s old r).0)
              named)
      ]

  set_cancel_requested-IsNamed :
      (tenant id owner : String) → IsNamed (set_cancel_requested tenant id owner s).1
  unfolding set_cancel_requested
  set_cancel_requested-IsNamed tenant id owner =
      elim (Result-cases (cancelable tenant id owner s)) [
        | inl (e, r) ↦ rw r named
        | inr (old, r) ↦
            rw r (put-IsNamed s _ _ (named _ _ (cancelable-row tenant id owner s old r).0) named)
      ]

  pub update_task_status_with_events-IsNamed :
      (env : Environment) (now : ℕ) (tenant id owner : String) (status : TaskStatus)
      (events : List StreamEvent)
      → IsNamed (update_task_status_with_events env now tenant id owner status events s).1
  unfolding update_task_status_with_events committed_row
  update_task_status_with_events-IsNamed env now tenant id owner status events =
      elim (Result-cases (check_update cas_error tenant id owner status s)) [
        | inl (e, r) ↦ rw r named
        | inr (c, r) ↦ rw r (
            put-IsNamed s _ _ (stamp_task-id now c.task ∙ checked_id _ tenant id owner status c r)
              named)
      ]

  pub update_task_with_events-IsNamed :
      (env : Environment) (now : ℕ) (tenant owner : String) (task : Task)
      (events : List StreamEvent)
      → IsNamed (update_task_with_events env now tenant owner task events s).1
  unfolding update_task_with_events committed_row
  update_task_with_events-IsNamed env now tenant owner task events =
      elim (Result-cases (open_task tenant (stamp_task now task).id owner s)) [
        | inl (e, r) ↦ rw r named
        | inr (old, r) ↦ rw r (put-IsNamed s _ _ refl named)
      ]

renew_lease-IsNamed :
    (tenant : String) (expires : Option ℤ) (id : String) (s : Store)
    → IsNamed s
    → IsNamed (renew_lease tenant expires id s)
renew_lease-IsNamed tenant expires id s named = elim (Option-cases (row_of s (key tenant id))) [
  | inl e ↦ unfold renew_lease in rw (e, renew_lease) named
  | inr (old, e) ↦ unfold renew_lease in rw (e, renew_lease) (put-IsNamed s _ _ (named _ _ e) named)
]

renew_leases-IsNamed :
    (tenant : String) (expires : Option ℤ) (ids : List String) (s : Store)
    → IsNamed s
    → IsNamed (Supervisor.renew_leases tenant expires ids s)
unfolding Supervisor.renew_leases
renew_leases-IsNamed tenant expires [] s named = named
renew_leases-IsNamed tenant expires (id ∷ ids) s named =
    renew_leases-IsNamed tenant expires ids _ (renew_lease-IsNamed tenant expires id s named)

perform_update-IsNamed :
    (env : Environment) (u : Update) (s : Store)
    → IsNamed s
    → IsNamed (perform_update env u s).store
unfolding perform_update supervisor_renew_executor_leases
perform_update-IsNamed env (set_state now tenant id owner status) s n =
    update_task_status-IsNamed s n now tenant id owner status
perform_update-IsNamed env (add_message tenant id owner message) s n =
    store_message-IsNamed s n tenant id owner message
perform_update-IsNamed env (add_artifact now tenant id owner artifact append last) s n =
    store_artifact-IsNamed s n now tenant id owner artifact append last
perform_update-IsNamed env (request_cancel tenant id owner) s n =
    set_cancel_requested-IsNamed s n tenant id owner
perform_update-IsNamed env (Update.renew_leases tenant ids expires) s n =
    renew_leases-IsNamed tenant expires ids s n
perform_update-IsNamed env (commit_state now tenant id owner status events) s n =
    update_task_status_with_events-IsNamed s n env now tenant id owner status events
perform_update-IsNamed env (commit_task now tenant owner task events) s n =
    update_task_with_events-IsNamed s n env now tenant owner task events

pub serve_updates-IsNamed :
    (env : Environment) (us : List Update) (s : Store)
    → IsNamed s
    → IsNamed (serve_updates env us s)
unfolding serve_updates
serve_updates-IsNamed env [] s named = named
serve_updates-IsNamed env (u ∷ us) s named =
    serve_updates-IsNamed env us _ (perform_update-IsNamed env u s named)
