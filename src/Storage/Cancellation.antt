-- ===== src/Storage/Cancellation.antt =====
-- The cancel marker of a task (crates/turul-a2a/src/storage/in_memory.rs): set once by a cancel
-- request, kept by every update, and read by the supervisor.
use turul_a2a.Prelude.{
  ℕ, ℤ, ◌≡◌, refl, ◌∙◌, String, Bool, true, Option, some, List, [], ◌∷◌, ok, arith, Result-cases,
  Option-cases, Bool-cases, inl, inr, not,
}
use turul_a2a.Dict.{get-insert_self}
use turul_a2a.Message.{Message, Artifact}
use turul_a2a.Streaming.{StreamEvent}
use turul_a2a.Task.{Task, TaskStatus}
use turul_a2a.Storage.State.{Store, StoredTask, TaskKey, task_key, task_key_eq, task_key_eq_iff}
use turul_a2a.Storage.Clock.{Environment, stamp_task}
use turul_a2a.Storage.Action.{key}
use turul_a2a.Storage.Tasks.{
  put_task, owned_task, cancelable, check_update, transition_error, replaced, update_task_status,
  store_message, store_artifact, set_cancel_requested,
}
use turul_a2a.Storage.Supervisor.{
  row_terminal, cancel_pending, supervisor_get_cancel_requested, supervisor_renew_executor_leases,
  renew_lease,
}
use turul_a2a.Storage.Supervisor
use turul_a2a.Storage.Atomic.{
  open_task, cas_error, committed_row, update_task_status_with_events, update_task_with_events,
}
use turul_a2a.Storage.Reads.{
  row_of, row_of-put_task, owned_task-row, cancelable-row, open_task-row, check_update-IsChecked,
}
use turul_a2a.Storage.Requests.{
  Update, set_state, add_message, add_artifact, request_cancel, commit_state, commit_task,
  perform_update, serve_updates,
}

-- The task is there, marked.
pub record IsMarked (s : Store) (k : TaskKey) : Type 0 where
  pub row : StoredTask
  pub there : row_of s k ≡ some row
  pub marked : row.cancel_requested ≡ true

same_tasks-IsMarked : (s t : Store) (k : TaskKey) → t.tasks ≡ s.tasks → IsMarked s k → IsMarked t k
same_tasks-IsMarked s t k e m = record {
  row = m.row;
  there = ground (arith, m.there);
  marked = m.marked;
}

-- A write over a row that keeps a marker keeps all markers.
put_task-IsMarked :
    (s : Store) (k j : TaskKey) (old new : StoredTask)
    → row_of s j ≡ some old
    → (old.cancel_requested ≡ true → new.cancel_requested ≡ true)
    → IsMarked s k
    → IsMarked (put_task j new s) k
put_task-IsMarked s k j old new h keeps m = elim (Bool-cases (task_key_eq j k)) [
  | inl e ↦ record {
    row = new;
    there = row_of-put_task s j k new ∙ ground (arith, e);
    marked = keeps (ground (arith, h, m.there, m.marked, task_key_eq_iff j k));
  }
  | inr e ↦ record {
    row = m.row;
    there = row_of-put_task s j k new ∙ ground (arith, e, m.there);
    marked = m.marked;
  }
]

module _ (s : Store) (k : TaskKey) (m : IsMarked s k) where
  update_task_status-IsMarked :
      (now : ℕ) (tenant id owner : String) (status : TaskStatus)
      → IsMarked (update_task_status now tenant id owner status s).1 k
  unfolding update_task_status replaced
  update_task_status-IsMarked now tenant id owner status =
      elim (Result-cases (check_update transition_error tenant id owner status s)) [
        | inl (e, r) ↦ rw r m
        | inr (c, r) ↦
            let checked = check_update-IsChecked transition_error tenant id owner status s c r in
            rw r (put_task-IsMarked s k (key tenant id) c.stored _ checked.present (λ h. h) m)
      ]

  owned-IsMarked :
      (tenant id owner : String) (old new : StoredTask)
      → owned_task tenant id owner s ≡ ok old
      → new.cancel_requested ≡ old.cancel_requested
      → IsMarked (put_task (key tenant id) new s) k
  owned-IsMarked tenant id owner old new r e =
      put_task-IsMarked s k (key tenant id) old new (owned_task-row tenant id owner s old r).0
        (λ h. e ∙ h) m

  store_message-IsMarked :
      (tenant id owner : String) (message : Message)
      → IsMarked (store_message tenant id owner message s).1 k
  unfolding store_message
  store_message-IsMarked tenant id owner message =
      elim (Result-cases (owned_task tenant id owner s)) [
        | inl (e, r) ↦ rw r m
        | inr (old, r) ↦ rw r (owned-IsMarked tenant id owner old _ r refl)
      ]

  store_artifact-IsMarked :
      (now : ℕ) (tenant id owner : String) (artifact : Artifact) (append last : Bool)
      → IsMarked (store_artifact now tenant id owner artifact append last s).1 k
  unfolding store_artifact
  store_artifact-IsMarked now tenant id owner artifact append last =
      elim (Result-cases (owned_task tenant id owner s)) [
        | inl (e, r) ↦ rw r m
        | inr (old, r) ↦ rw r (owned-IsMarked tenant id owner old _ r refl)
      ]

  set_cancel_requested-IsMarked :
      (tenant id owner : String) → IsMarked (set_cancel_requested tenant id owner s).1 k
  unfolding set_cancel_requested
  set_cancel_requested-IsMarked tenant id owner =
      elim (Result-cases (cancelable tenant id owner s)) [
        | inl (e, r) ↦ rw r m
        | inr (old, r) ↦ rw r (
            put_task-IsMarked s k (key tenant id) old _ (cancelable-row tenant id owner s old r).0
              (λ h. refl) m)
      ]

  update_task_status_with_events-IsMarked :
      (env : Environment) (now : ℕ) (tenant id owner : String) (status : TaskStatus)
      (events : List StreamEvent)
      → IsMarked (update_task_status_with_events env now tenant id owner status events s).1 k
  unfolding update_task_status_with_events committed_row
  update_task_status_with_events-IsMarked env now tenant id owner status events =
      elim (Result-cases (check_update cas_error tenant id owner status s)) [
        | inl (e, r) ↦ rw r m
        | inr (c, r) ↦
            let checked = check_update-IsChecked cas_error tenant id owner status s c r in
            rw r (
              same_tasks-IsMarked _ _ k refl
                (put_task-IsMarked s k (key tenant id) c.stored _ checked.present (λ h. h) m))
      ]

  update_task_with_events-IsMarked :
      (env : Environment) (now : ℕ) (tenant owner : String) (task : Task)
      (events : List StreamEvent)
      → IsMarked (update_task_with_events env now tenant owner task events s).1 k
  unfolding update_task_with_events committed_row
  update_task_with_events-IsMarked env now tenant owner task events =
      elim (Result-cases (open_task tenant (stamp_task now task).id owner s)) [
        | inl (e, r) ↦ rw r m
        | inr (old, r) ↦ rw r (
            same_tasks-IsMarked _ _ k refl (
              put_task-IsMarked s k (key tenant (stamp_task now task).id) old _
                (open_task-row tenant (stamp_task now task).id owner s old r).0 (λ h. h) m))
      ]

  renew_lease-IsMarked :
      (tenant : String) (expires : Option ℤ) (id : String)
      → IsMarked (renew_lease tenant expires id s) k
  unfolding renew_lease
  renew_lease-IsMarked tenant expires id = elim (Option-cases (row_of s (key tenant id))) [
    | inl e ↦ rw (e, renew_lease) m
    | inr (old, e) ↦ rw (e, renew_lease) (put_task-IsMarked s k (key tenant id) old _ e (λ h. h) m)
  ]

renew_leases-IsMarked :
    (tenant : String) (expires : Option ℤ) (ids : List String) (s : Store) (k : TaskKey)
    → IsMarked s k
    → IsMarked (Supervisor.renew_leases tenant expires ids s) k
unfolding Supervisor.renew_leases
renew_leases-IsMarked tenant expires [] s k m = m
renew_leases-IsMarked tenant expires (id ∷ ids) s k m =
    renew_leases-IsMarked tenant expires ids _ k (renew_lease-IsMarked s k m tenant expires id)

perform_update-IsMarked :
    (env : Environment) (u : Update) (s : Store) (k : TaskKey)
    → IsMarked s k
    → IsMarked (perform_update env u s).store k
unfolding perform_update supervisor_renew_executor_leases
perform_update-IsMarked env (set_state now tenant id owner status) s k m =
    update_task_status-IsMarked s k m now tenant id owner status
perform_update-IsMarked env (add_message tenant id owner message) s k m =
    store_message-IsMarked s k m tenant id owner message
perform_update-IsMarked env (add_artifact now tenant id owner artifact append last) s k m =
    store_artifact-IsMarked s k m now tenant id owner artifact append last
perform_update-IsMarked env (request_cancel tenant id owner) s k m =
    set_cancel_requested-IsMarked s k m tenant id owner
perform_update-IsMarked env (Update.renew_leases tenant ids expires) s k m =
    renew_leases-IsMarked tenant expires ids s k m
perform_update-IsMarked env (commit_state now tenant id owner status events) s k m =
    update_task_status_with_events-IsMarked s k m env now tenant id owner status events
perform_update-IsMarked env (commit_task now tenant owner task events) s k m =
    update_task_with_events-IsMarked s k m env now tenant owner task events

serve_updates-IsMarked :
    (env : Environment) (us : List Update) (s : Store) (k : TaskKey)
    → IsMarked s k
    → IsMarked (serve_updates env us s) k
unfolding serve_updates
serve_updates-IsMarked env [] s k m = m
serve_updates-IsMarked env (u ∷ us) s k m =
    serve_updates-IsMarked env us _ k (perform_update-IsMarked env u s k m)

requested-IsMarked :
    (tenant id owner : String) (s : Store)
    → (set_cancel_requested tenant id owner s).0 ≡ ok tt
    → IsMarked (set_cancel_requested tenant id owner s).1 (key tenant id)
unfolding set_cancel_requested
requested-IsMarked tenant id owner s h = elim (Result-cases (cancelable tenant id owner s)) [
  | inl (e, r) ↦ cc (rw r at h)
  | inr (old, r) ↦ rw r (record {
    row = record old { cancel_requested = true };
    there = get-insert_self s.tasks (key tenant id) (record old { cancel_requested = true });
    marked = refl;
  })
]

-- A cancel request that succeeds is not lost: while no call creates, replaces, deletes or cleans up
-- tasks, the task is there after any sequence of updates, and the supervisor's answer for it is
-- then "requested" exactly if the task has not reached a terminal state.
pub cancel_request_stays :
    (env : Environment) (tenant id owner : String) (us : List Update) (s : Store)
    → (set_cancel_requested tenant id owner s).0 ≡ ok tt
    → let t = serve_updates env us (set_cancel_requested tenant id owner s).1 in
      (row : StoredTask) × (row_of t (key tenant id) ≡ some row)
      × (supervisor_get_cancel_requested tenant id t ≡ (ok (not (row_terminal row)), t))
unfolding supervisor_get_cancel_requested cancel_pending
cancel_request_stays env tenant id owner us s h =
    let m =
      serve_updates-IsMarked env us (set_cancel_requested tenant id owner s).1 (key tenant id)
        (requested-IsMarked tenant id owner s h) in
    (m.row, m.there, ground (arith, m.there, m.marked))
