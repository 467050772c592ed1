-- ===== src/Server/Sink/Commits.antt =====
-- The branches of the two writes of a sink (crates/turul-a2a/src/event_sink.rs), and what each does
-- to an invariant of the sink, its handle and the store.
use turul_a2a.Prelude.{
  ℕ, ◌≡◌, refl, String, Bool, true, false, Option, none, some, List, [], ◌∷◌, arith, Bool-cases,
  Option-cases, Result-cases, Result, inl, inr, ok, err, ◌∙◌, ap, sym, subst, ◌||◌,
}
use turul_a2a.TaskState.{TaskState, is_terminal}
use turul_a2a.Message.{Message, Artifact}
use turul_a2a.Task.{Task, status_new, merge_artifact, append_artifact, trim_history}
use turul_a2a.Errors.{A2aError}
use turul_a2a.Storage.State.{Store, StorageError, task_key}
use turul_a2a.Storage.Action.{key}
use turul_a2a.Storage.Tasks.{visible}
use turul_a2a.Storage.Atomic.{Committed, update_task_status_with_events, update_task_with_events}
use turul_a2a.Storage.Reads.{row_of}
use turul_a2a.Storage.Requests.{Update, serve_updates}
use turul_a2a.Storage.Terminal.{
  serve_updates-IsKept, update_task_status_with_events-IsKept, update_task_with_events-IsKept,
  IsKept-IsOver,
}
use turul_a2a.Storage.Named.{
  IsNamed, serve_updates-IsNamed, update_task_status_with_events-IsNamed,
  update_task_with_events-IsNamed,
}
use turul_a2a.Server.Handle.{Handle, fire_yielded}
use turul_a2a.Server.Sink.{
  World, SinkEnvironment, commit_status, commit_artifact, write_artifact, artifact_committed,
  refused, status_committed, status_event, artifact_event, with_message, closed_error, handle_after,
}
use turul_a2a.Server.Sink.Races.{IsEnded, status-lost, task-lost, status-won}

-- The sink is closed, or its task may be open; a closed sink's task has ended, and the handle says
-- that a terminal state was committed only when the sink is closed.
pub record IsSound (w : World) : Type 0 where
  pub named : IsNamed w.store
  pub ended : (w.sink).is_closed ≡ true → IsEnded w.store (w.sink).tenant (w.sink).task_id
  pub marked : (w.handle).terminal_committed ≡ true → (w.sink).is_closed ≡ true

-- The sink after a refusal, in a store where the refusal for a terminal state is right.
refused-IsSound :
    (env : SinkEnvironment) (e : StorageError) (w : World)
    → ((t x : String)
        → e ≡ StorageError.terminal_state_already_set t x
        → IsEnded w.store (w.sink).tenant (w.sink).task_id)
    → IsSound w
    → IsSound (refused env e w).1
unfolding refused
refused-IsSound env (StorageError.terminal_state_already_set t x) w right sound = record {
  named = sound.named;
  ended = λ _. right t x refl;
  marked = λ _. refl;
}
refused-IsSound env other w right sound = sound

-- The store that the sink's world holds may be replaced by one in which the task has ended too.
stored-IsSound :
    (w : World) (t : Store)
    → IsNamed t
    → (IsEnded w.store (w.sink).tenant (w.sink).task_id
        → IsEnded t (w.sink).tenant (w.sink).task_id)
    → IsSound w
    → IsSound (record w { store = t })
stored-IsSound w t named later sound = record {
  named = named;
  ended = λ closed. later (sound.ended closed);
  marked = sound.marked;
}

pub others-IsSound :
    (env : SinkEnvironment) (us : List Update) (w : World)
    → IsSound w
    → IsSound (record w { store = serve_updates env.storage us w.store })
others-IsSound env us w sound =
    stored-IsSound w _ (serve_updates-IsNamed env.storage us w.store sound.named)
      (λ e.
        let kept = serve_updates-IsKept env.storage us w.store _ e.0 e.1 in
        (kept.kept, IsKept-IsOver _ _ _ e.0 e.1 kept))
      sound

handle_after-terminal :
    (now : ℕ) (state : TaskState) (task : Task) (h : Handle)
    → (handle_after now state task h).terminal_committed
      ≡ (is_terminal state || h.terminal_committed)
unfolding handle_after fire_yielded
handle_after-terminal now state task h = ground arith

status_committed-IsSound :
    (env : SinkEnvironment) (now : ℕ) (state : TaskState) (c : Committed) (t : Store) (w : World)
    → (is_terminal state ≡ true → IsEnded t (w.sink).tenant (w.sink).task_id)
    → IsSound (record w { store = t })
    → IsSound (status_committed env now state c t w).1
unfolding status_committed
status_committed-IsSound env now state c t w won sound = elim (Bool-cases (is_terminal state)) [
  | inl over ↦ record { named = sound.named; ended = λ _. won over; marked = λ _. rw over refl }
  | inr goes_on ↦ record {
    named = sound.named;
    ended = λ closed. sound.ended (ground arith);
    marked = λ m.
        rw goes_on (sound.marked (ground (arith, handle_after-terminal now state c.task w.handle)));
  }
]

module _ (env : SinkEnvironment) (now : ℕ) (state : TaskState) (message : Option Message)
    (w : World) where
  abbrev pub status_written : Result StorageError Committed × Store
  status_written =
      update_task_status_with_events env.storage now (w.sink).tenant (w.sink).task_id (w.sink).owner
        (with_message message (status_new state))
        (status_event env w.sink (with_message message (status_new state)) ∷ []) w.store

  pub closed_status :
      (w.sink).is_closed ≡ true → commit_status env now state message w ≡ (err closed_error, w)
  unfolding commit_status
  closed_status closed = ground arith

  pub lost_status :
      (e : StorageError)
      → (w.sink).is_closed ≡ false
      → status_written.0 ≡ err e
      → commit_status env now state message w
        ≡ refused env e (record w { store = status_written.1 })
  unfolding commit_status
  lost_status e opened r = ground arith

  pub won_status :
      (c : Committed)
      → (w.sink).is_closed ≡ false
      → status_written.0 ≡ ok c
      → commit_status env now state message w ≡ status_committed env now state c status_written.1 w
  unfolding commit_status
  won_status c opened r = ground arith

  status_written-IsSound : IsSound w → IsSound (record w { store = status_written.1 })
  status_written-IsSound sound =
      stored-IsSound w _
        (update_task_status_with_events-IsNamed w.store sound.named env.storage now _ _ _ _ _)
        (λ e.
          let kept =
            update_task_status_with_events-IsKept w.store _ e.0 e.1 env.storage now (w.sink).tenant
              (w.sink).task_id (w.sink).owner _ _ in
          (kept.kept, IsKept-IsOver _ _ _ e.0 e.1 kept))
        sound

  pub commit_status-IsSound : IsSound w → IsSound (commit_status env now state message w).1
  commit_status-IsSound sound = elim (Bool-cases (w.sink).is_closed) [
    | inl closed ↦ subst (λ r. IsSound r.1) (sym (closed_status closed)) sound
    | inr opened ↦ elim (Result-cases status_written.0) [
      | inl (e, r) ↦
          subst (λ r. IsSound r.1) (sym (lost_status e opened r))
            (refused-IsSound env e _
              (λ t x same. status-lost env.storage now _ _ _ t x _ _ w.store (r ∙ ap err same))
              (status_written-IsSound sound))
      | inr (c, r) ↦
          subst (λ r. IsSound r.1) (sym (won_status c opened r))
            (status_committed-IsSound env now state c _ w
              (λ over. status-won env.storage now _ _ _ state message _ w.store c over r)
              (status_written-IsSound sound))
    ]
  ]

merge_artifact-id :
    (artifact : Artifact) (append last : Bool) (task : Task)
    → (merge_artifact artifact append last task).id ≡ task.id
unfolding merge_artifact append_artifact
merge_artifact-id artifact true last task = ground arith
merge_artifact-id artifact false last task = refl

module _ (env : SinkEnvironment) (now : ℕ) (artifact : Artifact) (append last : Bool) (task : Task)
    (w : World) where
  abbrev pub artifact_written : Result StorageError (List ℕ) × Store
  artifact_written =
      update_task_with_events env.storage now (w.sink).tenant (w.sink).owner
        (merge_artifact artifact append last task)
        (artifact_event env w.sink artifact append last ∷ []) w.store

  pub lost_artifact :
      (e : StorageError)
      → artifact_written.0 ≡ err e
      → write_artifact env now artifact append last task w
        ≡ refused env e (record w { store = artifact_written.1 })
  unfolding write_artifact
  lost_artifact e r = ground arith

  pub won_artifact :
      (seqs : List ℕ)
      → artifact_written.0 ≡ ok seqs
      → write_artifact env now artifact append last task w
        ≡ artifact_committed now seqs artifact_written.1 w
  unfolding write_artifact
  won_artifact seqs r = ground arith

  artifact_written-IsSound : IsSound w → IsSound (record w { store = artifact_written.1 })
  artifact_written-IsSound sound =
      stored-IsSound w _
        (update_task_with_events-IsNamed w.store sound.named env.storage now _ _ _ _)
        (λ e.
          let kept =
            update_task_with_events-IsKept w.store _ e.0 e.1 env.storage now (w.sink).tenant
              (w.sink).owner (merge_artifact artifact append last task) _ in
          (kept.kept, IsKept-IsOver _ _ _ e.0 e.1 kept))
        sound

  write_artifact-IsSound :
      task.id ≡ (w.sink).task_id
      → IsSound w
      → IsSound (write_artifact env now artifact append last task w).1
  write_artifact-IsSound same sound = elim (Result-cases artifact_written.0) [
    | inl (e, r) ↦
        subst (λ r. IsSound r.1) (sym (lost_artifact e r))
          (refused-IsSound env e _
            (λ t x is.
              subst (IsEnded _ _) (merge_artifact-id artifact append last task ∙ same)
                (task-lost env.storage now _ _ t x _ _ w.store (r ∙ ap err is)))
            (artifact_written-IsSound sound))
    | inr (seqs, r) ↦
        let stored = artifact_written-IsSound sound in
        subst (λ r. IsSound r.1) (sym (won_artifact seqs r))
          (record { named = stored.named; ended = stored.ended; marked = stored.marked })
  ]

-- A read finds a task under its own id.
visible-named :
    (tenant id owner : String) (s : Store) (task : Task)
    → IsNamed s
    → visible (row_of s (key tenant id)) owner none ≡ some task
    → task.id ≡ id
unfolding visible trim_history
visible-named tenant id owner s task named h = elim (Option-cases (row_of s (key tenant id))) [
  | inl missing ↦ absurd (ground (arith, missing))
  | inr (row, there) ↦ ground (arith, there, named (key tenant id) row there)
]

module _ (env : SinkEnvironment) (now : ℕ) (between : List Update) (artifact : Artifact)
    (append last : Bool) (w : World) where
  abbrev pub seen : Option Task
  seen = visible (row_of w.store (key (w.sink).tenant (w.sink).task_id)) (w.sink).owner none

  pub closed_artifact :
      (w.sink).is_closed ≡ true
      → commit_artifact env now between artifact append last w ≡ (err closed_error, w)
  unfolding commit_artifact
  closed_artifact closed = ground arith

  pub missing_artifact :
      (w.sink).is_closed ≡ false
      → seen ≡ none
      → commit_artifact env now between artifact append last w
        ≡ (err (A2aError.task_not_found (w.sink).task_id), w)
  unfolding commit_artifact
  missing_artifact opened missing = ground arith

  pub seen_artifact :
      (task : Task)
      → (w.sink).is_closed ≡ false
      → seen ≡ some task
      → commit_artifact env now between artifact append last w
        ≡ write_artifact env now artifact append last task
            (record w { store = serve_updates env.storage between w.store })
  unfolding commit_artifact
  seen_artifact task opened found = ground arith

  pub commit_artifact-IsSound :
      IsSound w → IsSound (commit_artifact env now between artifact append last w).1
  commit_artifact-IsSound sound = elim (Bool-cases (w.sink).is_closed) [
    | inl closed ↦ subst (λ r. IsSound r.1) (sym (closed_artifact closed)) sound
    | inr opened ↦ elim (Option-cases seen) [
      | inl missing ↦ subst (λ r. IsSound r.1) (sym (missing_artifact opened missing)) sound
      | inr (task, found) ↦
          subst (λ r. IsSound r.1) (sym (seen_artifact task opened found))
            (write_artifact-IsSound env now artifact append last task _
              (visible-named (w.sink).tenant (w.sink).task_id (w.sink).owner w.store task
                sound.named found)
              (others-IsSound env between w sound))
    ]
  ]
