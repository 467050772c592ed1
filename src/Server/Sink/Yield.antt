-- ===== src/Server/Sink/Yield.antt =====
-- What the waiter of a yield receives (crates/turul-a2a/src/event_sink.rs, server/in_flight.rs).
use turul_a2a.Prelude.{
  ℕ, ◌≡◌, refl, Bool, true, Option, List, [], ◌∷◌, arith, Bool-cases, Option-cases, Result-cases,
  inl, inr, ap, ◌∙◌, sym, subst,
}
use turul_a2a.TaskState.{TaskState, is_terminal}
use turul_a2a.Message.{Message, Artifact}
use turul_a2a.Task.{Task}
use turul_a2a.Storage.State.{StorageError, Store}
use turul_a2a.Storage.Atomic.{Committed}
use turul_a2a.Storage.Requests.{Update}
use turul_a2a.Server.Handle.{Handle, fire_yielded}
use turul_a2a.Server.Sink.{
  World, SinkEnvironment, SinkCall, sink_call, heartbeat, commit_status, commit_artifact,
  write_artifact, set_sink_status, refused, status_committed, handle_after, reason_message,
  set_state, emit_artifact, complete, fail, cancelled, reject, require_input, require_auth,
  commit_state_internal,
}
use turul_a2a.Server.Sink.Commits.{
  status_written, artifact_written, seen, closed_status, lost_status, won_status, closed_artifact,
  missing_artifact, seen_artifact, lost_artifact, won_artifact,
}
use turul_a2a.Server.Sink.Soundness.{Step, calls, beats, others, step, run}

-- The handle has fired, and its waiter has received what the other's has.
pub record IsYielded (h g : Handle) : Type 0 where
  pub fired : h.yielded_fired ≡ true
  pub same : h.sent ≡ g.sent

refused-handle :
    (env : SinkEnvironment) (e : StorageError) (w : World) → ((refused env e w).1).handle ≡ w.handle
unfolding refused
refused-handle env e w = ground arith

handle_after-IsYielded :
    (now : ℕ) (state : TaskState) (task : Task) (h : Handle)
    → h.yielded_fired ≡ true
    → IsYielded (handle_after now state task h) h
unfolding handle_after fire_yielded
handle_after-IsYielded now state task h fired = record { fired = ground arith; same = ground arith }

module _ (env : SinkEnvironment) (now : ℕ) where
  abbrev Stays : World → World → Type 0
  Stays u w = (w.handle).yielded_fired ≡ true → IsYielded u.handle w.handle

  unmoved : (u w : World) → u.handle ≡ w.handle → Stays u w
  unmoved u w same fired = record {
    fired = ap (λ h. h.yielded_fired) same ∙ fired;
    same = ap (λ h. h.sent) same;
  }

  refused-Stays :
      (e : StorageError) (t : Store) (w : World)
      → Stays (refused env e (record w { store = t })).1 w
  refused-Stays e t w =
      unmoved (refused env e (record w { store = t })).1 w
        (refused-handle env e (record w { store = t }))

  status_committed-Stays :
      (state : TaskState) (c : Committed) (t : Store) (w : World)
      → Stays (status_committed env now state c t w).1 w
  unfolding status_committed
  status_committed-Stays state c t w fired = handle_after-IsYielded now state c.task w.handle fired

  commit_status-Stays :
      (state : TaskState) (message : Option Message) (w : World)
      → Stays (commit_status env now state message w).1 w
  commit_status-Stays state message w fired = elim (Bool-cases (w.sink).is_closed) [
    | inl closed ↦
        subst (λ r. Stays r.1 w) (sym (closed_status env now state message w closed))
          (unmoved w w refl) fired
    | inr opened ↦ elim (Result-cases (status_written env now state message w).0) [
      | inl (e, r) ↦
          subst (λ r. Stays r.1 w) (sym (lost_status env now state message w e opened r))
            (refused-Stays e _ w) fired
      | inr (c, r) ↦
          subst (λ r. Stays r.1 w) (sym (won_status env now state message w c opened r))
            (status_committed-Stays state c _ w) fired
    ]
  ]

  write_artifact-Stays :
      (artifact : Artifact) (append last : Bool) (task : Task) (w : World)
      → Stays (write_artifact env now artifact append last task w).1 w
  write_artifact-Stays artifact append last task w =
      elim (Result-cases (artifact_written env now artifact append last task w).0) [
        | inl (e, r) ↦
            subst (λ r. Stays r.1 w) (sym (lost_artifact env now artifact append last task w e r))
              (refused-Stays e _ w)
        | inr (seqs, r) ↦
            subst (λ r. Stays r.1 w) (sym (won_artifact env now artifact append last task w seqs r))
              (λ fired. record { fired = fired; same = refl })
      ]

  commit_artifact-Stays :
      (between : List Update) (artifact : Artifact) (append last : Bool) (w : World)
      → Stays (commit_artifact env now between artifact append last w).1 w
  commit_artifact-Stays between artifact append last w = elim (Bool-cases (w.sink).is_closed) [
    | inl closed ↦
        subst (λ r. Stays r.1 w)
          (sym (closed_artifact env now between artifact append last w closed)) (unmoved w w refl)
    | inr opened ↦ elim (Option-cases (seen env now between artifact append last w)) [
      | inl missing ↦
          subst (λ r. Stays r.1 w)
            (sym (missing_artifact env now between artifact append last w opened missing))
            (unmoved w w refl)
      | inr (task, found) ↦
          subst (λ r. Stays r.1 w)
            (sym (seen_artifact env now between artifact append last w task opened found))
            (write_artifact-Stays artifact append last task _)
    ]
  ]

  sink_call-Stays : (c : SinkCall) (w : World) → Stays (sink_call env now c w).1 w
  unfolding sink_call set_sink_status
  sink_call-Stays (set_state state m) w = elim (Bool-cases (is_terminal state)) [
    | inl over ↦ rw over (unmoved w w refl)
    | inr going ↦ rw going (commit_status-Stays state m w)
  ]
  sink_call-Stays (emit_artifact between artifact append last) w =
      commit_artifact-Stays between artifact append last w
  sink_call-Stays (complete m) w = commit_status-Stays TaskState.completed m w
  sink_call-Stays (fail uuid m) w = commit_status-Stays TaskState.failed (reason_message uuid m) w
  sink_call-Stays (cancelled uuid m) w =
      commit_status-Stays TaskState.canceled (reason_message uuid m) w
  sink_call-Stays (reject uuid m) w =
      commit_status-Stays TaskState.rejected (reason_message uuid m) w
  sink_call-Stays (require_input m) w = commit_status-Stays TaskState.input_required m w
  sink_call-Stays (require_auth m) w = commit_status-Stays TaskState.auth_required m w
  sink_call-Stays (commit_state_internal state m) w = commit_status-Stays state m w

-- Once the handle of a sink has fired its yield, no sequence of calls of the sink and of updates by
-- others changes what the waiter has received: it gets at most one task.
pub yields_once :
    (env : SinkEnvironment) (steps : List Step) (w : World)
    → (w.handle).yielded_fired ≡ true
    → IsYielded ((run env steps w).handle) w.handle
unfolding run step heartbeat
yields_once env [] w fired = record { fired = fired; same = refl }
yields_once env (calls now c ∷ ss) w fired =
    let first = sink_call-Stays env now c w fired in
    let rest = yields_once env ss _ first.fired in
    record { fired = rest.fired; same = rest.same ∙ first.same }
yields_once env (beats now ∷ ss) w fired =
    let rest = yields_once env ss (heartbeat now w) fired in
    record { fired = rest.fired; same = rest.same }
yields_once env (others us ∷ ss) w fired = yields_once env ss _ fired
