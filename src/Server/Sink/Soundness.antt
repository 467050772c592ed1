-- ===== src/Server/Sink/Soundness.antt =====
-- What closes a sink, and what a closed sink does (crates/turul-a2a/src/event_sink.rs), over any
-- sequence of calls of the sink and of updates that others make in between.
use turul_a2a.Prelude.{ℕ, ◌≡◌, refl, String, true, List, [], ◌∷◌, Bool-cases, inl, inr, err}
use turul_a2a.TaskState.{TaskState, is_terminal}
use turul_a2a.Errors.{A2aError}
use turul_a2a.Storage.State.{task_key}
use turul_a2a.Storage.Requests.{Update, serve_updates}
use turul_a2a.Server.Sink.{
  World, SinkEnvironment, SinkCall, sink_call, heartbeat, set_sink_status, reason_message,
  refused_text, set_state, emit_artifact, complete, fail, cancelled, reject, require_input,
  require_auth, commit_state_internal,
}
use turul_a2a.Server.Sink.Commits.{
  IsSound, closed_status, closed_artifact, commit_status-IsSound, commit_artifact-IsSound,
  others-IsSound,
}

-- One step: a call of the sink, a heartbeat, or updates by others.
pub data Step : Type 0 where
  calls : ℕ → SinkCall → Step
  beats : ℕ → Step
  others : List Update → Step

unfoldable pub step : SinkEnvironment → Step → World → World
unfolding sink_call heartbeat serve_updates
step env (calls now c) w = (sink_call env now c w).1
step env (beats now) w = heartbeat now w
step env (others us) w = record w { store = serve_updates env.storage us w.store }

unfoldable pub run : SinkEnvironment → List Step → World → World
unfolding step
run env [] w = w
run env (s ∷ ss) w = run env ss (step env s w)

sink_call-IsSound :
    (env : SinkEnvironment) (now : ℕ) (c : SinkCall) (w : World)
    → IsSound w
    → IsSound (sink_call env now c w).1
unfolding sink_call set_sink_status
sink_call-IsSound env now (set_state state message) w sound =
    elim (Bool-cases (is_terminal state)) [
      | inl over ↦ rw over sound
      | inr going ↦ rw going (commit_status-IsSound env now state message w sound)
    ]
sink_call-IsSound env now (emit_artifact between artifact append last) w sound =
    commit_artifact-IsSound env now between artifact append last w sound
sink_call-IsSound env now (complete m) w sound =
    commit_status-IsSound env now TaskState.completed m w sound
sink_call-IsSound env now (fail uuid m) w sound =
    commit_status-IsSound env now TaskState.failed (reason_message uuid m) w sound
sink_call-IsSound env now (cancelled uuid m) w sound =
    commit_status-IsSound env now TaskState.canceled (reason_message uuid m) w sound
sink_call-IsSound env now (reject uuid m) w sound =
    commit_status-IsSound env now TaskState.rejected (reason_message uuid m) w sound
sink_call-IsSound env now (require_input m) w sound =
    commit_status-IsSound env now TaskState.input_required m w sound
sink_call-IsSound env now (require_auth m) w sound =
    commit_status-IsSound env now TaskState.auth_required m w sound
sink_call-IsSound env now (commit_state_internal state m) w sound =
    commit_status-IsSound env now state m w sound

heartbeat-IsSound : (now : ℕ) (w : World) → IsSound w → IsSound (heartbeat now w)
unfolding heartbeat
heartbeat-IsSound now w sound = record {
  named = sound.named;
  ended = sound.ended;
  marked = sound.marked;
}

-- Through any sequence of calls of a sink, its heartbeat too, and of updates that others make before and between
-- them, also between the read and the write of an artifact: a closed sink's task is in a terminal
-- state in the store, the handle is marked terminal only when the sink is closed, and every row
-- stands under its task's id.
pub run-IsSound :
    (env : SinkEnvironment) (steps : List Step) (w : World) → IsSound w → IsSound (run env steps w)
unfolding run step
run-IsSound env [] w sound = sound
run-IsSound env (calls now c ∷ ss) w sound =
    run-IsSound env ss _ (sink_call-IsSound env now c w sound)
run-IsSound env (beats now ∷ ss) w sound = run-IsSound env ss _ (heartbeat-IsSound now w sound)
run-IsSound env (others us ∷ ss) w sound = run-IsSound env ss _ (others-IsSound env us w sound)

-- A call of a closed sink that writes (all but `heartbeat`, which answers nothing) fails as an
-- invalid request and changes nothing: not the store, not the handle, not the sink, and it notifies
-- no one.
pub closed_refuses :
    (env : SinkEnvironment) (now : ℕ) (c : SinkCall) (w : World)
    → (w.sink).is_closed ≡ true
    → (text : String) × (sink_call env now c w ≡ (err (A2aError.invalid_request text), w))
unfolding sink_call set_sink_status
closed_refuses env now (set_state state message) w closed = elim (Bool-cases (is_terminal state)) [
  | inl over ↦ (refused_text state, rw over refl)
  | inr going ↦
      ("EventSink is closed", rw (going, closed_status env now state message w closed) refl)
]
closed_refuses env now (emit_artifact between artifact append last) w closed =
    ("EventSink is closed", closed_artifact env now between artifact append last w closed)
closed_refuses env now (complete m) w closed =
    ("EventSink is closed", closed_status env now TaskState.completed m w closed)
closed_refuses env now (fail uuid m) w closed =
    ("EventSink is closed", closed_status env now TaskState.failed (reason_message uuid m) w closed)
closed_refuses env now (cancelled uuid m) w closed = (
  "EventSink is closed",
  closed_status env now TaskState.canceled (reason_message uuid m) w closed,
)
closed_refuses env now (reject uuid m) w closed = (
  "EventSink is closed",
  closed_status env now TaskState.rejected (reason_message uuid m) w closed,
)
closed_refuses env now (require_input m) w closed =
    ("EventSink is closed", closed_status env now TaskState.input_required m w closed)
closed_refuses env now (require_auth m) w closed =
    ("EventSink is closed", closed_status env now TaskState.auth_required m w closed)
closed_refuses env now (commit_state_internal state m) w closed =
    ("EventSink is closed", closed_status env now state m w closed)
