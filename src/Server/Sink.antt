-- ===== src/Server/Sink.antt =====
-- `EventSink`, the writer that an executor is given (crates/turul-a2a/src/event_sink.rs). Every
-- operation holds `commit_lock`; what other writers of the store do between the read and the write
-- of an artifact is an argument.
pub mod Races
pub mod Commits
pub mod Soundness
pub mod Yield
use Prim.Native.String.{◌++◌}
use turul_a2a.Prelude.{
  ℕ, String, Bool, true, false, Option, none, some, List, [], ◌∷◌, Result, ok, err, ◌||◌,
  if◌then◌else◌,
}
use turul_a2a.TaskState.{TaskState, is_terminal, contains, client_held_states}
use turul_a2a.Message.{Json, Message, Artifact, Part, PartContent, Role}
use turul_a2a.Task.{Task, TaskStatus, status_new, merge_artifact}
use turul_a2a.Streaming.{StreamEvent, status_update, artifact_update}
use turul_a2a.Errors.{A2aError, of_storage}
use turul_a2a.Storage.State.{Store, StorageError}
use turul_a2a.Storage.Clock.{Environment}
use turul_a2a.Storage.Tasks.{get_task}
use turul_a2a.Storage.Requests.{Update, serve_updates}
use turul_a2a.Storage.Atomic.{Committed, update_task_status_with_events, update_task_with_events}
use turul_a2a.Server.Handle.{
  Handle, record_progress, set_client_held, mark_terminal_committed, fire_yielded,
}

-- The generated and third-party code that the sink calls.
pub record SinkEnvironment : Type 0 where
  pub storage : Environment
  pub encode_status : TaskStatus → Json  -- `serde_json::to_value(&status).unwrap_or_default()`
  pub encode_artifact : Artifact → Json  -- `serde_json::to_value(&artifact).unwrap_or_default()`
  pub display : StorageError → String  -- the derived text of a storage error

-- `EventSinkInner`, without the shared objects.
pub record Sink : Type 0 where
  pub tenant : String
  pub task_id : String
  pub context_id : String
  pub owner : String
  pub is_closed : Bool
  pub is_interrupted : Bool
  pub has_dispatcher : Bool

-- A call of the push dispatcher.
pub record Dispatch : Type 0 where
  pub tenant : String
  pub owner : String
  pub task : Task
  pub event_sequence : ℕ
  pub event : StreamEvent

-- The sink with the objects that it shares: the handle, the store, the wake-ups sent to the broker
-- and the calls of the push dispatcher, latest first.
pub record World : Type 0 where
  pub sink : Sink
  pub handle : Handle
  pub store : Store
  pub notified : List String
  pub dispatched : List Dispatch

abbrev pub SinkAction : Type 0
SinkAction = World → Result A2aError ℕ × World

-- `TaskStatus::with_message`
abbrev pub with_message : Option Message → TaskStatus → TaskStatus
with_message none status = status
with_message (some m) status = record status { message = some m }

-- `text_message_from_agent`; `uuid` is the one that the call would draw.
unfoldable pub text_message_from_agent : String → String → Message
text_message_from_agent uuid reason = record {
  message_id = uuid;
  context_id = "";
  task_id = "";
  role = Role.agent;
  parts =
      record {
        content = some (PartContent.text reason);
        metadata = none;
        filename = "";
        media_type = "text/plain";
      }
      ∷ [];
  metadata = none;
  extensions = [];
  reference_task_ids = [];
}

abbrev pub reason_message : String → Option String → Option Message
unfolding text_message_from_agent
reason_message uuid none = none
reason_message uuid (some reason) = some (text_message_from_agent uuid reason)

abbrev pub closed_error : A2aError
closed_error = A2aError.invalid_request "EventSink is closed"

abbrev pub lost_error : String → A2aError
lost_error state =
    A2aError.invalid_request ("EventSink is closed: terminal already set (" ++ (state ++ ")"))

-- `seqs.first().copied().unwrap_or(0)`
abbrev pub first_or_zero : List ℕ → ℕ
first_or_zero [] = 0
first_or_zero (n ∷ _) = n

-- How a failed commit ends: the race that another terminal writer won closes the sink.
unfoldable pub refused : SinkEnvironment → StorageError → SinkAction
unfolding of_storage
refused env (StorageError.terminal_state_already_set _ current) w =
    (err (lost_error current), record w { sink = record w.sink { is_closed = true } })
refused env other w = (err (of_storage env.display other), w)

-- The status update that is committed, and the one that is dispatched.
abbrev pub status_event : SinkEnvironment → Sink → TaskStatus → StreamEvent
status_event env sink status = status_update (record {
  task_id = sink.task_id;
  context_id = sink.context_id;
  status = env.encode_status status;
})

-- `dispatcher.dispatch(..)`, if there is a dispatcher.
abbrev pub dispatch : SinkEnvironment → TaskState → Task → ℕ → World → List Dispatch
unfolding status_new
dispatch env state task seq w =
    if (w.sink).has_dispatcher
    then record {
      tenant = (w.sink).tenant;
      owner = (w.sink).owner;
      task = task;
      event_sequence = seq;
      event = status_event env w.sink (status_new state);
    }
      ∷ w.dispatched
    else w.dispatched

-- The handle after a status commit.
abbrev pub handle_after : ℕ → TaskState → Task → Handle → Handle
unfolding fire_yielded is_terminal contains
handle_after now state task h =
    let held = contains client_held_states state in
    let progressed = set_client_held held (record_progress now h) in
    let marked = if is_terminal state then mark_terminal_committed progressed else progressed in
    if is_terminal state || held then (fire_yielded task marked).1 else marked

-- What follows a status commit that the store accepted.
unfoldable pub status_committed : SinkEnvironment → ℕ → TaskState → Committed → Store → SinkAction
unfolding is_terminal contains dispatch handle_after
status_committed env now state c store w =
    let seq = first_or_zero c.sequences in
    (
      ok seq,
      record w {
        sink = record w.sink {
          is_interrupted = contains client_held_states state;
          is_closed = if is_terminal state then true else (w.sink).is_closed;
        };
        handle = handle_after now state c.task w.handle;
        store = store;
        notified = (w.sink).task_id ∷ w.notified;
        dispatched = dispatch env state c.task seq w;
      },
    )

-- `commit_status`
unfoldable pub commit_status : SinkEnvironment → ℕ → TaskState → Option Message → SinkAction
unfolding status_new update_task_status_with_events
commit_status env now state message w =
    let status = with_message message (status_new state) in
    let attempt =
      update_task_status_with_events env.storage now (w.sink).tenant (w.sink).task_id (w.sink).owner
        status (status_event env w.sink status ∷ []) w.store in
    if (w.sink).is_closed then (err closed_error, w) else (elim attempt.0 [
      | ok c ↦ status_committed env now state c attempt.1 w
      | err e ↦ refused env e (record w { store = attempt.1 })
    ])

abbrev pub artifact_event : SinkEnvironment → Sink → Artifact → Bool → Bool → StreamEvent
artifact_event env sink artifact append last_chunk = artifact_update (record {
  task_id = sink.task_id;
  context_id = sink.context_id;
  artifact = env.encode_artifact artifact;
  append = append;
  last_chunk = last_chunk;
})

-- What follows an artifact that the store accepted.
abbrev pub artifact_committed : ℕ → List ℕ → Store → SinkAction
artifact_committed now seqs store w = (
  ok (first_or_zero seqs),
  record w {
    handle = record_progress now w.handle;
    store = store;
    notified = (w.sink).task_id ∷ w.notified;
  },
)

-- The write of `commit_artifact`, after its read gave `task`.
unfoldable pub write_artifact : SinkEnvironment → ℕ → Artifact → Bool → Bool → Task → SinkAction
unfolding merge_artifact update_task_with_events
write_artifact env now artifact append last_chunk task w =
    let event = artifact_event env w.sink artifact append last_chunk in
    let attempt =
      update_task_with_events env.storage now (w.sink).tenant (w.sink).owner
        (merge_artifact artifact append last_chunk task) (event ∷ []) w.store in
    elim attempt.0 [
      | ok seqs ↦ artifact_committed now seqs attempt.1 w
      | err e ↦ refused env e (record w { store = attempt.1 })
    ]

-- `commit_artifact`; `between` is what others do to the store between its read and its write.
unfoldable pub commit_artifact :
    SinkEnvironment → ℕ → List Update → Artifact → Bool → Bool → SinkAction
unfolding get_task write_artifact serve_updates
commit_artifact env now between artifact append last_chunk w =
    let attempt = get_task (w.sink).tenant (w.sink).task_id (w.sink).owner none w.store in
    if (w.sink).is_closed then (err closed_error, w) else (elim attempt.0 [
      | err e ↦ (err (of_storage env.display e), w)
      | ok none ↦ (err (A2aError.task_not_found (w.sink).task_id), w)
      | ok (some task) ↦
          write_artifact env now artifact append last_chunk task
            (record w { store = serve_updates env.storage between w.store })
    ])

-- `{state:?}`
unfoldable pub debug_name : TaskState → String
debug_name TaskState.submitted = "Submitted"
debug_name TaskState.working = "Working"
debug_name TaskState.completed = "Completed"
debug_name TaskState.failed = "Failed"
debug_name TaskState.canceled = "Canceled"
debug_name TaskState.input_required = "InputRequired"
debug_name TaskState.rejected = "Rejected"
debug_name TaskState.auth_required = "AuthRequired"

abbrev pub refused_text : TaskState → String
unfolding debug_name
refused_text state =
    "set_status does not accept terminal state "
    ++ (debug_name state ++ "; use complete/fail/cancelled/reject")

-- `set_status`: only the states that are not terminal.
unfoldable pub set_sink_status : SinkEnvironment → ℕ → TaskState → Option Message → SinkAction
unfolding is_terminal refused_text commit_status
set_sink_status env now state message w =
    if is_terminal state
    then (err (A2aError.invalid_request (refused_text state)), w)
    else commit_status env now state message w

-- `heartbeat`, which answers nothing, also when the sink is closed
unfoldable pub heartbeat : ℕ → World → World
heartbeat now w = record w { handle = record_progress now w.handle }

-- The operations of an attached sink that answer, all but `heartbeat`. A `String` before a reason is the UUID that the call
-- would draw.
pub data SinkCall : Type 0 where
  set_state : TaskState → Option Message → SinkCall
  emit_artifact : List Update → Artifact → Bool → Bool → SinkCall
  complete : Option Message → SinkCall
  fail : String → Option String → SinkCall
  cancelled : String → Option String → SinkCall
  reject : String → Option String → SinkCall
  require_input : Option Message → SinkCall
  require_auth : Option Message → SinkCall
  commit_state_internal : TaskState → Option Message → SinkCall

unfoldable pub sink_call : SinkEnvironment → ℕ → SinkCall → SinkAction
unfolding set_sink_status commit_artifact commit_status reason_message
sink_call env now (set_state state message) = set_sink_status env now state message
sink_call env now (emit_artifact between artifact append last_chunk) =
    commit_artifact env now between artifact append last_chunk
sink_call env now (complete message) = commit_status env now TaskState.completed message
sink_call env now (fail uuid reason) =
    commit_status env now TaskState.failed (reason_message uuid reason)
sink_call env now (cancelled uuid reason) =
    commit_status env now TaskState.canceled (reason_message uuid reason)
sink_call env now (reject uuid reason) =
    commit_status env now TaskState.rejected (reason_message uuid reason)
sink_call env now (require_input prompt) = commit_status env now TaskState.input_required prompt
sink_call env now (require_auth challenge) = commit_status env now TaskState.auth_required challenge
sink_call env now (commit_state_internal state message) = commit_status env now state message
