-- ===== src/Tests/Server.antt =====
-- The theorems on the server's runtime at concrete states.
use turul_a2a.Prelude.{
  negsuc, suc, ℕ, some, ◌≡◌, refl, String, true, false, none, List, [], ◌∷◌, ok, err, arith,
}
use turul_a2a.TaskState.{TaskState, is_terminal, state_eq, of_proto, of_number, contains}
use turul_a2a.Task.{task_state, task_status, status_try_from, status_state, proto_of_i32}
use turul_a2a.Message.{object, end}
use turul_a2a.Dict.{get, find}
use turul_a2a.Errors.{A2aError, jsonrpc_code}
use turul_a2a.Errors.Transports.{documented, reported, jsonrpc_code-documented}
use turul_a2a.Storage.State.{StorageError, task_key, task_key_eq_iff, new}
use turul_a2a.Storage.Action.{key}
use turul_a2a.Storage.Requests.{create_with_events}
use turul_a2a.Storage.Replay.{events_after}
use turul_a2a.Storage.Sequence.Preserved.{new-IsWellFormed}
use turul_a2a.Server.Handle.{handle_new}
use turul_a2a.Server.Sink.{SinkEnvironment, World, sink_call, set_state, complete, fail}
use turul_a2a.Server.Sink.Commits.{IsSound}
use turul_a2a.Server.Sink.Soundness.{Step, calls, beats, others, run, run-IsSound, closed_refuses}
use turul_a2a.Server.Sink.Yield.{IsYielded, yields_once}
use turul_a2a.Server.Subscription.{
  Wake, task, closes, closes_stream, event_items, task_event_stream,
}
use turul_a2a.Server.Subscription.Reads.{up_to_closing, payloads}
use turul_a2a.Server.Subscription.Complete.{final_store, stream_complete}
use turul_a2a.Tests.Data
use turul_a2a.Tests.Data.{env, working, now, store, finished}

jsonrpc_code-documented_example :
    (n : ℕ) × (jsonrpc_code (A2aError.unsupported_operation "a") ≡ negsuc n)
    × (documented (jsonrpc_code (A2aError.unsupported_operation "a"))
        ≡ some (reported (suc n) (A2aError.unsupported_operation "a")))
jsonrpc_code-documented_example = jsonrpc_code-documented (A2aError.unsupported_operation "a")

abbrev sink_env : SinkEnvironment
sink_env = record {
  storage = env;
  encode_status = λ _. object end;
  encode_artifact = λ _. object end;
  display = λ _. "storage error";
}

-- An executor that works on the task of the store.
abbrev world : World
world = record {
  sink = record {
    tenant = "acme";
    task_id = "task-1";
    context_id = "ctx";
    owner = "alice";
    is_closed = false;
    is_interrupted = false;
    has_dispatcher = true;
  };
  handle = handle_new 0;
  store = store working;
  notified = [];
  dispatched = [];
}

abbrev steps : List Step
steps =
    calls now (set_state TaskState.input_required none)
    ∷ beats now
    ∷ others []
    ∷ calls now (complete none)
    ∷ calls now (fail "id" none)
    ∷ []

world-IsSound : IsSound world
unfolding get find handle_new
world-IsSound = record {
  named = λ k row h. ground (arith, task_key_eq_iff (key "acme" "task-1") k);
  ended = λ h. absurd (ground arith);
  marked = λ h. absurd (ground arith);
}

run-IsSound_example : IsSound (run sink_env steps world)
run-IsSound_example = run-IsSound sink_env steps world world-IsSound

abbrev closed : World
closed = record world { sink = record world.sink { is_closed = true } }

closed_refuses_example :
    (text : String) × (sink_call sink_env now (complete none) closed
      ≡ (err (A2aError.invalid_request text), closed))
closed_refuses_example = closed_refuses sink_env now (complete none) closed refl

abbrev yielded : World
yielded = record world { handle = record (handle_new 0) { yielded_fired = true } }

yields_once_example : IsYielded ((run sink_env steps yielded).handle) yielded.handle
unfolding handle_new
yields_once_example = yields_once sink_env steps yielded refl

-- A task that is created and finished between two reads.
abbrev wake : Wake
wake = record {
  others = create_with_events now "acme" "alice" (Data.task working) (finished ∷ []) ∷ [];
  fault = none;
  is_last = false;
}

abbrev shown : StorageError → String
shown _ = "storage error"

stream_complete_example :
    task_event_stream env shown "acme" "task-1" (Data.task working) 0 (wake ∷ []) new
    ≡ ok (task (Data.task working))
      ∷ event_items (
          up_to_closing env
            (payloads (events_after (final_store env (wake ∷ []) new) (key "acme" "task-1") 0)))
unfolding closes closes_stream task_state task_status status_try_from status_state proto_of_i32
    of_proto of_number is_terminal contains state_eq
stream_complete_example =
    stream_complete env shown "acme" "task-1" (Data.task working) 0 wake [] new refl
      ((refl, refl, (tt, tt)), tt) new-IsWellFormed (omega arith)
