-- ===== src/Tests/Storage.antt =====
-- The storage theorems at a small store.
use turul_a2a.Prelude.{true, ◌≢◌, arith, str_eq_iff, ◌≡◌, refl, some, List, [], ◌∷◌, ok}
use turul_a2a.TaskState.{
  TaskState, is_terminal, contains, of_proto, of_number, state_eq, validate_transition,
}
use turul_a2a.Task.{
  task_state, task_status, status_state, status_try_from, proto_of_i32, task_try_from, set_status,
}
use turul_a2a.Dict.{get, find}
use turul_a2a.Prelude.{str_eq}
use turul_a2a.Storage.State.{StoredTask, task_not_found, RetentionConfig, configured, task_key_eq}
use turul_a2a.Storage.Tasks.{check_update, owned_task, find_task, set_cancel_requested, cancelable}
use turul_a2a.Storage.Atomic.{Committed, update_task_status_with_events}
use turul_a2a.Storage.Clock.{stamp_task, stamp_events, stamped}
use turul_a2a.Storage.Events.{append_events, append_loop, mark, counter_of}
use turul_a2a.Storage.Requests.{perform_update}
use turul_a2a.Storage.Requests.{
  Request, Update, perform, serve, serve_updates, set_state, commit_state, commit_task,
  request_cancel, update, create_with_events, cleanup,
}
use turul_a2a.Storage.Kept.{IsOver, IsKept}
use turul_a2a.Storage.Terminal.{serve_updates-IsKept}
use turul_a2a.Storage.Sequence.WellFormed.{IsWellFormed}
use turul_a2a.Storage.Sequence.Preserved.{serve-IsWellFormed}
use turul_a2a.Storage.Replay.{IsReplayed, status_update_replay, status_events}
use turul_a2a.Storage.Reads.{row_of}
use turul_a2a.Storage.Atomicity.{perform_error_unchanged}
use turul_a2a.Storage.Isolation.{
  IsStranger, address, update_address, turned_away, stranger_turned_away,
}
use turul_a2a.Storage.Epoch.{epoch_secs-now_iso}
use turul_a2a.Storage.Clock.{epoch_secs, now_iso}
use turul_a2a.Prelude.{◌/◌, ◌<◌, ◌^◌}
use turul_a2a.Tests.Data.{env, working, completed, canceled, task, finished, now, k, row, store}

is_over : IsOver (store completed) k (row completed)
unfolding get find task_key_eq str_eq task_state is_terminal
is_over = record { there = refl; state = TaskState.completed; has_state = refl; over = refl }

abbrev late_writers : List Update
late_writers =
    set_state now "acme" "task-1" "alice" canceled
    ∷ commit_state now "acme" "task-1" "alice" working (finished ∷ [])
    ∷ commit_task now "acme" "alice" (task canceled) []
    ∷ request_cancel "acme" "task-1" "alice"
    ∷ []

serve_updates-IsKept_example :
    IsKept (serve_updates env late_writers (store completed)) k (row completed)
serve_updates-IsKept_example =
    serve_updates-IsKept env late_writers (store completed) k (row completed) is_over

abbrev life : List Request
life =
    create_with_events now "acme" "alice" (task working) (finished ∷ [])
    ∷ update (commit_state now "acme" "task-1" "alice" completed (finished ∷ []))
    ∷ cleanup now
    ∷ []

-- Tasks and events live for a minute.
abbrev short : RetentionConfig
short = record { task_ttl_seconds = 60; event_ttl_seconds = 60; cleanup_batch_size = 10 }

serve-IsWellFormed_example : IsWellFormed (serve env life (configured short true))
serve-IsWellFormed_example = serve-IsWellFormed env short true life

abbrev result : Committed
result = record { task = stamp_task now (set_status completed (task working)); sequences = 1 ∷ [] }

commit_succeeds :
    (update_task_status_with_events env now "acme" "task-1" "alice" completed
      (finished ∷ [])
      (store working)).0
    ≡ ok result
unfolding update_task_status_with_events check_update owned_task find_task get find task_key_eq
    str_eq task_status status_try_from status_state proto_of_i32 of_number of_proto
    validate_transition append_events append_loop mark counter_of stamp_events stamped state_eq
    contains set_status task_try_from
commit_succeeds = refl

missing_task :
    (perform env (update (request_cancel "acme" "task-2" "alice")) (store working)).error
    ≡ some (task_not_found "task-2")
unfolding perform perform_update set_cancel_requested cancelable owned_task find_task get find
    task_key_eq str_eq
missing_task = refl

perform_error_unchanged_example :
    (perform env (update (request_cancel "acme" "task-2" "alice")) (store working)).store
    ≡ store working
perform_error_unchanged_example =
    perform_error_unchanged env (update (request_cancel "acme" "task-2" "alice")) (store working)
      (task_not_found "task-2") missing_task

status_update_replay_example :
    (before : StoredTask) × (row_of (store working) k ≡ some before)
    × IsReplayed
        (store working)
        (update_task_status_with_events env now "acme" "task-1" "alice" completed
          (finished ∷ [])
          (store working)).1
        k
        now
        (status_events env now completed before (finished ∷ []))
        (1 ∷ [])
status_update_replay_example =
    status_update_replay env now "acme" "task-1" "alice" completed (finished ∷ []) (store working)
      result commit_succeeds

-- Bob tries to complete Alice's task.
abbrev bobs_call : Request
bobs_call = update (commit_state now "acme" "task-1" "bob" completed (finished ∷ []))

alice_is_not_bob : str_eq "alice" "bob" ≢ true
unfolding str_eq
alice_is_not_bob e = ground arith

bobs_call-IsStranger : IsStranger (store working) (address bobs_call)
unfolding IsStranger address update_address get find task_key_eq str_eq
bobs_call-IsStranger = (row working, refl, λ e. alice_is_not_bob ((str_eq_iff "alice" "bob").1 e))

stranger_turned_away_example :
    perform env bobs_call (store working) ≡ turned_away bobs_call (store working)
stranger_turned_away_example =
    stranger_turned_away env bobs_call (store working) bobs_call-IsStranger

now_fits : now / 1_000_000_000 < 2 ^ 64
now_fits = omega arith

epoch_secs-now_iso_example : epoch_secs (now_iso now) ≡ some (now / 1_000_000_000)
epoch_secs-now_iso_example = epoch_secs-now_iso now now_fits
