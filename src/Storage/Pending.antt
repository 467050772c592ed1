-- ===== src/Storage/Pending.antt =====
-- What the loop of `update_task_status_with_events` does to the pending dispatches
-- (crates/turul-a2a/src/storage/in_memory.rs).
use turul_a2a.Prelude.{
  ℕ, ◌+◌, ◌≡◌, refl, ap, ◌∙◌, String, Bool, true, false, Option, some, List, [], ◌∷◌, arith, any,
  ◌&&◌, if◌then◌else◌, inl, inr, Result-cases, ok,
}
use turul_a2a.Dict.{Dict, get, get-insert}
use turul_a2a.Task.{TaskStatus}
use turul_a2a.Streaming.{StreamEvent}
use turul_a2a.Storage.State.{
  Store, StoredTask, TaskKey, LogEntry, EventLog, PendingDispatchKey, pending_key, pending_key_eq,
  StoredPendingDispatch,
}
use turul_a2a.Storage.Clock.{Environment, stamp_events}
use turul_a2a.Storage.Action.{key}
use turul_a2a.Storage.Tasks.{check_update}
use turul_a2a.Storage.Events.{Appended, mark, append_loop, append_events, counter_of, log_of}
use turul_a2a.Storage.Atomic.{Committed, cas_error, push_marked, update_task_status_with_events}
use turul_a2a.Storage.Sequence.{entries_from}
use turul_a2a.Storage.Reads.{row_of, check_update-IsChecked}
use turul_a2a.Storage.Replay.{status_events}

-- Whether an event of task `k`, under its number, leaves the pending dispatch `p`.
abbrev pub leaves : (StreamEvent → Bool) → TaskKey → PendingDispatchKey → LogEntry → Bool
leaves marked k p e =
    marked e.event
    && pending_key_eq
        (record { tenant = k.tenant; task_id = k.task_id; event_sequence = e.sequence }) p

-- The pending dispatch `p` after a batch: a fresh one where an event of the batch leaves it.
abbrev pub marked_by :
    (StreamEvent → Bool)
    → ℕ
    → String
    → TaskKey
    → EventLog
    → Dict PendingDispatchKey StoredPendingDispatch
    → PendingDispatchKey
    → Option StoredPendingDispatch
marked_by marked now owner k batch pending p =
    if any (leaves marked k p) batch
    then some (record { owner = owner; recorded_at = now })
    else get pending p

get-mark :
    (b : Bool) (now : ℕ) (owner : String) (k : TaskKey) (seq : ℕ)
    (pending : Dict PendingDispatchKey StoredPendingDispatch) (p : PendingDispatchKey)
    → get (mark b now owner k seq pending) p ≡ (
        if b
          && pending_key_eq
              (record { tenant = k.tenant; task_id = k.task_id; event_sequence = seq })
              p
        then some (record { owner = owner; recorded_at = now })
        else get pending p)
unfolding mark
get-mark false now owner k seq pending p = refl
get-mark true now owner k seq pending p =
    get-insert pending (record { tenant = k.tenant; task_id = k.task_id; event_sequence = seq }) p
      (record { owner = owner; recorded_at = now })

append_loop-pending :
    (marked : StreamEvent → Bool) (now : ℕ) (owner : String) (k : TaskKey)
    (events : List StreamEvent) (a : Appended) (p : PendingDispatchKey)
    → get (append_loop marked now owner k events a).pending p
      ≡ marked_by marked now owner k (entries_from now a.counter events) a.pending p
unfolding append_loop
append_loop-pending marked now owner k [] a p = refl
append_loop-pending marked now owner k (event ∷ events) a p =
    append_loop-pending marked now owner k events _ p
    ∙ ground (arith, get-mark (marked event) now owner k (a.counter + 1) a.pending p)

append_events-pending :
    (marked : StreamEvent → Bool) (now : ℕ) (owner : String) (k : TaskKey)
    (events : List StreamEvent) (s : Store) (p : PendingDispatchKey)
    → get (append_events marked now owner k events s).pending p
      ≡ marked_by marked now owner k
          (entries_from now (counter_of s k) events)
          s.pending_dispatches
          p
unfolding append_events
append_events-pending marked now owner k events s p =
    append_loop-pending marked now owner k events
      (record {
        log = log_of s k;
        counter = counter_of s k;
        sequences = [];
        pending = s.pending_dispatches;
      })
      p

-- What a status update leaves, by the test of its loop.
pub status_update_marked :
    (env : Environment) (now : ℕ) (tenant id owner : String) (status : TaskStatus)
    (events : List StreamEvent) (s : Store) (c : Committed)
    → let result = update_task_status_with_events env now tenant id owner status events s in
      result.0 ≡ ok c
      → (row : StoredTask) × (row_of s (key tenant id) ≡ some row)
        × ((p : PendingDispatchKey)
            → get (result.1).pending_dispatches p
              ≡ marked_by
                  (push_marked env s (key tenant id))
                  now
                  owner
                  (key tenant id)
                  (entries_from now
                    (counter_of s (key tenant id))
                    (status_events env now status row events))
                  s.pending_dispatches
                  p)
unfolding update_task_status_with_events
status_update_marked env now tenant id owner status events s c h =
    elim (Result-cases (check_update cas_error tenant id owner status s)) [
      | inl (e, r) ↦ cc (rw r at h)
      | inr (d, r) ↦
          let checked = check_update-IsChecked cas_error tenant id owner status s d r in
          (
            d.stored,
            checked.present,
            rw r λ p.
                append_events-pending (push_marked env s (key tenant id)) now owner (key tenant id)
                  (stamp_events env now d.task events) s p
                ∙ ap
                    (λ task.
                      marked_by (push_marked env s (key tenant id)) now owner (key tenant id)
                        (entries_from now (counter_of s (key tenant id))
                          (stamp_events env now task events))
                        s.pending_dispatches p)
                    checked.updated,
          )
    ]
