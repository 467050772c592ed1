-- ===== src/Storage/Events.antt =====
-- `impl A2aEventStore for InMemoryA2aStorage` (crates/turul-a2a/src/storage/in_memory.rs), but for
-- `cleanup_expired`, and the loop by which the atomic methods append events. A counter is a `u64`
-- that grows by one with each event; it is unbounded here.
use turul_a2a.Prelude.{
  ℕ, ◌+◌, String, Bool, true, false, Option, none, some, List, [], ◌∷◌, ◌++◌, map, ltb, keep, ok,
}
use turul_a2a.Streaming.{StreamEvent}
use turul_a2a.Dict.{Dict, get, insert}
use turul_a2a.Storage.State.{
  Store, TaskKey, task_key, LogEntry, EventLog, PendingDispatchKey, pending_key,
  StoredPendingDispatch,
}
use turul_a2a.Storage.Action.{Action, reads, key}

-- `counters.get(&key).unwrap_or(&0)`
unfoldable pub counter_of : Store → TaskKey → ℕ
counter_of s k = elim (get s.event_counters k) [ none ↦ 0 | some n ↦ n ]

-- `or_default()` of a log.
abbrev pub or_empty : Option EventLog → EventLog
or_empty none = []
or_empty (some log) = log

-- The log of a task, empty if there is none.
unfoldable pub log_of : Store → TaskKey → EventLog
log_of s k = or_empty (get s.events k)

unfoldable pub append_event : ℕ → String → String → StreamEvent → Action ℕ
append_event now tenant task_id event s =
    let k = key tenant task_id in
    let seq = counter_of s k + 1 in
    let entry : LogEntry = record { sequence = seq; event = event; appended_at = now } in
    (
      ok seq,
      record s {
        event_counters = insert s.event_counters k seq;
        events = insert s.events k (log_of s k ++ entry ∷ []);
      },
    )

-- An event as the trait returns it: with its sequence number, without its append time.
pub record SequencedEvent : Type 0 where
  pub sequence : ℕ
  pub event : StreamEvent

abbrev pub sequenced : LogEntry → SequencedEvent
sequenced e = record { sequence = e.sequence; event = e.event }

unfoldable pub get_events_after : String → String → ℕ → Action (List SequencedEvent)
unfolding log_of
get_events_after tenant task_id after_sequence =
    reads (λ s.
      map sequenced (keep (λ e. ltb after_sequence e.sequence) (log_of s (key tenant task_id))))

unfoldable pub latest_sequence : String → String → Action ℕ
unfolding counter_of
latest_sequence tenant task_id = reads (λ s. counter_of s (key tenant task_id))

-- The variables of the append loop.
pub record Appended : Type 0 where
  pub log : EventLog
  pub counter : ℕ
  pub sequences : List ℕ
  pub pending : Dict PendingDispatchKey StoredPendingDispatch

-- `guard.insert((tenant, task_id, seq), StoredPendingDispatch { .. })` for a marked event.
unfoldable pub mark :
    Bool
    → ℕ
    → String
    → TaskKey
    → ℕ
    → Dict PendingDispatchKey StoredPendingDispatch
    → Dict PendingDispatchKey StoredPendingDispatch
mark false now owner k seq pending = pending
mark true now owner k seq pending =
    insert pending (record { tenant = k.tenant; task_id = k.task_id; event_sequence = seq })
      (record { owner = owner; recorded_at = now })

-- The loop `for event in events`. `marked` says which events leave a pending dispatch.
unfoldable pub append_loop :
    (StreamEvent → Bool) → ℕ → String → TaskKey → List StreamEvent → Appended → Appended
unfolding mark
append_loop marked now owner k [] a = a
append_loop marked now owner k (event ∷ events) a = append_loop marked now owner k events (record {
  log = a.log ++ record { sequence = a.counter + 1; event = event; appended_at = now } ∷ [];
  counter = a.counter + 1;
  sequences = a.sequences ++ (a.counter + 1) ∷ [];
  pending = mark (marked event) now owner k (a.counter + 1) a.pending;
})

-- The loop from the log and the counter of the store.
unfoldable pub append_events :
    (StreamEvent → Bool) → ℕ → String → TaskKey → List StreamEvent → Store → Appended
unfolding append_loop log_of counter_of
append_events marked now owner k events s = append_loop marked now owner k events (record {
  log = log_of s k;
  counter = counter_of s k;
  sequences = [];
  pending = s.pending_dispatches;
})
