-- ===== src/Storage/Replay.antt =====
-- What a subscriber reads back after a commit: the atomic methods against `get_events_after` and
-- `latest_sequence` (crates/turul-a2a/src/storage/in_memory.rs).
use mathlib.Core.List.{map-append}
use turul_a2a.Prelude.{
  ℕ, ◌+◌, ◌≤◌, ◌≡◌, refl, String, Bool, some, List, [], ◌∷◌, ◌++◌, arith, map, keep, keep-append,
  ltb, length, suc, Option-cases, inl, inr, Result-cases, ok, ◌∙◌, ap, subst,
}
use turul_a2a.Task.{Task, TaskStatus, set_status}
use turul_a2a.Streaming.{StreamEvent}
use turul_a2a.Storage.State.{Store, StoredTask, TaskKey, task_key_eq_iff, LogEntry}
use turul_a2a.Storage.Clock.{Environment, stamp_events, stamp_task}
use turul_a2a.Storage.Action.{key}
use turul_a2a.Storage.Tasks.{check_update}
use turul_a2a.Storage.Events.{
  SequencedEvent, sequenced, counter_of, log_of, append_events, Appended,
}
use turul_a2a.Storage.Atomic.{
  Committed, commit, cas_error, push_marked, update_task_status_with_events, committed_row,
}
use turul_a2a.Storage.Reads.{row_of, log_of-commit, counter_of-commit, check_update-IsChecked}
use turul_a2a.Storage.Sequence.{
  entries_from, upto, append_loop-log, append_loop-counter, append_loop-sequences,
}

-- The events of a task after a sequence number, as the store holds them.
abbrev pub events_after : Store → TaskKey → ℕ → List SequencedEvent
events_after s k n = map sequenced (keep (λ e. ltb n e.sequence) (log_of s k))

keep-entries_from :
    (now n m : ℕ) (events : List StreamEvent)
    → n ≤ m
    → keep (λ e. ltb n e.sequence) (entries_from now m events) ≡ entries_from now m events
keep-entries_from now n m [] h = refl
keep-entries_from now n m (event ∷ events) h =
    ground (arith, keep-entries_from now n (m + 1) events (omega arith))

length-map {ℓ κ} :
    {A : Type ℓ} {B : Type κ} (xs : List A) (f : A → B) → length (map f xs) ≡ length xs
length-map [] f = refl
length-map (x ∷ xs) f = ap suc (length-map xs f)

length-stamp_events :
    (env : Environment) (now : ℕ) (task : Task) (events : List StreamEvent)
    → length (stamp_events env now task events) ≡ length events
unfolding stamp_events
length-stamp_events env now task events = elim (Option-cases task.status) [
  | inl e ↦ rw (e, stamp_events) refl
  | inr (status, e) ↦ rw (e, stamp_events) (length-map events _)
]

append_events-log :
    (marked : StreamEvent → Bool) (now : ℕ) (owner : String) (k : TaskKey)
    (events : List StreamEvent) (s : Store)
    → (append_events marked now owner k events s).log
      ≡ log_of s k ++ entries_from now (counter_of s k) events
unfolding append_events
append_events-log marked now owner k events s = append_loop-log marked now owner k events _

log_of-commit_self :
    (s : Store) (k : TaskKey) (a : Appended) (row : StoredTask)
    → log_of (commit k a row s) k ≡ a.log
log_of-commit_self s k a row = log_of-commit s k k a row ∙ rw ((task_key_eq_iff k k).1 refl) refl

counter_of-commit_self :
    (s : Store) (k : TaskKey) (a : Appended) (row : StoredTask)
    → counter_of (commit k a row s) k ≡ a.counter
counter_of-commit_self s k a row =
    counter_of-commit s k k a row ∙ rw ((task_key_eq_iff k k).1 refl) refl

-- A commit adds its events behind those that a subscriber would have read before it.
commit-events_after :
    (marked : StreamEvent → Bool) (now : ℕ) (owner : String) (k : TaskKey)
    (events : List StreamEvent) (s : Store) (row : StoredTask) (n : ℕ)
    → n ≤ counter_of s k
    → events_after (commit k (append_events marked now owner k events s) row s) k n
      ≡ events_after s k n ++ map sequenced (entries_from now (counter_of s k) events)
commit-events_after marked now owner k events s row n h =
    ap (λ log. map sequenced (keep (λ (e : LogEntry). ltb n e.sequence) log))
      (log_of-commit_self s k (append_events marked now owner k events s) row
        ∙ append_events-log marked now owner k events s)
    ∙ (ap (map sequenced) (
          keep-append (λ (e : LogEntry). ltb n e.sequence) (log_of s k)
            (entries_from now (counter_of s k) events))
        ∙ (map-append sequenced (keep (λ (e : LogEntry). ltb n e.sequence) (log_of s k)) _
            ∙ ap (λ l. events_after s k n ++ map sequenced l)
                (keep-entries_from now n (counter_of s k) events h)))

-- What a committed batch of events has done to a task's sequence.
pub record IsReplayed (s t : Store) (k : TaskKey) (now : ℕ) (events : List StreamEvent)
    (sequences : List ℕ) : Type 0 where
  pub numbered : sequences ≡ upto (counter_of s k) (length events)
  pub counted : counter_of t k ≡ counter_of s k + length events
  pub replayed :
      (n : ℕ)
      → n ≤ counter_of s k
      → events_after t k n
        ≡ events_after s k n ++ map sequenced (entries_from now (counter_of s k) events)

commit-IsReplayed :
    (marked : StreamEvent → Bool) (now : ℕ) (owner : String) (k : TaskKey)
    (events : List StreamEvent) (s : Store) (row : StoredTask)
    → IsReplayed s
        (commit k (append_events marked now owner k events s) row s)
        k
        now
        events
        (append_events marked now owner k events s).sequences
unfolding append_events
commit-IsReplayed marked now owner k events s row = record {
  numbered = append_loop-sequences marked now owner k events (record {
    log = log_of s k;
    counter = counter_of s k;
    sequences = [];
    pending = s.pending_dispatches;
  });
  counted =
      counter_of-commit_self s k (append_events marked now owner k events s) row
      ∙ append_loop-counter marked now owner k events (record {
        log = log_of s k;
        counter = counter_of s k;
        sequences = [];
        pending = s.pending_dispatches;
      });
  replayed = commit-events_after marked now owner k events s row;
}

-- The events that a status update commits: stamped with the time of the new status.
abbrev pub status_events :
    Environment → ℕ → TaskStatus → StoredTask → List StreamEvent → List StreamEvent
status_events env now status row events = stamp_events env now (set_status status row.task) events

-- A status update that succeeds numbers its events consecutively from the counter of the task, and
-- a subscriber that had read up to any earlier number then reads what it would have read before,
-- followed by exactly the events of the call, stamped, in their order and under their numbers.
pub status_update_replay :
    (env : Environment) (now : ℕ) (tenant id owner : String) (status : TaskStatus)
    (events : List StreamEvent) (s : Store) (c : Committed)
    → let result = update_task_status_with_events env now tenant id owner status events s in
      result.0 ≡ ok c
      → (row : StoredTask) × (row_of s (key tenant id) ≡ some row)
        × IsReplayed s result.1
            (key tenant id)
            now
            (status_events env now status row events)
            c.sequences
unfolding update_task_status_with_events
status_update_replay env now tenant id owner status events s c h =
    elim (Result-cases (check_update cas_error tenant id owner status s)) [
      | inl (e, r) ↦ cc (rw r at h)
      | inr (d, r) ↦
          let checked = check_update-IsChecked cas_error tenant id owner status s d r in
          let k = key tenant id in
          let batch = stamp_events env now d.task events in
          let appended = append_events (push_marked env s k) now owner k batch s in
          let same : appended.sequences ≡ c.sequences = ground (arith, rw r at h) in
          let row =
            committed_row now tenant owner (stamp_task now d.task) d.stored appended.sequences in
          (
            d.stored,
            checked.present,
            rw r (
                subst
                  (λ task.
                    IsReplayed s (commit k appended row s) k now (stamp_events env now task events)
                      c.sequences)
                  checked.updated
                  (subst (λ ns. IsReplayed s (commit k appended row s) k now batch ns) same
                    (commit-IsReplayed (push_marked env s k) now owner k batch s row))),
          )
    ]
