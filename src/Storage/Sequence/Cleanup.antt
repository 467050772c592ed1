-- ===== src/Storage/Sequence/Cleanup.antt =====
-- What `cleanup_expired` (crates/turul-a2a/src/storage/in_memory.rs) leaves of the event sequences.
use turul_a2a.Prelude.{
  false, ℕ, zero, suc, ◌+◌, ◌*◌, ◌/◌, ◌≤◌, ◌≡◌, refl, Bool, none, some, List, [], ◌∷◌, arith,
  length, ltb, leb, ◌==◌, Bool-cases, inl, inr, ◌∙◌,
}
use turul_a2a.Dict.{Dict, get, find, remove, get-remove}
use turul_a2a.Storage.State.{
  Store, StoredTask, TaskKey, task_key, task_key_eq, task_key_eq_iff, batch, LogEntry, EventLog,
}
use turul_a2a.Storage.Events.{counter_of, log_of, or_empty}
use turul_a2a.Storage.Configs.{floor_of}
use turul_a2a.Storage.Cleanup.{
  Swept, unswept, expired_keys, remove_all, sweep_tasks, scan_log, scan_logs, drop_emptied, emptied,
  sweep_batch, sweep_events, cleanup_expired, entry_count, event_expired,
}
use turul_a2a.Storage.Sequence.{Ascending}
use turul_a2a.Storage.Sequence.WellFormed.{IsShrunk, stamp_of}

-- The floor that a row gives.
abbrev floor_at : Dict TaskKey StoredTask → TaskKey → ℕ
floor_at tasks k = elim (get tasks k) [ none ↦ 0 | some row ↦ row.latest_event_sequence ]

remove_all-floor :
    (ks : List TaskKey) (tasks : Dict TaskKey StoredTask) (k : TaskKey)
    → floor_at (remove_all ks tasks) k ≤ floor_at tasks k
unfolding remove_all
remove_all-floor [] tasks k = omega arith
remove_all-floor (j ∷ ks) tasks k =
    ground (arith, remove_all-floor ks (remove tasks j) k, get-remove tasks j k)

sweep_tasks-floor :
    (fuel size now ttl : ℕ) (swept : Swept (Dict TaskKey StoredTask)) (k : TaskKey)
    → floor_at (sweep_tasks fuel size now ttl swept).rows k ≤ floor_at swept.rows k
unfolding sweep_tasks
sweep_tasks-floor zero size now ttl swept k = omega arith
sweep_tasks-floor (suc fuel) size now ttl swept k = ground (
  arith,
  remove_all-floor (expired_keys size now ttl swept.rows) swept.rows k,
  sweep_tasks-floor fuel size now ttl
      (record {
        rows = remove_all (expired_keys size now ttl swept.rows) swept.rows;
        removed = swept.removed + length (expired_keys size now ttl swept.rows);
        is_done = false;
      })
      k,
)

Ascending-weaken :
    (lo lo' hi : ℕ) (log : EventLog) → lo ≤ lo' → Ascending lo' hi log → Ascending lo hi log
Ascending-weaken lo lo' hi [] h a = omega arith
Ascending-weaken lo lo' hi (e ∷ log) h a = (omega (arith, a.0), a.1)

scan_log-Ascending :
    (size : ℕ) (expired : LogEntry → Bool) (log : EventLog) (n lo hi : ℕ)
    → Ascending lo hi log
    → Ascending lo hi (scan_log size expired log n).rows
unfolding scan_log
scan_log-Ascending size expired [] n lo hi a = a
scan_log-Ascending size expired (e ∷ log) n lo hi a = elim (Bool-cases (expired e)) [
  | inl x ↦ rw x (elim (Bool-cases (leb size (n + 1))) [
    | inl y ↦ rw y (Ascending-weaken lo e.sequence hi log (omega (arith, a.0)) a.1)
    | inr y ↦ rw y (
        scan_log-Ascending size expired log (n + 1) lo hi
          (Ascending-weaken lo e.sequence hi log (omega (arith, a.0)) a.1))
  ])
  | inr x ↦ rw x (a.0, scan_log-Ascending size expired log n e.sequence hi a.1)
]

head-Ascending :
    (j k : TaskKey) (log log' : EventLog) (logs logs' : List (TaskKey × EventLog)) (hi : ℕ)
    → (Ascending 0 hi log → Ascending 0 hi log')
    → (Ascending 0 hi (or_empty (find k logs)) → Ascending 0 hi (or_empty (find k logs')))
    → Ascending 0 hi (or_empty (find k ((j, log) ∷ logs)))
    → Ascending 0 hi (or_empty (find k ((j, log') ∷ logs')))
unfolding find
head-Ascending j k log log' logs logs' hi f g a = elim (Bool-cases (task_key_eq j k)) [
  | inl x ↦ rw x (f (rw x at a))
  | inr x ↦ rw x (g (rw x at a))
]

scan_logs-Ascending :
    (size : ℕ) (expired : LogEntry → Bool) (logs : List (TaskKey × EventLog)) (n hi : ℕ)
    (k : TaskKey)
    → Ascending 0 hi (or_empty (find k logs))
    → Ascending 0 hi (or_empty (find k (scan_logs size expired logs n).rows))
unfolding scan_logs
scan_logs-Ascending size expired [] n hi k a = a
scan_logs-Ascending size expired ((j, log) ∷ logs) n hi k a =
    elim (Bool-cases (scan_log size expired log n).full) [
      | inl x ↦ rw x (
          head-Ascending j k log _ logs logs hi (scan_log-Ascending size expired log n 0 hi)
            (λ b. b) a)
      | inr x ↦ rw x (
          head-Ascending j k log _ logs _ hi (scan_log-Ascending size expired log n 0 hi)
            (scan_logs-Ascending size expired logs (scan_log size expired log n).deleted hi k) a)
    ]

drop_emptied-log :
    (ks : List TaskKey) (events : Dict TaskKey EventLog) (k : TaskKey)
    → or_empty (get (drop_emptied ks events) k) ≡ or_empty (get events k)
unfolding drop_emptied
drop_emptied-log [] events k = refl
drop_emptied-log (j ∷ ks) events k =
    drop_emptied-log ks _ k ∙ ground (arith, get-remove events j k, task_key_eq_iff j k)

sweep_batch-Ascending :
    (size : ℕ) (expired : LogEntry → Bool) (events : Dict TaskKey EventLog) (hi : ℕ) (k : TaskKey)
    → Ascending 0 hi (or_empty (get events k))
    → Ascending 0 hi (or_empty (get (sweep_batch size expired events).rows k))
unfolding sweep_batch get
sweep_batch-Ascending size expired events hi k a =
    rw
      (drop_emptied-log (emptied size expired events.entries 0)
        (record { entries = (scan_logs size expired events.entries 0).rows }) k)
      (scan_logs-Ascending size expired events.entries 0 hi k a)

sweep_events-Ascending :
    (fuel size : ℕ) (expired : LogEntry → Bool) (swept : Swept (Dict TaskKey EventLog)) (hi : ℕ)
    (k : TaskKey)
    → Ascending 0 hi (or_empty (get swept.rows k))
    → Ascending 0 hi (or_empty (get (sweep_events fuel size expired swept).rows k))
unfolding sweep_events
sweep_events-Ascending zero size expired swept hi k a = a
sweep_events-Ascending (suc fuel) size expired swept hi k a =
    elim (Bool-cases (ltb (sweep_batch size expired swept.rows).deleted size)) [
      | inl x ↦ rw x (sweep_batch-Ascending size expired swept.rows hi k a)
      | inr x ↦ rw x (
          sweep_events-Ascending fuel size expired _ hi k
            (sweep_batch-Ascending size expired swept.rows hi k a))
    ]

-- `cleanup_expired` loses rows and nothing else of the sequences.
pub cleanup_expired-IsShrunk : (now : ℕ) (s : Store) → IsShrunk s (cleanup_expired now s).1
unfolding cleanup_expired counter_of log_of floor_of stamp_of
cleanup_expired-IsShrunk now s = record {
  counters = λ k. refl;
  logs = λ k a. elim (Bool-cases ((s.retention).event_ttl_seconds == 0)) [
    | inl x ↦ rw x a
    | inr x ↦ rw x (
        sweep_events-Ascending (entry_count s.events.entries + 1) (batch s.retention)
          (event_expired now ((s.retention).event_ttl_seconds * 1_000_000_000)) (unswept s.events) _
          k a)
  ];
  floors = λ k. elim (Bool-cases ((s.retention).task_ttl_seconds == 0)) [
    | inl x ↦ rw x (omega arith)
    | inr x ↦ rw x (
        sweep_tasks-floor (length s.tasks.entries + 1) (batch s.retention) (now / 1_000_000_000)
          ((s.retention).task_ttl_seconds) (unswept s.tasks) k)
  ];
  stamps = λ c. omega arith;
}
