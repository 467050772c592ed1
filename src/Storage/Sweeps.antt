-- ===== src/Storage/Sweeps.antt =====
-- The loops of `cleanup_expired` (crates/turul-a2a/src/storage/in_memory.rs) come to their end.
use turul_a2a.Prelude.{
  ℕ, zero, suc, ◌+◌, ◌≤◌, ◌<◌, ◌≡◌, refl, Bool, true, false, List, [], ◌∷◌, arith, length, ltb,
  Bool-cases, Option-cases, inl, inr, take, map, keep,
}
use turul_a2a.Dict.{Dict, get, remove, without}
use turul_a2a.Storage.State.{
  Store, batch, TaskKey, task_key, task_key_eq_iff, StoredTask, LogEntry, EventLog,
}
use turul_a2a.Storage.Cleanup.{
  Swept, unswept, scan_log, scan_logs, emptied, drop_emptied, sweep_batch, sweep_events,
  entry_count, is_empty, remove_all, expired_keys, sweep_tasks, task_expired,
}

not_less : (a b : ℕ) → ltb a b ≡ false → b ≤ a
not_less a b h = ground arith

scan_log-count :
    (size : ℕ) (expired : LogEntry → Bool) (log : EventLog) (n : ℕ)
    → length (scan_log size expired log n).rows + (scan_log size expired log n).deleted
      ≡ length log + n
unfolding scan_log
scan_log-count size expired [] n = omega arith
scan_log-count size expired (e ∷ log) n =
    ground (arith, scan_log-count size expired log n, scan_log-count size expired log (n + 1))

scan_logs-count :
    (size : ℕ) (expired : LogEntry → Bool) (logs : List (TaskKey × EventLog)) (n : ℕ)
    → entry_count (scan_logs size expired logs n).rows + (scan_logs size expired logs n).deleted
      ≡ entry_count logs + n
unfolding scan_logs entry_count
scan_logs-count size expired [] n = omega arith
scan_logs-count size expired ((k, log) ∷ logs) n = ground (
  arith,
  scan_log-count size expired log n,
  scan_logs-count size expired logs (scan_log size expired log n).deleted,
)

without-count :
    (k : TaskKey) (logs : List (TaskKey × EventLog))
    → entry_count (without k logs) ≤ entry_count logs
unfolding entry_count without
without-count k [] = omega arith
without-count k ((j, log) ∷ logs) = ground (arith, without-count k logs)

drop_emptied-count :
    (ks : List TaskKey) (d : Dict TaskKey EventLog)
    → entry_count (drop_emptied ks d).entries ≤ entry_count d.entries
unfolding drop_emptied remove
drop_emptied-count [] d = omega arith
drop_emptied-count (k ∷ ks) d = elim (Option-cases (get d k)) [
  | inl e ↦ rw (e, drop_emptied) (drop_emptied-count ks d)
  | inr (log, e) ↦
      rw (e, drop_emptied)
        (elim (Bool-cases (is_empty log)) [
          | inl b ↦
              rw b (omega (arith, drop_emptied-count ks (remove d k), without-count k d.entries))
          | inr b ↦ rw b (drop_emptied-count ks d)
        ])
]

sweep_batch-count :
    (size : ℕ) (expired : LogEntry → Bool) (d : Dict TaskKey EventLog)
    → entry_count ((sweep_batch size expired d).rows).entries + (sweep_batch size expired d).deleted
      ≤ entry_count d.entries
unfolding sweep_batch
sweep_batch-count size expired d = omega (
  arith,
  scan_logs-count size expired d.entries 0,
  drop_emptied-count (emptied size expired d.entries 0)
      (record { entries = (scan_logs size expired d.entries 0).rows }),
)

full_batch :
    (fuel size : ℕ) (expired : LogEntry → Bool) (d : Dict TaskKey EventLog)
    → 0 < size
    → entry_count d.entries < suc fuel
    → ltb (sweep_batch size expired d).deleted size ≡ false
    → entry_count ((sweep_batch size expired d).rows).entries < fuel
full_batch fuel size expired d p h b =
    omega (arith, sweep_batch-count size expired d, not_less _ _ b)

-- With a batch size of at least one, more fuel than entries changes nothing: the event loop has
-- ended with a batch that was not full.
sweep_events-enough :
    (fuel more size : ℕ) (expired : LogEntry → Bool) (swept : Swept (Dict TaskKey EventLog))
    → 0 < size
    → entry_count (swept.rows).entries < fuel
    → fuel ≤ more
    → sweep_events more size expired swept ≡ sweep_events fuel size expired swept
unfolding sweep_events
sweep_events-enough zero more size expired swept p h g = ground (arith, h)
sweep_events-enough (suc fuel) zero size expired swept p h g = ground (arith, g)
sweep_events-enough (suc fuel) (suc more) size expired swept p h g =
    elim (Bool-cases (ltb (sweep_batch size expired swept.rows).deleted size)) [
      | inl b ↦ rw b refl
      | inr b ↦ rw b (
          sweep_events-enough fuel more size expired _ p
            (full_batch fuel size expired swept.rows p h b) (omega (arith, g)))
    ]

without-length :
    (k : TaskKey) (rows : List (TaskKey × StoredTask)) → length (without k rows) ≤ length rows
unfolding without
without-length k [] = omega arith
without-length k ((j, row) ∷ rows) = ground (arith, without-length k rows)

-- A key of a row that passes a test is a key whose removal shortens the table.
without-shorter :
    (p : TaskKey × StoredTask → Bool) (k : TaskKey) (ks : List TaskKey)
    (rows : List (TaskKey × StoredTask))
    → map (λ (entry : TaskKey × StoredTask). entry.0) (keep p rows) ≡ k ∷ ks
    → length (without k rows) < length rows
unfolding without
without-shorter p k ks [] h = ground (arith, h)
without-shorter p k ks ((j, row) ∷ rows) h = elim (Bool-cases (p (j, row))) [
  | inl b ↦ ground (arith, h, b, task_key_eq_iff j k, without-length k rows)
  | inr b ↦ ground (arith, without-shorter p k ks rows (ground (arith, h, b)))
]

remove_all-length :
    (ks : List TaskKey) (d : Dict TaskKey StoredTask)
    → length (remove_all ks d).entries ≤ length d.entries
unfolding remove_all remove
remove_all-length [] d = omega arith
remove_all-length (k ∷ ks) d =
    omega (arith, remove_all-length ks (remove d k), without-length k d.entries)

taken :
    (size : ℕ) (keys : List TaskKey)
    → 0 < length (take size keys)
    → (k : TaskKey) × (ks : List TaskKey) × (rest : List TaskKey) × (take size keys ≡ k ∷ ks)
      × (keys ≡ k ∷ rest)
taken zero keys h = ground (arith, h)
taken (suc size) [] h = ground (arith, h)
taken (suc size) (k ∷ keys) h = (k, take size keys, keys, refl, refl)

-- A batch that is not empty shortens the table.
batch_shorter :
    (size now_secs ttl : ℕ) (d : Dict TaskKey StoredTask)
    → 0 < length (expired_keys size now_secs ttl d)
    → length (remove_all (expired_keys size now_secs ttl d) d).entries < length d.entries
unfolding expired_keys remove_all remove
batch_shorter size now_secs ttl d h =
    let (k, ks, rest, e, f) =
      taken size
        (map (λ (entry : TaskKey × StoredTask). entry.0)
          (keep (task_expired now_secs ttl) d.entries))
        h in
    rw e (
      omega (
        arith,
        remove_all-length ks (remove d k),
        without-shorter (task_expired now_secs ttl) k rest d.entries f,
      ))

-- With a batch size of at least one, more fuel than tasks changes nothing: the task loop has ended
-- with a batch that was not full.
sweep_tasks-enough :
    (fuel more size now_secs ttl : ℕ) (swept : Swept (Dict TaskKey StoredTask))
    → 0 < size
    → length (swept.rows).entries < fuel
    → fuel ≤ more
    → sweep_tasks more size now_secs ttl swept ≡ sweep_tasks fuel size now_secs ttl swept
unfolding sweep_tasks
sweep_tasks-enough zero more size now_secs ttl swept p h g = ground (arith, h)
sweep_tasks-enough (suc fuel) zero size now_secs ttl swept p h g = ground (arith, g)
sweep_tasks-enough (suc fuel) (suc more) size now_secs ttl swept p h g =
    elim (Bool-cases (ltb (length (expired_keys size now_secs ttl swept.rows)) size)) [
      | inl b ↦ rw b refl
      | inr b ↦ rw b (
          sweep_tasks-enough fuel more size now_secs ttl _ p
            (omega (
              arith,
              h,
              batch_shorter size now_secs ttl swept.rows (omega (arith, p, not_less _ _ b)),
            ))
            (omega (arith, g)))
    ]

-- With a batch size of at least one, both loops come to their `break`.
sweep_events-done :
    (fuel size : ℕ) (expired : LogEntry → Bool) (swept : Swept (Dict TaskKey EventLog))
    → 0 < size
    → entry_count (swept.rows).entries < fuel
    → (sweep_events fuel size expired swept).is_done ≡ true
unfolding sweep_events
sweep_events-done zero size expired swept p h = ground (arith, h)
sweep_events-done (suc fuel) size expired swept p h =
    elim (Bool-cases (ltb (sweep_batch size expired swept.rows).deleted size)) [
      | inl b ↦ rw b refl
      | inr b ↦
          rw b (
            sweep_events-done fuel size expired _ p (full_batch fuel size expired swept.rows p h b))
    ]

sweep_tasks-done :
    (fuel size now_secs ttl : ℕ) (swept : Swept (Dict TaskKey StoredTask))
    → 0 < size
    → length (swept.rows).entries < fuel
    → (sweep_tasks fuel size now_secs ttl swept).is_done ≡ true
unfolding sweep_tasks
sweep_tasks-done zero size now_secs ttl swept p h = ground (arith, h)
sweep_tasks-done (suc fuel) size now_secs ttl swept p h =
    elim (Bool-cases (ltb (length (expired_keys size now_secs ttl swept.rows)) size)) [
      | inl b ↦ rw b refl
      | inr b ↦ rw b (
          sweep_tasks-done fuel size now_secs ttl _ p (
            omega (
              arith,
              h,
              batch_shorter size now_secs ttl swept.rows (omega (arith, p, not_less _ _ b)),
            )))
    ]

-- The two loops of `cleanup_expired` end, whatever the batch size that is configured: with the fuel
-- that it gives them, one more than the rows that they may delete, each comes to its `break`, and
-- with any amount more it leaves the same rows and counts the same removals.
pub cleanup_ends :
    (s : Store) (extra now_secs ttl : ℕ) (expired : LogEntry → Bool)
    → let tasks =
        sweep_tasks
          (length s.tasks.entries + 1)
          (batch s.retention)
          now_secs
          ttl
          (unswept s.tasks) in
      let events =
        sweep_events
          (entry_count s.events.entries + 1)
          (batch s.retention)
          expired
          (unswept s.events) in
      (tasks.is_done ≡ true)
      × (events.is_done ≡ true)
      × (sweep_tasks
            (length s.tasks.entries + 1 + extra)
            (batch s.retention)
            now_secs
            ttl
            (unswept s.tasks)
          ≡ tasks)
      × (sweep_events
            (entry_count s.events.entries + 1 + extra)
            (batch s.retention)
            expired
            (unswept s.events)
          ≡ events)
unfolding batch
cleanup_ends s extra now_secs ttl expired = (
  sweep_tasks-done (length s.tasks.entries + 1) (batch s.retention) now_secs ttl _ (omega arith)
      (omega arith),
  sweep_events-done (entry_count s.events.entries + 1) (batch s.retention) expired _ (omega arith)
      (omega arith),
  sweep_tasks-enough (length s.tasks.entries + 1) _ (batch s.retention) now_secs ttl _ (omega arith)
      (omega arith) (omega arith),
  sweep_events-enough (entry_count s.events.entries + 1) _ (batch s.retention) expired _
      (omega arith) (omega arith) (omega arith),
)
