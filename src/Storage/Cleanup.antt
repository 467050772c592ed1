-- ===== src/Storage/Cleanup.antt =====
-- `cleanup_expired` of the in-memory backend (crates/turul-a2a/src/storage/in_memory.rs). Each loop
-- releases its lock between batches; here no other call runs between two batches. The loops take
-- fuel, one more than the rows that they may delete.
use turul_a2a.Prelude.{
  ℕ, zero, suc, ◌+◌, ◌-◌, ◌*◌, ◌/◌, Bool, true, false, none, some, List, [], ◌∷◌, map, keep, ltb,
  leb, ◌==◌, not, ◌&&◌, length, take, if◌then◌else◌, ok,
}
use turul_a2a.Dict.{Dict, get, remove}
use turul_a2a.Storage.State.{
  StoredTask, TaskKey, task_key, PushDeliveryKey, StoredDeliveryClaim, LogEntry, EventLog, batch,
}
use turul_a2a.Storage.Clock.{epoch_secs}
use turul_a2a.Storage.Action.{Action}
use turul_a2a.Storage.Supervisor.{row_terminal}
use turul_a2a.Storage.Failed.{is_gave_up}

-- A failed delivery past its retention.
unfoldable pub claim_expired : ℕ → PushDeliveryKey × StoredDeliveryClaim → Bool
claim_expired now entry = is_gave_up (entry.1).status && ltb (entry.1).expires_at now

-- A terminal task whose last write is at least `ttl` seconds old.
unfoldable pub task_expired : ℕ → ℕ → TaskKey × StoredTask → Bool
unfolding row_terminal epoch_secs
task_expired now_secs ttl entry =
    row_terminal (entry.1)
    && (elim (epoch_secs (entry.1).updated_at) [ none ↦ false | some t ↦ leb ttl (now_secs - t) ])

-- `for key in expired { tasks.remove(&key); }`
unfoldable pub remove_all : List TaskKey → Dict TaskKey StoredTask → Dict TaskKey StoredTask
remove_all [] tasks = tasks
remove_all (k ∷ ks) tasks = remove_all ks (remove tasks k)

-- The table in a sweep, the number of rows that it has removed, and whether it has come to its
-- `break`: a loop that runs out of fuel has not.
pub record Swept (M : Type 0) : Type 0 where
  pub rows : M
  pub removed : ℕ
  pub is_done : Bool

-- A sweep that starts.
abbrev pub unswept : {M : Type 0} → M → Swept M
unswept rows = record { rows = rows; removed = 0; is_done = false }

-- The keys of the next batch.
unfoldable pub expired_keys : ℕ → ℕ → ℕ → Dict TaskKey StoredTask → List TaskKey
unfolding task_expired
expired_keys size now_secs ttl tasks = take size (
    map (λ (entry : TaskKey × StoredTask). entry.0)
      (keep (task_expired now_secs ttl) tasks.entries))

-- The task loop, batch by batch.
unfoldable pub sweep_tasks :
    ℕ → ℕ → ℕ → ℕ → Swept (Dict TaskKey StoredTask) → Swept (Dict TaskKey StoredTask)
unfolding expired_keys remove_all
sweep_tasks zero size now_secs ttl swept = swept
sweep_tasks (suc fuel) size now_secs ttl swept =
    let expired = expired_keys size now_secs ttl swept.rows in
    let after : Swept (Dict TaskKey StoredTask) = record {
      rows = remove_all expired swept.rows;
      removed = swept.removed + length expired;
      is_done = false;
    } in
    let rest = sweep_tasks fuel size now_secs ttl after in
    if ltb (length expired) size then record after { is_done = true } else rest

-- `now.duration_since(appended_at)` is at least the cutoff; an append in the future is not.
unfoldable pub event_expired : ℕ → ℕ → LogEntry → Bool
event_expired now cutoff e = leb e.appended_at now && leb cutoff (now - e.appended_at)

-- The scan of one log with `n` entries deleted so far: it stops when a batch is full.
pub record Scanned (M : Type 0) : Type 0 where
  pub rows : M
  pub deleted : ℕ
  pub full : Bool

unfoldable pub scan_log : ℕ → (LogEntry → Bool) → EventLog → ℕ → Scanned EventLog
scan_log size expired [] n = record { rows = []; deleted = n; full = false }
scan_log size expired (e ∷ log) n =
    let deeper = scan_log size expired log (n + 1) in
    let kept = scan_log size expired log n in
    if expired e
    then if leb size (n + 1) then record { rows = log; deleted = n + 1; full = true } else deeper
    else record kept { rows = e ∷ kept.rows }

-- The scan `'scan: for (key, log) in events.iter_mut()`: what follows a full log is not visited.
unfoldable pub scan_logs :
    ℕ → (LogEntry → Bool) → List (TaskKey × EventLog) → ℕ → Scanned (List (TaskKey × EventLog))
unfolding scan_log
scan_logs size expired [] n = record { rows = []; deleted = n; full = false }
scan_logs size expired ((k, log) ∷ logs) n =
    let here = scan_log size expired log n in
    let rest = scan_logs size expired logs here.deleted in
    if here.full
    then record { rows = (k, here.rows) ∷ logs; deleted = here.deleted; full = true }
    else record rest { rows = (k, here.rows) ∷ rest.rows }

abbrev pub is_empty {ℓ} : {A : Type ℓ} → List A → Bool
is_empty [] = true
is_empty (_ ∷ _) = false

-- The keys of the visited logs that are empty after the scan, `emptied`.
unfoldable pub emptied : ℕ → (LogEntry → Bool) → List (TaskKey × EventLog) → ℕ → List TaskKey
unfolding scan_log
emptied size expired [] n = []
emptied size expired ((k, log) ∷ logs) n =
    let here = scan_log size expired log n in
    let rest = emptied size expired logs here.deleted in
    let later = if here.full then [] else rest in if is_empty here.rows then k ∷ later else later

-- `for key in &emptied { if events.get(key).is_some_and(|log| log.is_empty()) { .. } }`
unfoldable pub drop_emptied : List TaskKey → Dict TaskKey EventLog → Dict TaskKey EventLog
drop_emptied [] events = events
drop_emptied (k ∷ ks) events = drop_emptied ks (elim (get events k) [
  | none ↦ events
  | some log ↦ if is_empty log then remove events k else events
])

-- One batch of the event loop.
unfoldable pub sweep_batch :
    ℕ → (LogEntry → Bool) → Dict TaskKey EventLog → Scanned (Dict TaskKey EventLog)
unfolding scan_logs emptied drop_emptied
sweep_batch size expired events =
    let scanned = scan_logs size expired events.entries 0 in
    record {
      rows =
          drop_emptied (emptied size expired events.entries 0) (record { entries = scanned.rows });
      deleted = scanned.deleted;
      full = scanned.full;
    }

-- The event loop, batch by batch.
unfoldable pub sweep_events :
    ℕ → ℕ → (LogEntry → Bool) → Swept (Dict TaskKey EventLog) → Swept (Dict TaskKey EventLog)
unfolding sweep_batch
sweep_events zero size expired swept = swept
sweep_events (suc fuel) size expired swept =
    let scanned = sweep_batch size expired swept.rows in
    let after : Swept (Dict TaskKey EventLog) = record {
      rows = scanned.rows;
      removed = swept.removed + scanned.deleted;
      is_done = false;
    } in
    let rest = sweep_events fuel size expired after in
    if ltb scanned.deleted size then record after { is_done = true } else rest

-- The number of entries in all logs.
unfoldable pub entry_count : List (TaskKey × EventLog) → ℕ
entry_count [] = 0
entry_count ((_, log) ∷ logs) = length log + entry_count logs

-- `cleanup_expired` at `now` nanoseconds since the epoch; the count is that of the deleted rows.
unfoldable pub cleanup_expired : ℕ → Action ℕ
unfolding claim_expired sweep_tasks sweep_events event_expired entry_count batch
cleanup_expired now s =
    let task_ttl = (s.retention).task_ttl_seconds in
    let event_ttl = (s.retention).event_ttl_seconds in
    let size = batch s.retention in
    let claims = keep (λ entry. not (claim_expired now entry)) s.push_delivery_claims.entries in
    let removed = length s.push_delivery_claims.entries - length claims in
    let tasks : Swept (Dict TaskKey StoredTask) =
      if task_ttl == 0
      then unswept s.tasks
      else sweep_tasks (length s.tasks.entries + 1) size (now / 1_000_000_000) task_ttl
          (unswept s.tasks) in
    let events : Swept (Dict TaskKey EventLog) =
      if event_ttl == 0
      then unswept s.events
      else sweep_events (entry_count s.events.entries + 1) size
          (event_expired now (event_ttl * 1_000_000_000)) (unswept s.events) in
    (
      ok (removed + tasks.removed + events.removed),
      record s {
        push_delivery_claims = record { entries = claims };
        tasks = tasks.rows;
        events = events.rows;
      },
    )
