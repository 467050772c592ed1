-- ===== src/Storage/Sequence/WellFormed.antt =====
-- The invariant that ties the event logs, the counters, the causal floors of the tasks and the
-- stamps of the push configs together (crates/turul-a2a/src/storage/in_memory.rs).
use turul_a2a.Prelude.{
  ℕ, ◌≤◌, ◌≡◌, refl, String, none, some, arith, if◌then◌else◌, Bool-cases, inl, inr,
}
use turul_a2a.Dict.{get, insert, remove, get-insert, get-remove}
use turul_a2a.Storage.State.{
  Store, StoredTask, TaskKey, task_key, task_key_eq, task_key_eq_iff, PushConfigKey,
  push_config_key, push_config_key_eq_iff, TaskPushNotificationConfig, EventLog,
}
use turul_a2a.Storage.Action.{key}
use turul_a2a.Storage.Tasks.{put_task}
use turul_a2a.Storage.Events.{Appended, counter_of, log_of}
use turul_a2a.Storage.Atomic.{commit}
use turul_a2a.Storage.Configs.{floor_of, put_config, config_key}
use turul_a2a.Storage.Reads.{floor_of-put_task, floor_of-commit, counter_of-commit, log_of-commit}
use turul_a2a.Storage.Sequence.{Ascending}

-- The causal floor that a config was registered at, 0 if it is not there.
unfoldable pub stamp_of : Store → PushConfigKey → ℕ
stamp_of s c = elim (get s.push_configs c) [
  | none ↦ 0
  | some stored ↦ stored.registered_after_event_sequence
]

-- Of every task: its log rises up to its counter, its floor is within the counter, and so are the
-- stamps of its configs.
pub record IsWellFormed (s : Store) : Type 0 where
  pub logged : (k : TaskKey) → Ascending 0 (counter_of s k) (log_of s k)
  pub floored : (k : TaskKey) → floor_of s k ≤ counter_of s k
  pub stamped : (c : PushConfigKey) → stamp_of s c ≤ counter_of s (key c.tenant c.task_id)

pub put_task-IsWellFormed :
    (s : Store) (k : TaskKey) (row : StoredTask)
    → row.latest_event_sequence ≤ counter_of s k
    → IsWellFormed s
    → IsWellFormed (put_task k row s)
unfolding counter_of log_of stamp_of
put_task-IsWellFormed s k row h w = record {
  logged = w.logged;
  floored = λ j. ground (arith, floor_of-put_task s k j row, w.floored j, task_key_eq_iff k j);
  stamped = w.stamped;
}

pub commit-IsWellFormed :
    (s : Store) (k : TaskKey) (a : Appended) (row : StoredTask)
    → Ascending 0 a.counter a.log
    → counter_of s k ≤ a.counter
    → row.latest_event_sequence ≤ a.counter
    → IsWellFormed s
    → IsWellFormed (commit k a row s)
unfolding stamp_of
commit-IsWellFormed s k a row up grown low w = record {
  logged = λ j. rw (log_of-commit s k j a row, counter_of-commit s k j a row) (branch j);
  floored = λ j. ground (
    arith,
    floor_of-commit s k j a row,
    counter_of-commit s k j a row,
    w.floored j,
    task_key_eq_iff k j,
  );
  stamped = λ c. ground (
    arith,
    counter_of-commit s k (key c.tenant c.task_id) a row,
    w.stamped c,
    task_key_eq_iff k (key c.tenant c.task_id),
  );
}
  where
    branch :
        (j : TaskKey)
        → Ascending 0
            (if task_key_eq k j then a.counter else counter_of s j)
            (if task_key_eq k j then a.log else log_of s j)
    branch j = elim (Bool-cases (task_key_eq k j)) [ inl e ↦ rw e up | inr e ↦ rw e (w.logged j) ]

-- A log and its counter written with no task row.
abbrev pub write_log : TaskKey → ℕ → EventLog → Store → Store
write_log k counter log s = record s {
  events = insert s.events k log;
  event_counters = insert s.event_counters k counter;
}

counter_of-write_log :
    (s : Store) (k j : TaskKey) (counter : ℕ) (log : EventLog)
    → counter_of (write_log k counter log s) j
      ≡ (if task_key_eq k j then counter else counter_of s j)
unfolding counter_of
counter_of-write_log s k j counter log = ground (arith, get-insert s.event_counters k j counter)

log_of-write_log :
    (s : Store) (k j : TaskKey) (counter : ℕ) (log : EventLog)
    → log_of (write_log k counter log s) j ≡ (if task_key_eq k j then log else log_of s j)
unfolding log_of
log_of-write_log s k j counter log = ground (arith, get-insert s.events k j log)

pub write_log-IsWellFormed :
    (s : Store) (k : TaskKey) (counter : ℕ) (log : EventLog)
    → Ascending 0 counter log
    → counter_of s k ≤ counter
    → IsWellFormed s
    → IsWellFormed (write_log k counter log s)
unfolding floor_of stamp_of
write_log-IsWellFormed s k counter log up grown w = record {
  logged = λ j. elim (Bool-cases (task_key_eq k j)) [
    | inl e ↦
        rw (counter_of-write_log s k j counter log, log_of-write_log s k j counter log) (rw e up)
    | inr e ↦
        rw (counter_of-write_log s k j counter log, log_of-write_log s k j counter log)
          (rw e (w.logged j))
  ];
  floored =
      λ j. ground (arith, counter_of-write_log s k j counter log, w.floored j, task_key_eq_iff k j);
  stamped = λ c. ground (
    arith,
    counter_of-write_log s k (key c.tenant c.task_id) counter log,
    w.stamped c,
    task_key_eq_iff k (key c.tenant c.task_id),
  );
}

-- A config that is stamped with the floor of its task.
pub put_config-IsWellFormed :
    (s : Store) (tenant : String) (config : TaskPushNotificationConfig) (floor : ℕ)
    → floor ≤ counter_of s (key tenant config.task_id)
    → IsWellFormed s
    → IsWellFormed (put_config tenant config floor s)
unfolding counter_of log_of floor_of put_config stamp_of
put_config-IsWellFormed s tenant config floor h w = record {
  logged = w.logged;
  floored = w.floored;
  stamped = λ c. ground (
    arith,
    get-insert s.push_configs (config_key tenant config.task_id config.id) c
        (record { config = config; registered_after_event_sequence = floor }),
    w.stamped c,
    push_config_key_eq_iff (config_key tenant config.task_id config.id) c,
  );
}

-- A store that has lost rows of tasks, logs or configs, and whose counters are the same.
pub record IsShrunk (s t : Store) : Type 0 where
  pub counters : (k : TaskKey) → counter_of t k ≡ counter_of s k
  pub logs :
      (k : TaskKey)
      → Ascending 0 (counter_of s k) (log_of s k)
      → Ascending 0 (counter_of s k) (log_of t k)
  pub floors : (k : TaskKey) → floor_of t k ≤ floor_of s k
  pub stamps : (c : PushConfigKey) → stamp_of t c ≤ stamp_of s c

pub IsShrunk-IsWellFormed : (s t : Store) → IsShrunk s t → IsWellFormed s → IsWellFormed t
IsShrunk-IsWellFormed s t sh w = record {
  logged = λ k. rw (sh.counters k) (sh.logs k (w.logged k));
  floored = λ k. omega (arith, sh.counters k, sh.floors k, w.floored k);
  stamped = λ c. omega (arith, sh.counters (key c.tenant c.task_id), sh.stamps c, w.stamped c);
}

pub same-IsShrunk :
    (s t : Store)
    → ((k : TaskKey) → counter_of t k ≡ counter_of s k)
    → ((k : TaskKey) → log_of t k ≡ log_of s k)
    → ((k : TaskKey) → floor_of t k ≤ floor_of s k)
    → ((c : PushConfigKey) → stamp_of t c ≤ stamp_of s c)
    → IsShrunk s t
same-IsShrunk s t counters logs floors stamps = record {
  counters = counters;
  logs = λ k h. rw (logs k) h;
  floors = floors;
  stamps = stamps;
}

pub remove_config-IsShrunk :
    (s : Store) (k : PushConfigKey)
    → IsShrunk s (record s { push_configs = remove s.push_configs k })
unfolding counter_of log_of floor_of stamp_of
remove_config-IsShrunk s k =
    same-IsShrunk s _ (λ j. refl) (λ j. refl) (λ j. omega arith)
      (λ c. ground (arith, get-remove s.push_configs k c))

pub remove_task-IsShrunk :
    (s : Store) (k : TaskKey) → IsShrunk s (record s { tasks = remove s.tasks k })
unfolding counter_of log_of floor_of stamp_of
remove_task-IsShrunk s k =
    same-IsShrunk s _ (λ j. refl) (λ j. refl) (λ j. ground (arith, get-remove s.tasks k j))
      (λ c. omega arith)
