-- ===== src/Push/Lookup.antt =====
-- The check before each attempt that the push config and the task are still there, and its cache
-- (crates/turul-a2a/src/push/delivery.rs). Times are nanoseconds on the monotonic clock.
pub mod Deletion
use turul_a2a.Prelude.{
  ℕ, ◌+◌, ◌-◌, ◌%◌, ◌^◌, String, Bool, true, false, Option, none, some, List, [], ◌∷◌, Result, ok,
  err, ltb, ◌==◌, not, string_eq, if◌then◌else◌, keep,
}
use turul_a2a.Dict.{Dict, get, insert, remove, empty}
use turul_a2a.Task.{Task}
use turul_a2a.Storage.State.{
  TaskKey, task_key, StorageError, TaskPushNotificationConfig, AbandonedReason,
}

-- `PushConfigCacheState`: the configs confirmed present, by task and config id, with their times.
pub record Cache : Type 0 where
  pub generation : ℕ  -- a `u64`
  pub by_task : Dict TaskKey (Dict String ℕ)

-- `confirmed.elapsed() < ttl`
abbrev pub is_recent : ℕ → ℕ → ℕ → Bool
is_recent now ttl confirmed = ltb (now - confirmed) ttl

unfoldable pub is_fresh : ℕ → TaskKey → String → ℕ → Cache → Bool
is_fresh now task config_id ttl cache = elim (get cache.by_task task) [
  | none ↦ false
  | some configs ↦ elim (get configs config_id) [
    | none ↦ false
    | some confirmed ↦ is_recent now ttl confirmed
  ]
]

-- `configs.retain(..)`
abbrev pub retain_recent : ℕ → ℕ → Dict String ℕ → Dict String ℕ
retain_recent now ttl configs = record {
  entries = keep (λ (entry : String × ℕ). is_recent now ttl entry.1) configs.entries;
}

-- `by_task.retain(..)`: expired configs go, and tasks with no config left.
unfoldable pub retain_live : ℕ → ℕ → List (TaskKey × Dict String ℕ) → List (TaskKey × Dict String ℕ)
retain_live now ttl [] = []
retain_live now ttl ((task, configs) ∷ entries) =
    let rest = retain_live now ttl entries in
    let live = retain_recent now ttl configs in
    elim live.entries [ [] ↦ rest | _ ∷ _ ↦ (task, live) ∷ rest ]

abbrev pub or_no_configs : Option (Dict String ℕ) → Dict String ℕ
or_no_configs none = empty
or_no_configs (some configs) = configs

unfoldable pub record_present : ℕ → TaskKey → String → ℕ → ℕ → Cache → Cache
unfolding retain_live
record_present now task config_id ttl read_generation cache =
    if ttl == 0
    then cache
    else if not (cache.generation == read_generation)
    then cache
    else (let live : Dict TaskKey (Dict String ℕ) = record {
      entries = retain_live now ttl (cache.by_task).entries;
    } in
        record cache {
          by_task = insert live task (insert (or_no_configs (get live task)) config_id now);
        })

unfoldable pub invalidate : TaskKey → Cache → Cache
invalidate task cache = record {
  generation = (cache.generation + 1) % 2 ^ 64;
  by_task = remove cache.by_task task;
}

-- What the check meets: the time, the cache before and after the read of the config, and what the
-- two reads give.
pub record Lookup : Type 0 where
  pub now : ℕ
  pub cache : Cache
  pub config_read : Result StorageError (Option TaskPushNotificationConfig)
  pub task_read : Result StorageError (Option Task)

abbrev pub task_gone : Result StorageError (Option Task) → Option AbandonedReason
task_gone (ok none) = some AbandonedReason.task_deleted
task_gone _ = none

-- `gone`, with the cache that it leaves when no other delivery touches it meanwhile.
unfoldable pub gone : TaskKey → String → ℕ → Lookup → Option AbandonedReason × Cache
unfolding is_fresh record_present
gone task config_id ttl l =
    if is_fresh l.now task config_id ttl l.cache
    then (task_gone l.task_read, l.cache)
    else (elim l.config_read [
      | ok none ↦ (some AbandonedReason.config_deleted, l.cache)
      | ok (some _) ↦ (
        task_gone l.task_read,
        record_present l.now task config_id ttl (l.cache).generation l.cache,
      )
      | err _ ↦ (task_gone l.task_read, l.cache)
    ])
