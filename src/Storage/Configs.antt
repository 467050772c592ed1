-- ===== src/Storage/Configs.antt =====
-- `impl A2aPushNotificationStorage for InMemoryA2aStorage`
-- (crates/turul-a2a/src/storage/in_memory.rs) and `push_config_page_size` (storage/filter.rs).
use turul_a2a.Prelude.{
  ℕ, zero, suc, ◌+◌, ℤ, pos, negsuc, String, Bool, Option, none, some, List, [], ◌∷◌, map, keep, ok,
  err, length, take, ltb, min, ◌==◌, str_eq, ◌&&◌, if◌then◌else◌,
}
use turul_a2a.Prelude.Order.{str_lt, str_le, sort_by, from_first}
use turul_a2a.Dict.{get, insert, remove}
use turul_a2a.Storage.State.{
  Store, create_config_cas_timeout, TaskKey, task_key, PushConfigKey, push_config_key,
  StoredPushConfig, TaskPushNotificationConfig,
}
use turul_a2a.Storage.Action.{Action, reads, writes, key}

-- `push_config_page_size`: 50 when unset or not positive, at most 100.
unfoldable pub push_config_page_size : Option ℤ → ℕ
push_config_page_size none = 50
push_config_page_size (some (negsuc _)) = 50
push_config_page_size (some (pos n)) = if n == 0 then 50 else min n 100

abbrev pub config_key : String → String → String → PushConfigKey
config_key tenant task_id config_id = record {
  tenant = tenant;
  task_id = task_id;
  config_id = config_id;
}

-- The causal floor of a task: its `latest_event_sequence`, 0 if it has no row.
unfoldable pub floor_of : Store → TaskKey → ℕ
floor_of s k = elim (get s.tasks k) [ none ↦ 0 | some row ↦ row.latest_event_sequence ]

-- `config.id = Uuid::now_v7()` where the request leaves the id empty.
unfoldable pub with_id : String → TaskPushNotificationConfig → TaskPushNotificationConfig
with_id fresh config = if str_eq config.id "" then record config { id = fresh } else config

-- What the other users of the store do while this call holds no lock: between the two reads of the
-- floor in an attempt, and during the sleep after it.
pub record Others : Type 0 where
  pub between : ℕ → Store → Store
  pub asleep : ℕ → Store → Store

-- The write of phase 2, with the floor that phase 1 read.
unfoldable pub put_config : String → TaskPushNotificationConfig → ℕ → Store → Store
put_config tenant config floor s = record s {
  push_configs =
      insert s.push_configs (config_key tenant config.task_id config.id)
        (record { config = config; registered_after_event_sequence = floor });
}

-- Phase 2, under the lock of the tasks: the floor is read again, and the row is written if it is
-- still what phase 1 read.
unfoldable pub try_config : String → TaskPushNotificationConfig → ℕ → Store → Option Store
unfolding floor_of put_config
try_config tenant config seq_read s =
    if floor_of s (key tenant config.task_id) == seq_read
    then some (put_config tenant config seq_read s)
    else none

-- `for attempt in 0..MAX_ATTEMPTS`: `left` attempts are to come, of which this is number `n`.
unfoldable pub config_attempts :
    Others → String → TaskPushNotificationConfig → ℕ → ℕ → Action TaskPushNotificationConfig
unfolding floor_of try_config
config_attempts others tenant config zero n s =
    (err (create_config_cas_timeout tenant config.task_id), s)
config_attempts others tenant config (suc left) n s =
    let seq_read = floor_of s (key tenant config.task_id) in
    let s' = others.between n s in
    let retry = config_attempts others tenant config left (n + 1) (others.asleep n s') in
    elim (try_config tenant config seq_read s') [
      | some written ↦ (ok config, written)
      | none ↦
          if left == 0 then (err (create_config_cas_timeout tenant config.task_id), s') else retry
    ]

-- `create_config`; `fresh` is the UUID that the call would draw. `MAX_ATTEMPTS` is 5.
unfoldable pub create_config :
    Others → String → String → TaskPushNotificationConfig → Action TaskPushNotificationConfig
unfolding with_id config_attempts
create_config others fresh tenant config = config_attempts others tenant (with_id fresh config) 5 0

unfoldable pub get_config : String → String → String → Action (Option TaskPushNotificationConfig)
get_config tenant task_id config_id = reads (λ s.
    elim (get s.push_configs (config_key tenant task_id config_id)) [
      | none ↦ none
      | some stored ↦ some stored.config
    ])

unfoldable pub delete_config : String → String → String → Action (Unit {0})
delete_config tenant task_id config_id =
    writes
      (λ s. record s { push_configs = remove s.push_configs (config_key tenant task_id config_id) })

pub record PushConfigListPage : Type 0 where
  pub configs : List TaskPushNotificationConfig
  pub next_page_token : String

abbrev pub last_id : List TaskPushNotificationConfig → String
last_id [] = ""
last_id (c ∷ []) = c.id
last_id (c ∷ d ∷ rest) = last_id (d ∷ rest)

-- The page of a sorted list that a token and a size select.
unfoldable pub page_of : List TaskPushNotificationConfig → Option String → ℕ → PushConfigListPage
unfolding str_lt from_first
page_of sorted page_token page_size =
    let rest : List TaskPushNotificationConfig = elim page_token [
      | none ↦ sorted
      | some token ↦ from_first (λ c. str_lt token c.id) sorted
    ] in
    let page = take page_size rest in
    record {
      configs = page;
      next_page_token = if ltb page_size (length rest) then last_id page else "";
    }

-- The configs of the rows that pass a test, in the order of their ids.
unfoldable pub matching_configs :
    (PushConfigKey × StoredPushConfig → Bool) → Store → List TaskPushNotificationConfig
unfolding str_le sort_by
matching_configs test s =
    sort_by (λ a b. str_le a.id b.id)
      (map (λ (entry : PushConfigKey × StoredPushConfig). (entry.1).config)
        (keep test s.push_configs.entries))

unfoldable pub of_task : String → String → PushConfigKey × StoredPushConfig → Bool
of_task tenant task_id entry = str_eq (entry.0).tenant tenant && str_eq (entry.0).task_id task_id

unfoldable pub list_configs : String → String → Option String → Option ℤ → Action PushConfigListPage
unfolding page_of matching_configs of_task push_config_page_size
list_configs tenant task_id page_token page_size = reads (λ s.
    page_of (matching_configs (of_task tenant task_id) s) page_token
      (push_config_page_size page_size))

-- The rows of the task that were registered before the event.
unfoldable pub eligible : String → String → ℕ → PushConfigKey × StoredPushConfig → Bool
unfolding of_task
eligible tenant task_id event_sequence entry =
    of_task tenant task_id entry && ltb (entry.1).registered_after_event_sequence event_sequence

unfoldable pub list_configs_eligible_at_event :
    String → String → ℕ → Option String → Option ℤ → Action PushConfigListPage
unfolding page_of matching_configs eligible push_config_page_size
list_configs_eligible_at_event tenant task_id event_sequence page_token page_size = reads (λ s.
    page_of (matching_configs (eligible tenant task_id event_sequence) s) page_token
      (push_config_page_size page_size))
