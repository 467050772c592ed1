-- ===== src/Storage/State.antt =====
-- The state of the in-memory backend (crates/turul-a2a/src/storage/in_memory.rs), its keys and
-- rows, the errors of the storage layer (storage/error.rs), the claim types of push/claim.rs and
-- the retention window (storage/retention.rs).
use turul_a2a.Prelude.{
  ℕ, ℤ, String, Bool, true, false, Option, List, Eq, str_eq, str_eq_iff, ◌==◌, ==_iff, ◌&&◌, ◌≡◌,
  ◌↔◌, arith, max,
}
use turul_a2a.TaskState.{TaskState, A2aTypeError}
use turul_a2a.Task.{Task}
use turul_a2a.Streaming.{StreamEvent}
use turul_a2a.Dict.{Dict, empty}

pub data StorageError : Type 0 where
  task_not_found : String → StorageError
  invalid_transition : String → TaskState → TaskState → StorageError
  terminal_state : String → TaskState → StorageError
  terminal_state_already_set : String → String → StorageError
  owner_mismatch : String → StorageError
  tenant_mismatch : String → StorageError
  concurrent_modification : String → StorageError
  push_config_not_found : String → StorageError
  claim_already_held : String → String → ℕ → String → StorageError
  stale_delivery_claim : String → String → ℕ → String → StorageError
  create_config_cas_timeout : String → String → StorageError
  invalid_list_request : String → StorageError
  database_error : String → StorageError
  serialization_error : String → StorageError
  type_error : A2aTypeError → StorageError
  generic : String → StorageError

-- (tenant, task_id), the key of tasks and of event logs.
pub record TaskKey : Type 0 where
  pub tenant : String
  pub task_id : String

-- (tenant, task_id, config_id)
pub record PushConfigKey : Type 0 where
  pub tenant : String
  pub task_id : String
  pub config_id : String

-- (tenant, task_id, event_sequence)
pub record PendingDispatchKey : Type 0 where
  pub tenant : String
  pub task_id : String
  pub event_sequence : ℕ

-- (tenant, task_id, event_sequence, config_id)
pub record PushDeliveryKey : Type 0 where
  pub tenant : String
  pub task_id : String
  pub event_sequence : ℕ
  pub config_id : String

unfoldable pub task_key_eq : TaskKey → TaskKey → Bool
task_key_eq j k = str_eq j.tenant k.tenant && str_eq j.task_id k.task_id

pub task_key_eq_iff : (j k : TaskKey) → (task_key_eq j k ≡ true) ↔ (j ≡ k)
unfolding task_key_eq
task_key_eq_iff j k = ground (arith, str_eq_iff j.tenant k.tenant, str_eq_iff j.task_id k.task_id)

unfoldable pub push_config_key_eq : PushConfigKey → PushConfigKey → Bool
push_config_key_eq j k =
    str_eq j.tenant k.tenant && (str_eq j.task_id k.task_id && str_eq j.config_id k.config_id)

pub push_config_key_eq_iff : (j k : PushConfigKey) → (push_config_key_eq j k ≡ true) ↔ (j ≡ k)
unfolding push_config_key_eq
push_config_key_eq_iff j k = ground (
  arith,
  str_eq_iff j.tenant k.tenant,
  str_eq_iff j.task_id k.task_id,
  str_eq_iff j.config_id k.config_id,
)

pub pending_key_eq : PendingDispatchKey → PendingDispatchKey → Bool
pending_key_eq j k =
    str_eq j.tenant k.tenant
    && (str_eq j.task_id k.task_id && (j.event_sequence == k.event_sequence))

pub pending_key_eq_iff : (j k : PendingDispatchKey) → (pending_key_eq j k ≡ true) ↔ (j ≡ k)
unfolding pending_key_eq
pending_key_eq_iff j k = ground (
  arith,
  str_eq_iff j.tenant k.tenant,
  str_eq_iff j.task_id k.task_id,
  ==_iff j.event_sequence k.event_sequence,
)

unfoldable pub delivery_key_eq : PushDeliveryKey → PushDeliveryKey → Bool
delivery_key_eq j k =
    str_eq j.tenant k.tenant
    && (str_eq j.task_id k.task_id
        && (j.event_sequence == k.event_sequence && str_eq j.config_id k.config_id))

pub delivery_key_eq_iff : (j k : PushDeliveryKey) → (delivery_key_eq j k ≡ true) ↔ (j ≡ k)
unfolding delivery_key_eq
delivery_key_eq_iff j k = ground (
  arith,
  str_eq_iff j.tenant k.tenant,
  str_eq_iff j.task_id k.task_id,
  ==_iff j.event_sequence k.event_sequence,
  str_eq_iff j.config_id k.config_id,
)

instance abbrev pub task_key : Eq TaskKey
task_key = record { beq = task_key_eq; beq_iff = task_key_eq_iff }

instance abbrev pub push_config_key : Eq PushConfigKey
push_config_key = record { beq = push_config_key_eq; beq_iff = push_config_key_eq_iff }

instance abbrev pub pending_key : Eq PendingDispatchKey
pending_key = record { beq = pending_key_eq; beq_iff = pending_key_eq_iff }

instance abbrev pub delivery_key : Eq PushDeliveryKey
delivery_key = record { beq = delivery_key_eq; beq_iff = delivery_key_eq_iff }

pub record StoredTask : Type 0 where
  pub tenant : String
  pub owner : String
  pub task : Task
  pub updated_at : List ℕ  -- the text of `now_iso`
  pub cancel_requested : Bool
  pub lease_expires_at : Option ℤ  -- epoch microseconds
  pub latest_event_sequence : ℕ

pub data ClaimStatus : Type 0 where
  pending attempting succeeded gave_up abandoned : ClaimStatus

pub data GaveUpReason : Type 0 where
  max_attempts_exhausted non_retryable_http_status ssrf_blocked : GaveUpReason
  payload_too_large tls_rejected : GaveUpReason

pub data AbandonedReason : Type 0 where
  config_deleted task_deleted non_https_url_in_production : AbandonedReason

pub data DeliveryErrorClass : Type 0 where
  network_error timeout : DeliveryErrorClass
  http_error4xx http_error5xx : ℕ → DeliveryErrorClass
  http_error429 ssrf_blocked payload_too_large tls_rejected : DeliveryErrorClass

-- Instants (`SystemTime`) are nanoseconds since the Unix epoch.
pub record StoredDeliveryClaim : Type 0 where
  pub claimant : String
  pub owner : String
  pub generation : ℕ
  pub claimed_at : ℕ
  pub expires_at : ℕ
  pub delivery_attempt_count : ℕ
  pub status : ClaimStatus
  pub first_attempted_at : Option ℕ
  pub last_attempted_at : Option ℕ
  pub last_http_status : Option ℕ
  pub last_error_class : Option DeliveryErrorClass
  pub gave_up_at : Option ℕ
  pub gave_up_reason : Option GaveUpReason
  pub abandoned_reason : Option AbandonedReason

pub record StoredPendingDispatch : Type 0 where
  pub owner : String
  pub recorded_at : ℕ

pub record AuthenticationInfo : Type 0 where
  pub scheme : String
  pub credentials : String

pub record TaskPushNotificationConfig : Type 0 where
  pub tenant : String
  pub id : String
  pub task_id : String
  pub url : String
  pub token : String
  pub authentication : Option AuthenticationInfo

pub record StoredPushConfig : Type 0 where
  pub config : TaskPushNotificationConfig
  pub registered_after_event_sequence : ℕ

pub record RetentionConfig : Type 0 where
  pub task_ttl_seconds : ℕ
  pub event_ttl_seconds : ℕ
  pub cleanup_batch_size : ℕ

-- `RetentionConfig::DISABLED`
abbrev pub disabled : RetentionConfig
disabled = record { task_ttl_seconds = 0; event_ttl_seconds = 0; cleanup_batch_size = 1000 }

-- `RetentionConfig::batch`
unfoldable pub batch : RetentionConfig → ℕ
batch retention = max retention.cleanup_batch_size 1

-- One entry of an event log: its sequence number, the event, its append time.
pub record LogEntry : Type 0 where
  pub sequence : ℕ
  pub event : StreamEvent
  pub appended_at : ℕ

abbrev pub EventLog : Type 0
EventLog = List LogEntry

-- `InMemoryA2aStorage`, each map behind its lock.
pub record Store : Type 0 where
  pub tasks : Dict TaskKey StoredTask
  pub push_configs : Dict PushConfigKey StoredPushConfig
  pub events : Dict TaskKey EventLog
  pub event_counters : Dict TaskKey ℕ
  pub push_delivery_claims : Dict PushDeliveryKey StoredDeliveryClaim
  pub pending_dispatches : Dict PendingDispatchKey StoredPendingDispatch
  pub push_dispatch_enabled : Bool
  pub retention : RetentionConfig

-- `InMemoryA2aStorage::new`
abbrev pub new : Store
new = record {
  tasks = empty;
  push_configs = empty;
  events = empty;
  event_counters = empty;
  push_delivery_claims = empty;
  pending_dispatches = empty;
  push_dispatch_enabled = false;
  retention = disabled;
}

-- A new backend that is configured: `with_retention`, `with_push_dispatch_enabled`.
abbrev pub configured : RetentionConfig → Bool → Store
configured retention enabled = record new { retention = retention; push_dispatch_enabled = enabled }
