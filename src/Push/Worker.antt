-- ===== src/Push/Worker.antt =====
-- What a delivery of a push notification works with (crates/turul-a2a/src/push/delivery.rs): the
-- worker and its settings, the world as a script, the wait between attempts and the POST.
use turul_a2a.Prelude.{
  ◌%◌, ℕ, ◌+◌, ◌-◌, ◌*◌, ◌^◌, min, ℤ, pos, negsuc, String, Bool, Option, none, some, List, [], ◌∷◌,
  ◌++◌, Result, err, ltb, ◌==◌, if◌then◌else◌, str_eq,
}
use Prim.Native.String.{◌++◌ as text_append}
use turul_a2a.Storage.State.{
  Store, StorageError, PushDeliveryKey, GaveUpReason, AbandonedReason, DeliveryErrorClass,
}
use turul_a2a.Storage.Clock.{Environment}
use turul_a2a.Storage.Action.{Action}
use turul_a2a.Storage.Requests.{Record}
use turul_a2a.Storage.Fencing.{serve_records}
use turul_a2a.Push.Ssrf.{IpAddr, Url, OutboundUrlValidator}
use turul_a2a.Push.Lookup.{Lookup}

-- `MAX_FAILED_DELIVERY_RETENTION`, in nanoseconds.
abbrev pub max_failed_delivery_retention : ℕ
max_failed_delivery_retention = 1000 * 365 * 24 * 60 * 60 * 1_000_000_000

-- `PushDeliveryConfig`, without the timeouts of the HTTP client. Durations are nanoseconds, but the
-- two of the backoff, which are read in whole milliseconds.
pub record DeliveryConfig : Type 0 where
  pub max_attempts : ℕ  -- a `u32`
  pub backoff_base : ℕ
  pub backoff_cap : ℕ
  pub jittered : ℕ → ℕ  -- `(target as f64 * jitter as f64) as i64` of `backoff_jitter`
  pub claim_expiry : ℕ
  pub max_payload_bytes : ℕ
  pub allow_insecure_urls : Bool
  pub config_cache_ttl : ℕ
  pub failed_delivery_retention : ℕ

-- `PushTarget`
pub record Target : Type 0 where
  pub tenant : String
  pub owner : String
  pub task_id : String
  pub event_sequence : ℕ
  pub config_id : String
  pub url : Url
  pub auth_scheme : String
  pub auth_credentials : String
  pub token : Option String

-- `PushDeliveryWorker`
pub record Worker : Type 0 where
  pub storage : Environment
  pub config : DeliveryConfig
  pub outbound_validator : Option OutboundUrlValidator
  pub instance_id : String
  pub user_agent : String  -- `turul-a2a/` and the version of the crate
  pub show : ℕ → String  -- `u64::to_string`

pub data DeliveryReport : Type 0 where
  succeeded : ℕ → DeliveryReport
  gave_up : GaveUpReason → DeliveryReport
  abandoned : AbandonedReason → DeliveryReport
  claim_lost_or_final unclaimed_skip transient_store_error : DeliveryReport

-- A call of the store: what others did before it, when it comes, and the error of a backend that
-- fails it.
pub record StorageCall : Type 0 where
  pub others : List Record
  pub now : ℕ
  pub fault : Option StorageError

-- The `TERMINAL_PERSIST_MAX_ATTEMPTS` tries of `persist_terminal`, of which it may need fewer.
pub record Tries : Type 0 where
  pub first : StorageCall
  pub second : StorageCall
  pub third : StorageCall

-- The world during one round of the loop.
pub record Round : Type 0 where
  pub lookup : Option Lookup  -- `none` where the worker has no `target_lookup`
  pub answer : Result String (List IpAddr)  -- of the DNS resolver
  pub start : StorageCall
  pub response : Result DeliveryErrorClass ℕ  -- of the POST
  pub answered_at : ℕ
  pub draw : ℤ  -- of the random generator, for the first time of the next attempt
  pub retry_at : ℕ
  pub retry_draw : ℤ
  pub note : StorageCall  -- the write of a retry
  pub given_up_at : ℕ
  pub persist : Tries

-- A POST: the address that it is pinned to, and its headers.
pub record Post : Type 0 where
  pub to : IpAddr
  pub headers : List (String × String)

pub record Delivery : Type 0 where
  pub store : Store
  pub posts : List Post  -- latest first

abbrev pub target_key : Target → PushDeliveryKey
target_key t = record {
  tenant = t.tenant;
  task_id = t.task_id;
  event_sequence = t.event_sequence;
  config_id = t.config_id;
}

-- The store after what others did, and the call.
unfoldable pub perform_call : {A : Type 0} → Environment → StorageCall → (ℕ → Action A) → Action A
unfolding serve_records
perform_call env call action s =
    let before = serve_records env call.others s in
    elim call.fault [ none ↦ action call.now before | some e ↦ (err e, before) ]

-- `target as i64`
abbrev pub as_i64 : ℕ → ℤ
as_i64 n = if ltb n (2 ^ 63) then pos n else negsuc (2 ^ 64 - n - 1)

-- `x.saturating_add(offset).max(0)`; the sum cannot leave the range on the negative side.
abbrev pub add_clamped : ℤ → ℤ → ℕ
add_clamped (pos a) (pos b) = min (a + b) (2 ^ 63 - 1)
add_clamped (pos a) (negsuc b) = a - (b + 1)
add_clamped (negsuc a) (pos b) = b - (a + 1)
add_clamped (negsuc a) (negsuc b) = 0

-- The wait before jitter: doubled with each attempt after the first, up to the cap. Both are cut
-- off by `as_millis() as u64`.
unfoldable pub backoff_target : DeliveryConfig → ℕ → ℕ
backoff_target config attempt =
    let base = config.backoff_base % 2 ^ 64 in
    let cap = config.backoff_cap % 2 ^ 64 in
    min (min (base * 2 ^ (min attempt 31 - 1)) (2 ^ 64 - 1)) cap

-- `backoff_for`, in milliseconds; `draw` is `random_range(-delta..=delta)`.
unfoldable pub backoff_for : DeliveryConfig → ℕ → ℤ → ℕ
unfolding backoff_target
backoff_for config attempt draw =
    let target = backoff_target config attempt in
    let offset = if config.jittered target == 0 then pos 0 else draw in
    add_clamped (as_i64 target) offset

-- The headers of a POST.
unfoldable pub post_headers : Worker → Target → List (String × String)
post_headers w t =
    let token : List (String × String) = (elim t.token [
      | none ↦ []
      | some token ↦ ("X-Turul-Push-Token", token) ∷ []
    ]) in
    let authorization : List (String × String) =
      if str_eq t.auth_scheme ""
      then []
      else ("Authorization", text_append t.auth_scheme (text_append " " t.auth_credentials)) ∷ [] in
    ("Content-Type", "application/a2a+json")
      ∷ ("User-Agent", w.user_agent)
      ∷ ("X-Turul-Event-Sequence", w.show t.event_sequence)
      ∷ authorization
    ++ token
