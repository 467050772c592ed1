-- ===== src/Push/Delivery.antt =====
-- The worker that delivers one push notification (crates/turul-a2a/src/push/delivery.rs), against
-- the in-memory backend. What the rest of the world does during a delivery is a script: the calls
-- that others make on the store before each call of the worker, the calls of the store that fail,
-- the answers of DNS and of the receiver, the clock and the random draws.
pub mod Ends
pub mod Rounds
pub mod Bounded
pub mod Backoff
use turul_a2a.Prelude.{
  ℕ, zero, suc, ◌+◌, ◌-◌, ◌*◌, ◌^◌, ◌%◌, min, max, ℤ, pos, negsuc, String, Bool, true, false,
  Option, none, some, List, [], ◌∷◌, ◌++◌, Result, ok, err, ltb, leb, ◌==◌, ◌&&◌, if◌then◌else◌,
  str_eq,
}
use Prim.Native.String.{◌++◌ as text_append}
use turul_a2a.Storage.State.{
  Store, StorageError, TaskKey, PushDeliveryKey, GaveUpReason, AbandonedReason, DeliveryErrorClass,
}
use turul_a2a.Storage.Clock.{Environment}
use turul_a2a.Storage.Action.{Action, key}
use turul_a2a.Storage.Claims.{
  DeliveryClaim, DeliveryOutcome, claim_delivery, record_attempt_started, record_delivery_outcome,
}
use turul_a2a.Storage.Requests.{Record}
use turul_a2a.Storage.Fencing.{serve_records}
use turul_a2a.Push.Ssrf.{
  IpAddr, Url, SsrfDecision, allow, block, SsrfBlockReason, insecure_scheme, OutboundUrlValidator,
  check_url, pick_destination,
}
use turul_a2a.Push.Lookup.{Lookup, gone}
use turul_a2a.Push.Worker.{
  Delivery, DeliveryConfig, DeliveryReport, Post, Round, StorageCall, Target, Tries, Worker,
  add_clamped, as_i64, backoff_for, backoff_target, max_failed_delivery_retention, perform_call,
  post_headers, target_key,
}
use turul_a2a.Push.Persist.{
  classify, given_up, is_stale, persist_loop, persist_terminal, success_report,
}

-- How a round ends: with a report, or with the count of attempts for the next round.
pub data Ending : Type 0 where
  reports : DeliveryReport → Ending
  again : ℕ → Ending

-- `return self.persist_terminal(..)`
unfoldable pub ends :
    Worker → Target → DeliveryClaim → Round → DeliveryOutcome → Delivery → Ending × Delivery
unfolding persist_terminal
ends w t c r outcome d =
    let ended = persist_terminal w t c r.persist outcome d in (reports ended.0, ended.1)

-- The delivery after the retry is recorded, whether or not the store takes it.
unfoldable pub noted :
    Worker
    → Target
    → DeliveryClaim
    → Round
    → ℕ
    → Option ℕ
    → DeliveryErrorClass
    → Delivery
    → Delivery
unfolding backoff_for perform_call record_delivery_outcome
noted w t c r count http_status error_class d =
    let next = r.retry_at + backoff_for w.config count r.retry_draw * 1_000_000 in
    record d {
      store =
          (perform_call w.storage r.note
            (λ now.
              record_delivery_outcome now (target_key t) c.claimant c.generation
                (DeliveryOutcome.retry next http_status error_class))
            d.store).1;
    }

-- The end of a round whose response gave `outcome`; `count` is the number of the attempt.
unfoldable pub act :
    Worker → Target → DeliveryClaim → Round → ℕ → DeliveryOutcome → Delivery → Ending × Delivery
unfolding ends noted given_up
act w t c r count (DeliveryOutcome.retry _ http_status error_class) d =
    if leb w.config.max_attempts count
    then ends w t c r
        (given_up w.config r.given_up_at GaveUpReason.max_attempts_exhausted error_class
          http_status)
        (noted w t c r count http_status error_class d)
    else (again count, noted w t c r count http_status error_class d)
act w t c r count outcome d = ends w t c r outcome d

-- The round from the response on.
unfoldable pub settle : Worker → Target → DeliveryClaim → Round → ℕ → Delivery → Ending × Delivery
unfolding classify act
settle w t c r count d = act w t c r count (classify w.config count r) d

-- The round from the start of the attempt on, where the guard has allowed `ip`.
unfoldable pub post_attempt :
    Worker → Target → DeliveryClaim → Round → IpAddr → Delivery → Ending × Delivery
unfolding settle post_headers perform_call record_attempt_started
post_attempt w t c r ip d =
    let started =
      perform_call w.storage r.start
        (λ now. record_attempt_started now (target_key t) c.claimant c.generation) d.store in
    elim started.0 [
      | err e ↦ (
        reports (
            if is_stale e
            then DeliveryReport.claim_lost_or_final
            else DeliveryReport.transient_store_error),
        record d { store = started.1 },
      )
      | ok count ↦ settle w t c r count (record {
        store = started.1;
        posts = record { to = ip; headers = post_headers w t } ∷ d.posts;
      })
    ]

-- `.unwrap_or_default()`
abbrev pub answered : Result String (List IpAddr) → List IpAddr
answered (ok ips) = ips
answered (err _) = []

-- The guard's decision; the URL is checked before its host is resolved.
unfoldable pub decide : Worker → Target → Round → SsrfDecision
unfolding check_url pick_destination
decide w t r = elim (check_url t.url w.config.allow_insecure_urls w.outbound_validator) [
  | err reason ↦ block reason
  | ok _ ↦ pick_destination (answered r.answer) w.config.allow_insecure_urls
]

-- What the check for the config and the task finds, if there is one.
abbrev pub check_gone : Worker → Target → Round → Option AbandonedReason
unfolding gone
check_gone w t r = elim r.lookup [
  | none ↦ none
  | some l ↦ (gone (key t.tenant t.task_id) t.config_id w.config.config_cache_ttl l).0
]

-- One round of the loop of `deliver`.
unfoldable pub round : Worker → Target → DeliveryClaim → Round → ℕ → Delivery → Ending × Delivery
unfolding ends check_gone decide post_attempt given_up
round w t c r count d =
    if leb w.config.max_attempts count
    then ends w t c r
        (given_up w.config r.given_up_at GaveUpReason.max_attempts_exhausted
          DeliveryErrorClass.timeout none)
        d
    else (elim (check_gone w t r) [
      | some reason ↦ ends w t c r (DeliveryOutcome.abandoned reason) d
      | none ↦ elim (decide w t r) [
        | allow ip ↦ post_attempt w t c r ip d
        | block SsrfBlockReason.insecure_scheme ↦
            ends w t c r (DeliveryOutcome.abandoned AbandonedReason.non_https_url_in_production) d
        | block _ ↦
            ends w t c r
              (given_up w.config r.given_up_at GaveUpReason.ssrf_blocked
                DeliveryErrorClass.ssrf_blocked none)
              d
      ]
    ])

-- The loop on fuel: `script i` is the world during round `i`.
unfoldable pub deliver_loop :
    ℕ
    → Worker
    → Target
    → DeliveryClaim
    → (ℕ → Round)
    → ℕ
    → ℕ
    → Delivery
    → Option DeliveryReport × Delivery
unfolding round
deliver_loop zero w t c script i count d = (none, d)
deliver_loop (suc fuel) w t c script i count d =
    let step = round w t c (script i) count d in
    elim step.0 [
      | reports report ↦ (some report, step.1)
      | again n ↦ deliver_loop fuel w t c script (suc i) n step.1
    ]

-- `claim`, with the expiry of the worker's config.
unfoldable pub claim_target : Worker → Target → StorageCall → Action DeliveryClaim
unfolding perform_call claim_delivery
claim_target w t call s =
    perform_call w.storage call
      (λ now. claim_delivery now (target_key t) w.instance_id t.owner w.config.claim_expiry) s

abbrev pub is_held : StorageError → Bool
is_held (StorageError.claim_already_held _ _ _ _) = true
is_held _ = false

-- The rounds that are enough, as the theorems on termination show.
abbrev pub enough : DeliveryConfig → ℕ
enough config = config.max_attempts + 1

-- `deliver` of a payload of `size` bytes.
unfoldable pub deliver :
    Worker → Target → ℕ → StorageCall → (ℕ → Round) → Store → Option DeliveryReport × Delivery
unfolding claim_target persist_terminal deliver_loop given_up
deliver w t size call script s =
    let claimed = claim_target w t call s in
    let d : Delivery = record { store = claimed.1; posts = [] } in
    let r = script 0 in
    if ltb w.config.max_payload_bytes size
    then (elim claimed.0 [
      | err _ ↦ (some DeliveryReport.unclaimed_skip, d)
      | ok c ↦
          let ended =
            persist_terminal w t c r.persist
              (given_up w.config r.given_up_at GaveUpReason.payload_too_large
                DeliveryErrorClass.payload_too_large none)
              d in
          (some ended.0, ended.1)
    ])
    else (elim claimed.0 [
      | err e ↦ (
        some (
            if is_held e
            then DeliveryReport.claim_lost_or_final
            else DeliveryReport.unclaimed_skip),
        d,
      )
      | ok c ↦ deliver_loop (enough w.config) w t c script 0 c.delivery_attempt_count d
    ])

-- `abandon_reclaimed`
unfoldable pub abandon_reclaimed :
    Worker → Target → StorageCall → Tries → AbandonedReason → Store → DeliveryReport × Delivery
unfolding claim_target persist_terminal
abandon_reclaimed w t call tries reason s =
    let claimed = claim_target w t call s in
    let d : Delivery = record { store = claimed.1; posts = [] } in
    elim claimed.0 [
      | err e ↦ (
        if is_held e then DeliveryReport.claim_lost_or_final else DeliveryReport.unclaimed_skip,
        d,
      )
      | ok c ↦ persist_terminal w t c tries (DeliveryOutcome.abandoned reason) d
    ]
