-- ===== src/Push/Persist.antt =====
-- The outcome of an attempt and the write of a terminal one
-- (crates/turul-a2a/src/push/delivery.rs).
use turul_a2a.Prelude.{
  ℕ, ◌+◌, ◌*◌, min, Bool, true, false, Option, none, some, List, [], ◌∷◌, ok, err, ltb, leb, ◌==◌,
  ◌&&◌, if◌then◌else◌,
}
use turul_a2a.Storage.State.{StorageError, GaveUpReason, DeliveryErrorClass}
use turul_a2a.Storage.Claims.{DeliveryClaim, DeliveryOutcome, record_delivery_outcome}
use turul_a2a.Push.Worker.{
  Delivery, DeliveryConfig, DeliveryReport, Round, StorageCall, Target, Tries, Worker, backoff_for,
  max_failed_delivery_retention, perform_call, target_key,
}

-- `gave_up`
unfoldable pub given_up :
    DeliveryConfig → ℕ → GaveUpReason → DeliveryErrorClass → Option ℕ → DeliveryOutcome
given_up config now reason last_error_class last_http_status =
    DeliveryOutcome.gave_up reason last_error_class last_http_status
      (now + min config.failed_delivery_retention max_failed_delivery_retention)

-- `success_report`; a retry is no terminal outcome.
unfoldable pub success_report : DeliveryOutcome → Option DeliveryReport
success_report (DeliveryOutcome.succeeded http_status) = some (DeliveryReport.succeeded http_status)
success_report (DeliveryOutcome.gave_up reason _ _ _) = some (DeliveryReport.gave_up reason)
success_report (DeliveryOutcome.abandoned reason) = some (DeliveryReport.abandoned reason)
success_report (DeliveryOutcome.retry _ _ _) = none

-- The answer to a failed try: lost to another writer, or worth another try.
abbrev pub is_stale : StorageError → Bool
is_stale (StorageError.stale_delivery_claim _ _ _ _) = true
is_stale _ = false

-- The loop of `persist_terminal`.
unfoldable pub persist_loop :
    Worker
    → Target
    → DeliveryClaim
    → DeliveryOutcome
    → DeliveryReport
    → List StorageCall
    → Delivery
    → DeliveryReport × Delivery
unfolding perform_call record_delivery_outcome
persist_loop w t c outcome report [] d = (DeliveryReport.transient_store_error, d)
persist_loop w t c outcome report (call ∷ calls) d =
    let attempt =
      perform_call w.storage call
        (λ now. record_delivery_outcome now (target_key t) c.claimant c.generation outcome)
        d.store in
    let d' = record d { store = attempt.1 } in
    let rest = persist_loop w t c outcome report calls d' in
    elim attempt.0 [
      | ok _ ↦ (report, d')
      | err e ↦ if is_stale e then (DeliveryReport.claim_lost_or_final, d') else rest
    ]

-- `persist_terminal`
unfoldable pub persist_terminal :
    Worker → Target → DeliveryClaim → Tries → DeliveryOutcome → Delivery → DeliveryReport × Delivery
unfolding success_report persist_loop
persist_terminal w t c calls outcome d = elim (success_report outcome) [
  | none ↦ (DeliveryReport.transient_store_error, d)
  | some report ↦
      persist_loop w t c outcome report (calls.first ∷ calls.second ∷ calls.third ∷ []) d
]

-- The outcome that a response gives.
unfoldable pub classify : DeliveryConfig → ℕ → Round → DeliveryOutcome
unfolding backoff_for given_up
classify config count r =
    let next = r.answered_at + backoff_for config count r.draw * 1_000_000 in
    elim r.response [
      | ok status ↦
          if leb 200 status && ltb status 400
          then DeliveryOutcome.succeeded status
          else if status == 429
          then DeliveryOutcome.retry next (some status) DeliveryErrorClass.http_error429
          else if status == 408
          then DeliveryOutcome.retry next (some status) DeliveryErrorClass.timeout
          else if leb 500 status && ltb status 600
          then DeliveryOutcome.retry next (some status) (DeliveryErrorClass.http_error5xx status)
          else given_up config r.answered_at GaveUpReason.non_retryable_http_status
              (DeliveryErrorClass.http_error4xx status) (some status)
      | err DeliveryErrorClass.tls_rejected ↦
          given_up config r.answered_at GaveUpReason.tls_rejected DeliveryErrorClass.tls_rejected
            none
      | err class ↦ DeliveryOutcome.retry next none class
    ]
