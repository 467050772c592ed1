-- ===== src/Push/Delivery/Rounds.antt =====
-- One round of the delivery worker (crates/turul-a2a/src/push/delivery.rs): it ends with a report,
-- or it has made one POST and counted it.
use turul_a2a.Prelude.{
  ℕ, suc, ◌+◌, ◌^◌, ◌≡◌, ◌≤◌, ◌<◌, refl, Bool, true, false, none, some, List, ◌∷◌, Result, ok, err,
  arith, Bool-cases, Option-cases, Result-cases, ◌⊎◌, inl, inr, if◌then◌else◌, length, leb, max,
  All, sym, subst,
}
use turul_a2a.Storage.State.{
  Store, StorageError, PushDeliveryKey, GaveUpReason, AbandonedReason, DeliveryErrorClass,
}
use turul_a2a.Storage.Claims.{
  DeliveryClaim, DeliveryOutcome, record_attempt_started, record_delivery_outcome,
}
use turul_a2a.Storage.ClaimRows.{record_delivery_outcome-IsAdvanced}
use turul_a2a.Storage.Fencing.{serve_records, claim_row_advances}
use turul_a2a.Push.Ssrf.{
  IpAddr, is_blocked_ip, SsrfDecision, SsrfBlockReason, allow, block, check_url,
}
use turul_a2a.Push.Ssrf.Choice.{pick_destination_lem}
use turul_a2a.Push.Worker.{
  Worker, Target, Delivery, DeliveryReport, StorageCall, Round, Post, target_key, perform_call,
  post_headers,
}
use turul_a2a.Push.Persist.{is_stale, classify, given_up}
use turul_a2a.Push.Delivery.{
  Ending, reports, again, ends, act, noted, settle, post_attempt, decide, check_gone, answered,
  round,
}
use turul_a2a.Push.Delivery.Ends.{
  IsTracked, advanced-IsTracked, IsFinal, is_final, persist_terminal-IsEnd, attempt-IsTracked,
}

-- In production, every POST goes to an address that the guard does not block.
abbrev pub AllOpen : List Post → Type 0
AllOpen posts = All (λ (p : Post). is_blocked_ip p.to ≡ false) posts

-- What holds after a round of at most `max` attempts that began with `count` of them.
abbrev pub IsRound : Worker → PushDeliveryKey → ℕ → Delivery → Ending → Delivery → Type 0
IsRound w k count before (reports report) after =
    (length after.posts + count ≤ length before.posts + max count (w.config).max_attempts)
    × (is_final report ≡ true → IsFinal after.store k)
    × ((w.config).allow_insecure_urls ≡ false → AllOpen before.posts → AllOpen after.posts)
IsRound w k count before (again n) after =
    (count < n)
    × (n < (w.config).max_attempts)
    × IsTracked after.store k n
    × (length after.posts ≡ suc (length before.posts))
    × ((w.config).allow_insecure_urls ≡ false → AllOpen before.posts → AllOpen after.posts)

decision-cases :
    (d : SsrfDecision)
    → ((reason : SsrfBlockReason) × (d ≡ block reason)) ⊎ ((ip : IpAddr) × (d ≡ allow ip))
decision-cases (block reason) = inl (reason, refl)
decision-cases (allow ip) = inr (ip, refl)

module _ (w : Worker) (t : Target) (c : DeliveryClaim) (r : Round) where
  -- A round that ends in a terminal write, after at most one more POST.
  ends-IsRound :
      (o : DeliveryOutcome) (count : ℕ) (before d : Delivery)
      → length d.posts + count ≤ length before.posts + max count (w.config).max_attempts
      → ((w.config).allow_insecure_urls ≡ false → AllOpen before.posts → AllOpen d.posts)
      → let e = ends w t c r o d in IsRound w (target_key t) count before e.0 e.1
  unfolding ends
  ends-IsRound o count before d bound opens =
      let end = persist_terminal-IsEnd w t c r.persist o d in
      (rw end.posts bound, end.final, λ production all. rw end.posts (opens production all))

  -- The call of the store keeps the row in sight.
  others-IsTracked :
      (call : StorageCall) (k : PushDeliveryKey) (count : ℕ) (s : Store)
      → IsTracked s k count
      → IsTracked (serve_records w.storage call.others s) k count
  others-IsTracked call k count s a =
      advanced-IsTracked s _ k count a (claim_row_advances w.storage call.others s k a.row a.there)

  note-IsTracked :
      (call : StorageCall) (o : DeliveryOutcome) (count : ℕ) (s : Store)
      → IsTracked s (target_key t) count
      → IsTracked
          (perform_call w.storage call
            (λ now. record_delivery_outcome now (target_key t) c.claimant c.generation o)
            s).1
          (target_key t)
          count
  unfolding perform_call
  note-IsTracked call o count s a =
      let later = others-IsTracked call (target_key t) count s a in
      elim (Option-cases call.fault) [
        | inr (e, faulty) ↦ rw faulty later
        | inl sound ↦ rw sound (
            advanced-IsTracked _ _ (target_key t) count later (
              record_delivery_outcome-IsAdvanced _ (target_key t) later.row later.there call.now
                (target_key t) c.claimant c.generation o))
      ]

  start-IsTracked :
      (count n : ℕ) (s : Store)
      → IsTracked s (target_key t) count
      → count + 1 < 2 ^ 32
      → (perform_call w.storage r.start
          (λ now. record_attempt_started now (target_key t) c.claimant c.generation)
          s).0
        ≡ ok n
      → (count < n)
        × IsTracked
            (perform_call w.storage r.start
              (λ now. record_attempt_started now (target_key t) c.claimant c.generation)
              s).1
            (target_key t)
            n
  unfolding perform_call
  start-IsTracked count n s a small h =
      let later = others-IsTracked r.start (target_key t) count s a in
      elim (Option-cases (r.start).fault) [
        | inr (e, faulty) ↦ absurd (ground (arith, faulty))
        | inl sound ↦ rw sound (
            attempt-IsTracked (r.start).now (target_key t) c.claimant c.generation count n _ later
              small (ground (arith, sound)))
      ]

  -- The round after a POST that made the count `n`.
  act-IsRound :
      (o : DeliveryOutcome) (count n : ℕ) (before d : Delivery)
      → count < n
      → count < (w.config).max_attempts
      → IsTracked d.store (target_key t) n
      → length d.posts ≡ suc (length before.posts)
      → ((w.config).allow_insecure_urls ≡ false → AllOpen before.posts → AllOpen d.posts)
      → let e = act w t c r n o d in IsRound w (target_key t) count before e.0 e.1
  unfolding act noted
  act-IsRound (DeliveryOutcome.retry _ http_status error_class) count n before d up below a one
        opens =
      elim (Bool-cases (leb (w.config).max_attempts n)) [
        | inl spent ↦ rw spent (
            ends-IsRound
              (given_up w.config r.given_up_at GaveUpReason.max_attempts_exhausted error_class
                http_status)
              count before (noted w t c r n http_status error_class d) (ground (arith, one)) opens)
        | inr left ↦
            rw left (up, ground (arith, left), note-IsTracked r.note _ n d.store a, one, opens)
      ]
  act-IsRound (DeliveryOutcome.succeeded s) count n before d up below a one opens =
      ends-IsRound (DeliveryOutcome.succeeded s) count before d (ground (arith, one)) opens
  act-IsRound (DeliveryOutcome.gave_up x y z u) count n before d up below a one opens =
      ends-IsRound (DeliveryOutcome.gave_up x y z u) count before d (ground (arith, one)) opens
  act-IsRound (DeliveryOutcome.abandoned x) count n before d up below a one opens =
      ends-IsRound (DeliveryOutcome.abandoned x) count before d (ground (arith, one)) opens

  abbrev started : Delivery → Result StorageError ℕ × Store
  started d =
      perform_call w.storage r.start
        (λ now. record_attempt_started now (target_key t) c.claimant c.generation) d.store

  abbrev posted : IpAddr → Delivery → Delivery
  posted ip d = record {
    store = (started d).1;
    posts = record { to = ip; headers = post_headers w t } ∷ d.posts;
  }

  attempt_posts :
      (ip : IpAddr) (n : ℕ) (d : Delivery)
      → (started d).0 ≡ ok n
      → post_attempt w t c r ip d ≡ act w t c r n (classify w.config n r) (posted ip d)
  unfolding post_attempt settle
  attempt_posts ip n d h = ground arith

  attempt_fails :
      (ip : IpAddr) (e : StorageError) (d : Delivery)
      → (started d).0 ≡ err e
      → post_attempt w t c r ip d ≡ (
        reports (
            if is_stale e
            then DeliveryReport.claim_lost_or_final
            else DeliveryReport.transient_store_error),
        record d { store = (started d).1 },
      )
  unfolding post_attempt
  attempt_fails ip e d h = ground arith

  not_final :
      (b : Bool)
      → is_final
          (if b then DeliveryReport.claim_lost_or_final else DeliveryReport.transient_store_error)
        ≡ false
  not_final true = refl
  not_final false = refl

  attempt-IsRound :
      (ip : IpAddr) (count : ℕ) (d : Delivery)
      → count < (w.config).max_attempts
      → (w.config).max_attempts < 2 ^ 32
      → IsTracked d.store (target_key t) count
      → ((w.config).allow_insecure_urls ≡ false → is_blocked_ip ip ≡ false)
      → let e = post_attempt w t c r ip d in IsRound w (target_key t) count d e.0 e.1
  attempt-IsRound ip count d below small a open_to =
      let P = λ (e : Ending × Delivery). IsRound w (target_key t) count d e.0 e.1 in
      elim (Result-cases (started d).0) [
        | inl (e, h) ↦ subst P (sym (attempt_fails ip e d h)) (
          ground arith,
          λ final. absurd (ground (arith, not_final (is_stale e))),
          λ production all. all,
        )
        | inr (n, h) ↦
            let next = start-IsTracked count n d.store a (ground arith) h in
            subst P (sym (attempt_posts ip n d h)) (
              act-IsRound (classify w.config n r) count n d (posted ip d) next.0 below next.1 refl
                (λ production all. (open_to production, all)))
      ]

  -- What the guard allows in production is not blocked.
  decide-open :
      (ip : IpAddr)
      → (w.config).allow_insecure_urls ≡ false
      → decide w t r ≡ allow ip
      → is_blocked_ip ip ≡ false
  unfolding decide
  decide-open ip production h =
      elim (Result-cases (check_url t.url (w.config).allow_insecure_urls w.outbound_validator)) [
        | inl (reason, no_url) ↦ absurd (ground (arith, no_url))
        | inr (u, url) ↦ elim (pick_destination_lem (answered r.answer)) [
          | inl (ip', e, first) ↦ ground (arith, url, e, first.open_to)
          | inr (inl (e, some_ip, others)) ↦ absurd (ground (arith, url, e))
          | inr (inr (e, others)) ↦ absurd (ground (arith, url, e))
        ]
      ]

  blocked_outcome : SsrfBlockReason → DeliveryOutcome
  blocked_outcome SsrfBlockReason.insecure_scheme =
      DeliveryOutcome.abandoned AbandonedReason.non_https_url_in_production
  blocked_outcome _ =
      given_up w.config r.given_up_at GaveUpReason.ssrf_blocked DeliveryErrorClass.ssrf_blocked none

  module _ (count : ℕ) (d : Delivery) where
    round_spent :
        leb (w.config).max_attempts count ≡ true
        → round w t c r count d
          ≡ ends w t c r
              (given_up w.config r.given_up_at GaveUpReason.max_attempts_exhausted
                DeliveryErrorClass.timeout none)
              d
    unfolding round
    round_spent h = ground arith

    round_gone :
        (reason : AbandonedReason)
        → leb (w.config).max_attempts count ≡ false
        → check_gone w t r ≡ some reason
        → round w t c r count d ≡ ends w t c r (DeliveryOutcome.abandoned reason) d
    unfolding round
    round_gone reason h g = ground arith

    round_blocked :
        (reason : SsrfBlockReason)
        → leb (w.config).max_attempts count ≡ false
        → check_gone w t r ≡ none
        → decide w t r ≡ block reason
        → round w t c r count d ≡ ends w t c r (blocked_outcome reason) d
    unfolding round blocked_outcome
    round_blocked SsrfBlockReason.private_ip h g b = rw (h, g, b, round) refl
    round_blocked SsrfBlockReason.insecure_scheme h g b = rw (h, g, b, round) refl
    round_blocked SsrfBlockReason.validator_denied h g b = rw (h, g, b, round) refl
    round_blocked SsrfBlockReason.invalid_url h g b = rw (h, g, b, round) refl
    round_blocked SsrfBlockReason.dns_resolution_failed h g b = rw (h, g, b, round) refl

    round_allowed :
        (ip : IpAddr)
        → leb (w.config).max_attempts count ≡ false
        → check_gone w t r ≡ none
        → decide w t r ≡ allow ip
        → round w t c r count d ≡ post_attempt w t c r ip d
    unfolding round
    round_allowed ip h g b = ground arith

    pub round-IsRound :
        (w.config).max_attempts < 2 ^ 32
        → IsTracked d.store (target_key t) count
        → let e = round w t c r count d in IsRound w (target_key t) count d e.0 e.1
    round-IsRound small a =
        let P = λ (e : Ending × Delivery). IsRound w (target_key t) count d e.0 e.1 in
        let stop = λ (o : DeliveryOutcome).
          ends-IsRound o count d d (ground arith) (λ production all. all) in
        elim (Bool-cases (leb (w.config).max_attempts count)) [
          | inl spent ↦ subst P (sym (round_spent spent)) (stop _)
          | inr left ↦ elim (Option-cases (check_gone w t r)) [
            | inr (reason, g) ↦
                subst P (sym (round_gone reason left g)) (stop (DeliveryOutcome.abandoned reason))
            | inl here ↦ elim (decision-cases (decide w t r)) [
              | inl (reason, b) ↦
                  subst P (sym (round_blocked reason left here b)) (stop (blocked_outcome reason))
              | inr (ip, b) ↦ subst P (sym (round_allowed ip left here b)) (
                  attempt-IsRound ip count d (ground (arith, left)) small a
                    (λ production. decide-open ip production b))
            ]
          ]
        ]
