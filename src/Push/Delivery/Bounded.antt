-- ===== src/Push/Delivery/Bounded.antt =====
-- The delivery worker ends (crates/turul-a2a/src/push/delivery.rs).
use turul_a2a.Prelude.{
  ℕ, zero, suc, ◌+◌, ◌-◌, ◌^◌, ◌≡◌, ◌≤◌, ◌<◌, refl, String, Bool, Option-cases, true, false, Option,
  none, some, [], ok, err, arith, Bool-cases, Result-cases, inl, inr, length, ltb, ◌⊎◌, sym, ap,
  ◌∙◌, subst, max, if◌then◌else◌,
}
use turul_a2a.Dict.{get-insert_self}
use turul_a2a.Storage.State.{
  Store, GaveUpReason, DeliveryErrorClass, StorageError, PushDeliveryKey, StoredDeliveryClaim,
  delivery_key,
}
use turul_a2a.Storage.ClaimRows.{claim_of}
use turul_a2a.Storage.Fencing.{serve_records}
use turul_a2a.Storage.Claims.{DeliveryClaim, claim_delivery, fresh_claim, reclaimed, as_claim}
use turul_a2a.Push.Worker.{
  Worker, Target, Delivery, DeliveryReport, StorageCall, Round, target_key, perform_call,
}
use turul_a2a.Push.Persist.{given_up}
use turul_a2a.Push.Delivery.{
  Ending, reports, again, round, deliver_loop, claim_target, is_held, deliver, enough,
}
use turul_a2a.Push.Delivery.Ends.{IsTracked, IsFinal, is_final, persist_terminal-IsEnd}
use turul_a2a.Push.Delivery.Rounds.{AllOpen, IsRound, round-IsRound}

-- What a whole delivery leaves: a report; no more POSTs than there were attempts left; a terminal
-- row where the report is final; in production, no POST to a blocked address.
pub record IsDelivered (w : Worker) (t : Target) (count : ℕ) (before : Delivery)
    (result : Option DeliveryReport × Delivery) : Type 0 where
  pub report : DeliveryReport
  pub reported : result.0 ≡ some report
  pub bounded :
      length (result.1).posts + count ≤ length before.posts + max count (w.config).max_attempts
  pub final : is_final report ≡ true → IsFinal (result.1).store (target_key t)
  pub opens :
      (w.config).allow_insecure_urls ≡ false → AllOpen before.posts → AllOpen (result.1).posts

Ending-cases : (e : Ending) → ((r : DeliveryReport) × (e ≡ reports r)) ⊎ ((n : ℕ) × (e ≡ again n))
Ending-cases (reports r) = inl (r, refl)
Ending-cases (again n) = inr (n, refl)

module _ (w : Worker) (t : Target) (c : DeliveryClaim) (script : ℕ → Round)
    (small : (w.config).max_attempts < 2 ^ 32) where
  loop_stops :
      (fuel i count : ℕ) (d : Delivery) (r : DeliveryReport)
      → (round w t c (script i) count d).0 ≡ reports r
      → deliver_loop (suc fuel) w t c script i count d
        ≡ (some r, (round w t c (script i) count d).1)
  unfolding deliver_loop
  loop_stops fuel i count d r h = rw (h, deliver_loop) refl

  loop_goes_on :
      (fuel i count n : ℕ) (d : Delivery)
      → (round w t c (script i) count d).0 ≡ again n
      → deliver_loop (suc fuel) w t c script i count d
        ≡ deliver_loop fuel w t c script (suc i) n (round w t c (script i) count d).1
  unfolding deliver_loop
  loop_goes_on fuel i count n d h = rw (h, deliver_loop) refl

  deliver_loop-IsDelivered :
      (fuel i count : ℕ) (d : Delivery)
      → (w.config).max_attempts - count < fuel
      → count < 2 ^ 32
      → IsTracked d.store (target_key t) count
      → IsDelivered w t count d (deliver_loop fuel w t c script i count d)
  deliver_loop-IsDelivered zero i count d enough size a = absurd (omega (arith, enough))
  deliver_loop-IsDelivered (suc fuel) i count d enough size a =
      let step = round-IsRound w t c (script i) count d small a in
      elim (Ending-cases (round w t c (script i) count d).0) [
        | inl (r, h) ↦
            let done =
              subst (λ e. IsRound w (target_key t) count d e (round w t c (script i) count d).1) h
                step in
            subst (IsDelivered w t count d) (sym (loop_stops fuel i count d r h)) (record {
              report = r;
              reported = refl;
              bounded = done.0;
              final = done.1;
              opens = done.2;
            })
        | inr (n, h) ↦
            let (up, below, tracked, one, opens) =
              subst (λ e. IsRound w (target_key t) count d e (round w t c (script i) count d).1) h
                step in
            let rest =
              deliver_loop-IsDelivered fuel (suc i) n _ (omega (arith, enough, up, below))
                (omega (arith, below, small)) tracked in
            subst (IsDelivered w t count d) (sym (loop_goes_on fuel i count n d h)) (record {
              report = rest.report;
              reported = rest.reported;
              bounded = ground (arith, rest.bounded, one, up, below);
              final = rest.final;
              opens = λ production all. rest.opens production (opens production all);
            })
      ]

claim_delivery-row :
    (now : ℕ) (k : PushDeliveryKey) (claimant owner : String) (expiry : ℕ) (s : Store)
    (c : DeliveryClaim)
    → (claim_delivery now k claimant owner expiry s).0 ≡ ok c
    → (row : StoredDeliveryClaim) × (claim_of (claim_delivery now k claimant owner expiry s).1 k
        ≡ some row)
      × (row.delivery_attempt_count ≡ c.delivery_attempt_count)
unfolding claim_delivery as_claim
claim_delivery-row now k claimant owner expiry s c h = elim (Option-cases (claim_of s k)) [
  | inl e ↦ (
    fresh_claim now claimant owner expiry,
    ground (
      arith,
      e,
      get-insert_self s.push_delivery_claims k (fresh_claim now claimant owner expiry),
    ),
    ground (arith, e),
  )
  | inr (row, e) ↦ (
    reclaimed now claimant expiry row,
    ground (arith, e, get-insert_self s.push_delivery_claims k (reclaimed now claimant expiry row)),
    ground (arith, e),
  )
]

claim_sound :
    (w : Worker) (t : Target) (call : StorageCall) (s : Store)
    → call.fault ≡ none
    → claim_target w t call s
      ≡ claim_delivery call.now
          (target_key t)
          w.instance_id
          t.owner
          (w.config).claim_expiry
          (serve_records w.storage call.others s)
unfolding claim_target perform_call
claim_sound w t call s h = ground arith

claim_faulty :
    (w : Worker) (t : Target) (call : StorageCall) (s : Store) (e : StorageError)
    → call.fault ≡ some e
    → (claim_target w t call s).0 ≡ err e
unfolding claim_target perform_call
claim_faulty w t call s e h = ground arith

claimed-IsTracked :
    (w : Worker) (t : Target) (call : StorageCall) (s : Store) (c : DeliveryClaim)
    → c.delivery_attempt_count < 2 ^ 32
    → (claim_target w t call s).0 ≡ ok c
    → IsTracked (claim_target w t call s).1 (target_key t) c.delivery_attempt_count
claimed-IsTracked w t call s c size h = elim (Option-cases call.fault) [
  | inr (e, faulty) ↦ absurd (ground (arith, claim_faulty w t call s e faulty))
  | inl sound ↦
      let made = claim_sound w t call s sound in
      let (row, there, same) =
        claim_delivery-row call.now (target_key t) w.instance_id t.owner (w.config).claim_expiry
          (serve_records w.storage call.others s) c (sym (ap (λ r. r.0) made) ∙ h) in
      subst (λ r. IsTracked r.1 (target_key t) c.delivery_attempt_count) (sym made)
        (record {
          row = row;
          there = there;
          reached = omega (arith, same);
          small = omega (arith, same, size);
        })
]

-- A delivery that has ended.
pub record IsDone (w : Worker) (t : Target) (result : Option DeliveryReport × Delivery)
    : Type 0 where
  pub report : DeliveryReport
  pub reported : result.0 ≡ some report
  pub bounded : length (result.1).posts ≤ (w.config).max_attempts
  pub final : is_final report ≡ true → IsFinal (result.1).store (target_key t)
  pub opens : (w.config).allow_insecure_urls ≡ false → AllOpen (result.1).posts

module _ (w : Worker) (t : Target) (size : ℕ) (call : StorageCall) (script : ℕ → Round)
    (s : Store) where
  abbrev granted : Delivery
  granted = record { store = (claim_target w t call s).1; posts = [] }

  -- A delivery that stops before its first round.
  skips : (r : DeliveryReport) → is_final r ≡ false → IsDone w t (some r, granted)
  skips r h = record {
    report = r;
    reported = refl;
    bounded = omega arith;
    final = λ final. absurd (ground (arith, h));
    opens = λ production. tt;
  }

  refused_report :
      (b : Bool)
      → is_final (if b then DeliveryReport.claim_lost_or_final else DeliveryReport.unclaimed_skip)
        ≡ false
  refused_report true = refl
  refused_report false = refl

  no_claim :
      (e : StorageError)
      → (claim_target w t call s).0 ≡ err e
      → IsDone w t (deliver w t size call script s)
  unfolding deliver
  no_claim e h = elim (Bool-cases (ltb (w.config).max_payload_bytes size)) [
    | inl large ↦ rw (large, h, deliver) (skips DeliveryReport.unclaimed_skip refl)
    | inr fit ↦ rw (fit, h, deliver) (skips _ (refused_report (is_held e)))
  ]

  too_large :
      (c : DeliveryClaim)
      → ltb (w.config).max_payload_bytes size ≡ true
      → (claim_target w t call s).0 ≡ ok c
      → IsDone w t (deliver w t size call script s)
  unfolding deliver
  too_large c large h =
      let end =
        persist_terminal-IsEnd w t c (script 0).persist
          (given_up w.config (script 0).given_up_at GaveUpReason.payload_too_large
            DeliveryErrorClass.payload_too_large none)
          granted in
      rw (large, h, deliver)
        (record {
          report = _;
          reported = refl;
          bounded = rw end.posts (omega arith);
          final = end.final;
          opens = λ production. rw end.posts tt;
        })

  fits :
      (c : DeliveryClaim)
      → ltb (w.config).max_payload_bytes size ≡ false
      → (claim_target w t call s).0 ≡ ok c
      → deliver w t size call script s
        ≡ deliver_loop (enough w.config) w t c script 0 c.delivery_attempt_count granted
  unfolding deliver
  fits c small h = rw (small, h, deliver) refl

  -- The delivery ends with a report after at most `max_attempts` POSTs, whatever the network and a
  -- failing backend do, and whatever calls of the config, event, claim and dispatch stores others
  -- make in between (no call that writes a task, and no cleanup); a report that the delivery succeeded, was given up or was
  -- abandoned comes only with a terminal row in the store; and in production no POST goes to an
  -- address that the guard blocks. The claim's count of attempts and the limit are `u32`s.
  pub deliver-IsDone :
      (w.config).max_attempts < 2 ^ 32
      → ((c : DeliveryClaim)
          → (claim_target w t call s).0 ≡ ok c
          → c.delivery_attempt_count < 2 ^ 32)
      → IsDone w t (deliver w t size call script s)
  deliver-IsDone small u32 = elim (Result-cases (claim_target w t call s).0) [
    | inl (e, h) ↦ no_claim e h
    | inr (c, h) ↦ elim (Bool-cases (ltb (w.config).max_payload_bytes size)) [
      | inl large ↦ too_large c large h
      | inr fit ↦
          let done =
            deliver_loop-IsDelivered w t c script small (enough w.config) 0 c.delivery_attempt_count
              granted (omega arith) (u32 c h) (claimed-IsTracked w t call s c (u32 c h) h) in
          subst (IsDone w t) (sym (fits c fit h)) (record {
            report = done.report;
            reported = done.reported;
            bounded = ground (arith, done.bounded);
            final = done.final;
            opens = λ production. done.opens production tt;
          })
    ]
  ]
