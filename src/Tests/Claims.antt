-- ===== src/Tests/Claims.antt =====
-- The fencing theorems at one claimed delivery.
use turul_a2a.Prelude.{◌≡◌, refl, some, err, ok, List, [], ◌∷◌, ◌<◌, arith, str_eq}
use turul_a2a.Dict.{get, find}
use turul_a2a.Storage.State.{Store, StoredDeliveryClaim, delivery_key, delivery_key_eq, new}
use turul_a2a.Storage.Claims.{
  DeliveryOutcome, claim_delivery, record_attempt_started, record_delivery_outcome, stale,
  fresh_claim, reclaimed, claim_terminal, as_claim,
}
use turul_a2a.Storage.Requests.{Record, claim, start_attempt, report_outcome}
use turul_a2a.Storage.ClaimRows.{IsAdvanced}
use turul_a2a.Storage.Fencing.{serve_records, claim_row_advances, earlier_generation_fenced}
use turul_a2a.Tests.Data.{env, delivery}

-- A row whose lease has run out when the second worker comes.
abbrev expired : StoredDeliveryClaim
expired = fresh_claim 1_000_000_000_000 "w1" "alice" 100

abbrev crowded : Store
crowded = record new { push_delivery_claims = record { entries = (delivery, expired) ∷ [] } }

-- A second worker takes the delivery over, tries, and delivers it.
abbrev takeover : List Record
takeover =
    claim 2_000_000_000_000 delivery "w2" "alice" 100
    ∷ start_attempt 2_000_000_000_001 delivery "w2" 2
    ∷ report_outcome 2_000_000_000_002 delivery "w2" 2 (DeliveryOutcome.succeeded 200)
    ∷ []

there : get crowded.push_delivery_claims delivery ≡ some expired
unfolding get find delivery_key_eq str_eq
there = refl

claim_row_advances_example : IsAdvanced (serve_records env takeover crowded) delivery expired
claim_row_advances_example = claim_row_advances env takeover crowded delivery expired there

taken_over :
    (claim_delivery 1_000_000_000_100 delivery "w3" "alice" 100 crowded).0
    ≡ ok (as_claim (reclaimed 1_000_000_000_100 "w3" 100 expired))
unfolding claim_delivery get find delivery_key_eq str_eq fresh_claim claim_terminal
taken_over = refl

second_generation : 1 < (as_claim (reclaimed 1_000_000_000_100 "w3" 100 expired)).generation
unfolding as_claim reclaimed fresh_claim
second_generation = omega arith

-- The first worker's generation is 1; the one handed out at the takeover is 2.
earlier_generation_fenced_example :
    let t =
      serve_records env takeover
        (claim_delivery 1_000_000_000_100 delivery "w3" "alice" 100 crowded).1 in
    (record_attempt_started 3_000_000_000_000 delivery "w1" 1 t ≡ (err (stale delivery), t))
    × (record_delivery_outcome 3_000_000_000_000 delivery "w1" 1 (DeliveryOutcome.succeeded 200) t
        ≡ (err (stale delivery), t))
earlier_generation_fenced_example =
    earlier_generation_fenced env 1_000_000_000_100 delivery "w3" "alice" 100 crowded
      (as_claim (reclaimed 1_000_000_000_100 "w3" 100 expired)) takeover 3_000_000_000_000 "w1" 1
      (DeliveryOutcome.succeeded 200) taken_over second_generation
