-- ===== src/Push/Delivery/Backoff.antt =====
-- The wait between two attempts (crates/turul-a2a/src/push/delivery.rs).
use turul_a2a.Prelude.{
  ◌%◌, ℕ, zero, suc, ◌+◌, ◌-◌, ◌*◌, ◌^◌, ◌≡◌, ◌≤◌, ◌<◌, min, ℤ, pos, negsuc, arith, Bool-cases, inl,
  inr, ◌==◌, ltb,
}
use turul_a2a.Push.Worker.{DeliveryConfig, backoff_target, backoff_for, as_i64, add_clamped}

-- A draw of the random generator from `-delta..=delta`.
abbrev pub IsDraw : ℕ → ℤ → Type 0
IsDraw delta (pos n) = n ≤ delta
IsDraw delta (negsuc n) = n < delta

pow_up : (n : ℕ) → 2 ^ n ≤ 2 ^ suc n
pow_up n = omega arith

scaled_up : (b x y : ℕ) → x ≤ y → b * x ≤ b * y
scaled_up b x y h = grind arith

capped_up : (x y m c : ℕ) → x ≤ y → min (min x m) c ≤ min (min y m) c
capped_up x y m c h = ground arith

exponent_up : (a : ℕ) → 2 ^ (min (suc a) 31 - 1) ≤ 2 ^ (min (suc (suc a)) 31 - 1)
exponent_up a = elim (Bool-cases (ltb a 30)) [
  | inl low ↦
      let here : min (suc a) 31 - 1 ≡ a = ground (arith, low) in
      let next : min (suc (suc a)) 31 - 1 ≡ suc a = ground (arith, low) in
      rw (here, next) (pow_up a)
  | inr high ↦
      let here : min (suc a) 31 - 1 ≡ 30 = ground (arith, high) in
      let next : min (suc (suc a)) 31 - 1 ≡ 30 = ground (arith, high) in
      rw (here, next) (omega arith)
]

target_up :
    (config : DeliveryConfig) (attempt : ℕ)
    → backoff_target config attempt ≤ backoff_target config (suc attempt)
unfolding backoff_target
target_up config zero = ground arith
target_up config (suc a) =
    capped_up _ _ (2 ^ 64 - 1) (config.backoff_cap % 2 ^ 64)
      (scaled_up (config.backoff_base % 2 ^ 64) _ _ (exponent_up a))

target_capped :
    (config : DeliveryConfig) (attempt : ℕ) → backoff_target config attempt ≤ config.backoff_cap
unfolding backoff_target
target_capped config attempt = omega arith

jitter_bounds :
    (target delta : ℕ) (draw : ℤ)
    → IsDraw delta draw
    → target + delta < 2 ^ 63
    → (add_clamped (as_i64 target) draw ≤ target + delta)
      × (target ≤ add_clamped (as_i64 target) draw + delta)
jitter_bounds target delta (pos n) h g = ground arith
jitter_bounds target delta (negsuc n) h g = ground arith

-- The wait before an attempt is within the jitter of its target: the target is at most the cap and
-- does not fall from one attempt to the next, and the wait, in milliseconds, differs from it by at
-- most the jitter of the target, for every draw from that range, as long as the sum of both fits
-- in an `i64`.
pub backoff_for-bounds :
    (config : DeliveryConfig) (attempt : ℕ) (draw : ℤ)
    → IsDraw (config.jittered (backoff_target config attempt)) draw
    → backoff_target config attempt + config.jittered (backoff_target config attempt) < 2 ^ 63
    → (backoff_target config attempt ≤ config.backoff_cap)
      × (backoff_target config attempt ≤ backoff_target config (suc attempt))
      × (backoff_for config attempt draw
          ≤ backoff_target config attempt + config.jittered (backoff_target config attempt))
      × (backoff_target config attempt
          ≤ backoff_for config attempt draw + config.jittered (backoff_target config attempt))
unfolding backoff_for
backoff_for-bounds config attempt draw h g =
    let target = backoff_target config attempt in
    let delta = config.jittered target in
    elim (Bool-cases (delta == 0)) [
      | inl none_drawn ↦
          let bounds = jitter_bounds target delta (pos 0) (omega arith) g in
          (
            target_capped config attempt,
            target_up config attempt,
            rw none_drawn bounds.0,
            rw none_drawn bounds.1,
          )
      | inr drawn ↦
          let bounds = jitter_bounds target delta draw h g in
          (
            target_capped config attempt,
            target_up config attempt,
            rw drawn bounds.0,
            rw drawn bounds.1,
          )
    ]
