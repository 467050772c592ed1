-- ===== src/Push/Lookup/Deletion.antt =====
-- A deletion that this server makes is seen by the next attempt
-- (crates/turul-a2a/src/push/delivery.rs).
use turul_a2a.Prelude.{
  ℕ, suc, ◌+◌, ◌%◌, ◌^◌, ◌≡◌, ◌<◌, ◌≤◌, ◌≢◌, ◌⊎◌, refl, String, true, false, Option, none, some,
  List, [], ◌∷◌, Result, ok, arith, Bool-cases, inl, inr, ◌==◌, ◌∙◌, sym, All,
}
use turul_a2a.Dict.{Dict, get, get-remove_self, get-remove, get-insert_other}
use turul_a2a.Task.{Task}
use turul_a2a.Storage.State.{
  TaskKey, task_key, task_key_eq, task_key_eq_iff, StorageError, AbandonedReason,
}
use turul_a2a.Push.Lookup.{Cache, is_fresh, retain_live, record_present, invalidate, gone}

-- What other deliveries and other deletions do to the cache.
pub data CacheCall : Type 0 where
  deletes : TaskKey → CacheCall
  records : ℕ → TaskKey → String → ℕ → ℕ → CacheCall

unfoldable pub cache_call : CacheCall → Cache → Cache
unfolding record_present invalidate
cache_call (deletes task) cache = invalidate task cache
cache_call (records now task config_id ttl generation) cache =
    record_present now task config_id ttl generation cache

-- The generation was current at some time before the cache reached the generation `old`, with at most
-- `past` deletions in between: the generations of a `u64` wrap around.
pub record IsEarlier (old past generation : ℕ) : Type 0 where
  pub back : ℕ
  pub within : back ≤ past
  pub fits : generation < 2 ^ 64
  pub reaches : (generation + back) % 2 ^ 64 ≡ old

-- A call by a delivery of another task, one whose read began at `old` or an earlier generation, or a
-- deletion.
abbrev pub IsLate : TaskKey → ℕ → ℕ → CacheCall → Type 0
IsLate task old past (deletes _) = Unit
IsLate task old past (records now other config_id ttl generation) =
    (other ≢ task) ⊎ IsEarlier old past generation

unfoldable pub cache_calls : List CacheCall → Cache → Cache
unfolding cache_call
cache_calls [] cache = cache
cache_calls (c ∷ cs) cache = cache_calls cs (cache_call c cache)

-- The configs of a task are out of the cache, at a generation that is `count` after `old`.
record IsOut (task : TaskKey) (old count : ℕ) (cache : Cache) : Type 0 where
  out : get cache.by_task task ≡ none
  generation : cache.generation ≡ (old + count) % 2 ^ 64

module _ (task : TaskKey) (old past : ℕ) (small : old < 2 ^ 64) where
  retain_live-out :
      (now ttl : ℕ) (entries : List (TaskKey × Dict String ℕ))
      → get (record { entries = entries }) task ≡ none
      → get (record { entries = retain_live now ttl entries }) task ≡ none
  unfolding retain_live get
  retain_live-out now ttl [] h = h
  retain_live-out now ttl (entry ∷ entries) h = ground (arith, retain_live-out now ttl entries)

  invalidate-IsOut :
      (count : ℕ) (other : TaskKey) (cache : Cache)
      → IsOut task old count cache
      → IsOut task old (suc count) (invalidate other cache)
  unfolding invalidate
  invalidate-IsOut count other cache a = record {
    out = ground (arith, get-remove cache.by_task other task, a.out);
    generation = omega (arith, a.generation);
  }

  moved_on :
      (count generation : ℕ)
      → past + suc count < 2 ^ 64
      → IsEarlier old past generation
      → (old + suc count) % 2 ^ 64 ≢ generation
  moved_on count generation few early =
      omega (arith, few, small, early.within, early.fits, early.reaches)

  apart :
      (count : ℕ) (other : TaskKey) (generation : ℕ) (cache : Cache)
      → past + suc count < 2 ^ 64
      → (other ≢ task) ⊎ IsEarlier old past generation
      → IsOut task old (suc count) cache
      → (cache.generation == generation) ≡ true
      → task_key_eq other task ≡ false
  apart count other generation cache few (inl h) a same = ground (arith, task_key_eq_iff other task)
  apart count other generation cache few (inr h) a same =
      absurd (moved_on count generation few h (sym a.generation ∙ ground (arith, same)))

  record-IsOut :
      (count now : ℕ) (other : TaskKey) (config_id : String) (ttl generation : ℕ) (cache : Cache)
      → past + suc count < 2 ^ 64
      → (other ≢ task) ⊎ IsEarlier old past generation
      → IsOut task old (suc count) cache
      → IsOut task old (suc count) (record_present now other config_id ttl generation cache)
  record-IsOut count now other config_id ttl generation cache few late a =
      elim (Bool-cases (ttl == 0)) [
        | inl never ↦ unfold record_present in rw (never, record_present) a
        | inr ever ↦ elim (Bool-cases (cache.generation == generation)) [
          | inr changed ↦ unfold record_present in rw (ever, changed, record_present) a
          | inl same ↦
              let live : Dict TaskKey (Dict String ℕ) = record {
                entries = retain_live now ttl (cache.by_task).entries;
              } in
              unfold record_present in
              rw (ever, same, record_present)
                (record {
                  out =
                      get-insert_other live other task _
                        (apart count other generation cache few late a same)
                      ∙ retain_live-out now ttl (cache.by_task).entries a.out;
                  generation = a.generation;
                })
        ]
      ]

abbrev pub deletions : List CacheCall → ℕ
deletions [] = 0
deletions (deletes _ ∷ cs) = suc (deletions cs)
deletions (records _ _ _ _ _ ∷ cs) = deletions cs

module _ (task : TaskKey) (old past : ℕ) (small : old < 2 ^ 64) where
  cache_calls-out :
      (cs : List CacheCall) (count : ℕ) (cache : Cache)
      → All (IsLate task old past) cs
      → past + (suc count + deletions cs) < 2 ^ 64
      → IsOut task old (suc count) cache
      → get (cache_calls cs cache).by_task task ≡ none
  unfolding cache_calls cache_call
  cache_calls-out [] count cache late few a = a.out
  cache_calls-out (deletes other ∷ cs) count cache late few a =
      cache_calls-out cs (suc count) _ late.1 (omega (arith, few))
        (invalidate-IsOut task old past small (suc count) other cache a)
  cache_calls-out (records now other config_id ttl generation ∷ cs) count cache late few a =
      cache_calls-out cs count _ late.1 few (
        record-IsOut task old past small count now other config_id ttl generation cache
          (omega (arith, few)) late.0 a)

-- After the configs of a task were dropped from the cache, and whatever deliveries of other tasks,
-- deliveries of this one whose read began before the drop, and further deletions do to the cache,
-- the next check reads the store: for every lifetime of the cache, a config that the store does not
-- have is reported as deleted. A read may have begun up to `past` deletions before the drop, and
-- `past`, the drop and the further deletions are fewer than 2^64 together.
pub deletion_seen :
    (task : TaskKey) (cache : Cache) (cs : List CacheCall) (config_id : String) (now ttl past : ℕ)
    (task_read : Result StorageError (Option Task))
    → cache.generation < 2 ^ 64
    → All (IsLate task cache.generation past) cs
    → past + (1 + deletions cs) < 2 ^ 64
    → (gone task config_id ttl (record {
      now = now;
      cache = cache_calls cs (invalidate task cache);
      config_read = ok none;
      task_read = task_read;
    })).0
      ≡ some AbandonedReason.config_deleted
unfolding gone is_fresh invalidate
deletion_seen task cache cs config_id now ttl past task_read small late few =
    let out =
      cache_calls-out task cache.generation past small cs 0 (invalidate task cache) late few
        (record { out = get-remove_self cache.by_task task; generation = omega arith }) in
    rw (out, is_fresh) refl
