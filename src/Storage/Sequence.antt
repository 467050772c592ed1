-- ===== src/Storage/Sequence.antt =====
-- The event sequence of a task (crates/turul-a2a/src/storage/in_memory.rs): ascending numbers, and
-- what the append loop does to a log and to its counter.
pub mod WellFormed
pub mod Cleanup
pub mod Calls
pub mod Preserved
use turul_a2a.Prelude.{
  ℕ, zero, suc, ◌+◌, ◌≤◌, ◌<◌, ◌≡◌, refl, String, Bool, true, false, Option, none, some, List, [],
  ◌∷◌, ◌++◌, arith, length, All, max, ap, sym, ◌∙◌, length-append,
}
use mathlib.Core.List.{append_assoc, append-nil}
use turul_a2a.Streaming.{StreamEvent}
use turul_a2a.Storage.State.{Store, TaskKey, LogEntry, EventLog}
use turul_a2a.Storage.Events.{Appended, append_loop, append_events, counter_of, log_of}
use turul_a2a.Storage.Atomic.{max_of, max_with, max_or_zero}

-- The numbers of a log rise strictly from above `lo` to at most `hi`.
abbrev pub Ascending : ℕ → ℕ → EventLog → Type 0
Ascending lo hi [] = lo ≤ hi
Ascending lo hi (e ∷ log) = (lo < e.sequence) × Ascending e.sequence hi log

pub Ascending-le : (lo hi : ℕ) (log : EventLog) → Ascending lo hi log → lo ≤ hi
Ascending-le lo hi [] h = h
Ascending-le lo hi (e ∷ log) h = omega (arith, h.0, Ascending-le e.sequence hi log h.1)

pub Ascending-snoc :
    (lo hi : ℕ) (log : EventLog) (e : LogEntry)
    → Ascending lo hi log
    → hi < e.sequence
    → Ascending lo e.sequence (log ++ e ∷ [])
Ascending-snoc lo hi [] e h k = (omega arith, omega arith)
Ascending-snoc lo hi (d ∷ log) e h k = (h.0, Ascending-snoc d.sequence hi log e h.1 k)

-- The log entries of events numbered from `n + 1`, and their numbers.
abbrev pub entries_from : ℕ → ℕ → List StreamEvent → EventLog
entries_from now n [] = []
entries_from now n (event ∷ events) =
    record { sequence = n + 1; event = event; appended_at = now } ∷ entries_from now (n + 1) events

abbrev pub upto : ℕ → ℕ → List ℕ
upto n zero = []
upto n (suc k) = (n + 1) ∷ upto (n + 1) k

module _ (marked : StreamEvent → Bool) (now : ℕ) (owner : String) (k : TaskKey) where
  pub append_loop-log :
      (events : List StreamEvent) (a : Appended)
      → (append_loop marked now owner k events a).log ≡ a.log ++ entries_from now a.counter events
  unfolding append_loop
  append_loop-log [] a = sym (append-nil a.log)
  append_loop-log (event ∷ events) a = append_loop-log events _ ∙ append_assoc a.log _ _

  pub append_loop-counter :
      (events : List StreamEvent) (a : Appended)
      → (append_loop marked now owner k events a).counter ≡ a.counter + length events
  unfolding append_loop
  append_loop-counter [] a = omega arith
  append_loop-counter (event ∷ events) a = omega (arith, append_loop-counter events _)

  pub append_loop-sequences :
      (events : List StreamEvent) (a : Appended)
      → (append_loop marked now owner k events a).sequences
        ≡ a.sequences ++ upto a.counter (length events)
  unfolding append_loop
  append_loop-sequences [] a = sym (append-nil a.sequences)
  append_loop-sequences (event ∷ events) a =
      append_loop-sequences events _ ∙ append_assoc a.sequences _ _

  pub append_loop-Ascending :
      (lo : ℕ) (events : List StreamEvent) (a : Appended)
      → Ascending lo a.counter a.log
      → Ascending lo
          (append_loop marked now owner k events a).counter
          (append_loop marked now owner k events a).log
  unfolding append_loop
  append_loop-Ascending lo [] a h = h
  append_loop-Ascending lo (event ∷ events) a h =
      append_loop-Ascending lo events _ (Ascending-snoc lo a.counter a.log _ h (omega arith))

-- The greatest of consecutive numbers is the last.
pub max_of-upto : (n k : ℕ) → max_of (upto n (suc k)) ≡ some (n + 1 + k)
unfolding max_of
max_of-upto n zero = ap some (omega arith)
max_of-upto n (suc k) = ground (arith, max_of-upto (n + 1) k)

-- The floor of a task that had the counter `n` at least, after `m` more events.
pub max_with-upto : (n m prev : ℕ) → prev ≤ n → max_with (upto n m) prev ≤ n + m
unfolding max_of
max_with-upto n zero prev h = omega arith
max_with-upto n (suc m) prev h = ground (arith, max_of-upto n m)
