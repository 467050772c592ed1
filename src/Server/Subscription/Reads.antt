-- ===== src/Server/Subscription/Reads.antt =====
-- What one read of a stream sends (crates/turul-a2a/src/streaming/task_stream.rs).
use turul_a2a.Prelude.{
  ℕ, ◌≤◌, ◌≡◌, refl, sym, ap, subst, ◌∙◌, false, none, some, List, [], ◌∷◌, ◌++◌, map, keep, ltb,
  arith, Bool-cases, inl, inr, ◌⊎◌, if◌then◌else◌,
}
use turul_a2a.Streaming.{StreamEvent, event_state}
use turul_a2a.Storage.State.{EventLog, LogEntry}
use turul_a2a.Storage.Clock.{Environment}
use turul_a2a.Storage.Events.{SequencedEvent, sequenced}
use turul_a2a.Storage.Sequence.{Ascending, Ascending-le}
use turul_a2a.Server.Subscription.{closes, send_events, Item, event_items, after_read}

-- The events up to the first that closes the stream, that one included.
abbrev pub up_to_closing : Environment → List StreamEvent → List StreamEvent
up_to_closing env [] = []
up_to_closing env (e ∷ es) =
    let rest = up_to_closing env es in
    if closes (event_state env.decode_status e) then e ∷ [] else e ∷ rest

abbrev pub payloads : List SequencedEvent → List StreamEvent
payloads es = map (λ (e : SequencedEvent). e.event) es

-- The number of the last event, `last` if there is none.
abbrev pub last_of : List SequencedEvent → ℕ → ℕ
last_of [] last = last
last_of (e ∷ es) last = last_of es e.sequence

pub after_open :
    (next : ℕ → List Item) (events : List StreamEvent) (n : ℕ)
    → after_read false next (record { events = events; last = some n })
      ≡ event_items events ++ next n
unfolding after_read
after_open next events n = refl

pub after_shut :
    (next : ℕ → List Item) (events : List StreamEvent)
    → after_read false next (record { events = events; last = none }) ≡ event_items events
unfolding after_read
after_shut next events = refl

-- The inner loop sends all the events of the read, or the stream is closed by one of them.
pub send_events-cases :
    (env : Environment) (es : List SequencedEvent) (last : ℕ)
    → ((send_events env es last ≡ record { events = payloads es; last = some (last_of es last) })
        × ((later : List StreamEvent)
            → up_to_closing env (payloads es ++ later) ≡ payloads es ++ up_to_closing env later))
      ⊎ ((events : List StreamEvent) × (send_events env es last
            ≡ record { events = events; last = none })
          × ((later : List StreamEvent) → up_to_closing env (payloads es ++ later) ≡ events))
unfolding send_events
send_events-cases env [] last = inl (refl, λ later. refl)
send_events-cases env (e ∷ es) last =
    elim (Bool-cases (closes (event_state env.decode_status e.event))) [
      | inl shut ↦ inr (e.event ∷ [], rw shut refl, λ later. rw shut refl)
      | inr stays ↦ elim (send_events-cases env es e.sequence) [
        | inl (all, more) ↦
            inl (rw (stays, all) refl, λ later. rw stays (ap (λ l. e.event ∷ l) (more later)))
        | inr (events, cut, more) ↦ inr (
          e.event ∷ events,
          rw (stays, cut) refl,
          λ later. rw stays (ap (λ l. e.event ∷ l) (more later)),
        )
      ]
    ]

pub keep_above :
    (a lo hi : ℕ) (log : EventLog)
    → Ascending lo hi log
    → a ≤ lo
    → keep (λ (e : LogEntry). ltb a e.sequence) log ≡ log
keep_above a lo hi [] h g = refl
keep_above a lo hi (e ∷ log) h g =
    ground (arith, h.0, keep_above a e.sequence hi log h.1 (omega (arith, h.0, g)))

abbrev pub above : ℕ → EventLog → EventLog
above a log = keep (λ (e : LogEntry). ltb a e.sequence) log

-- The last number of a read is above all that was read, and not above the counter.
pub record IsReached (a hi m : ℕ) (log : EventLog) : Type 0 where
  pub up : a ≤ m
  pub within : m ≤ hi
  pub all_read : above m log ≡ []

pub reached :
    (a lo hi : ℕ) (log : EventLog)
    → Ascending lo hi log
    → a ≤ hi
    → IsReached a hi (last_of (map sequenced (above a log)) a) log
reached a lo hi [] h g = record { up = omega arith; within = g; all_read = refl }
reached a lo hi (e ∷ log) h g = elim (Bool-cases (ltb a e.sequence)) [
  | inl new ↦
      let rest = reached e.sequence e.sequence hi log h.1 (Ascending-le e.sequence hi log h.1) in
      let same = keep_above a e.sequence hi log h.1 (ground (arith, new)) in
      let same' = keep_above e.sequence e.sequence hi log h.1 (omega arith) in
      let later =
        subst (λ l. IsReached e.sequence hi (last_of (map sequenced l) e.sequence) log)
          (same' ∙ sym same) rest in
      rw new (record {
        up = ground (arith, new, later.up);
        within = later.within;
        all_read = ground (arith, later.all_read, later.up);
      })
  | inr old ↦
      let rest = reached a e.sequence hi log h.1 g in
      rw old (record {
        up = rest.up;
        within = rest.within;
        all_read = ground (arith, rest.all_read, rest.up, old);
      })
]
