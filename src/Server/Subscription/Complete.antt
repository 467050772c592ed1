-- ===== src/Server/Subscription/Complete.antt =====
-- A stream is complete (crates/turul-a2a/src/streaming/task_stream.rs).
use mathlib.Core.List.{map-append}
use turul_a2a.Prelude.{
  ℕ, ◌≤◌, ◌≡◌, refl, sym, ap, subst, ◌∙◌, String, false, none, List, [], ◌∷◌, ◌++◌, map,
  keep-append, All, ok, arith, inl, inr,
}
use turul_a2a.Task.{Task, task_state}
use turul_a2a.Streaming.{StreamEvent}
use turul_a2a.Storage.State.{Store, StorageError, EventLog}
use turul_a2a.Storage.Clock.{Environment}
use turul_a2a.Storage.Action.{key}
use turul_a2a.Storage.Events.{SequencedEvent, sequenced, log_of, counter_of, get_events_after}
use turul_a2a.Storage.Requests.{serve}
use turul_a2a.Storage.Replay.{events_after}
use turul_a2a.Storage.Sequence.{Ascending, Ascending-le}
use turul_a2a.Storage.Sequence.WellFormed.{IsWellFormed}
use turul_a2a.Storage.Growth.{
  IsGrown, IsAppending, IsGrown-trans, same_log, Ascending-append, serve-IsGrown,
}
use turul_a2a.Server.Subscription.{
  task, event, closes, Wake, send_events, Item, event_items, stream_loop, after_read,
  task_event_stream,
}
use turul_a2a.Server.Subscription.Reads.{
  up_to_closing, payloads, last_of, after_open, after_shut, send_events-cases, keep_above, above,
  IsReached, reached,
}

-- The store when a wake-up reads it last.
abbrev pub final_store : Environment → List Wake → Store → Store
unfolding serve
final_store env [] s = s
final_store env (w ∷ ws) s = final_store env ws (serve env w.others s)

-- Wake-ups at which the read succeeds, the broker is there and nothing was cleaned up.
abbrev pub AreCalm : List Wake → Type 0
AreCalm ws =
    All (λ (w : Wake). (w.fault ≡ none) × (w.is_last ≡ false) × All IsAppending w.others) ws

module _ (env : Environment) (display : StorageError → String) (tenant id : String) where
  final_store-IsGrown :
      (ws : List Wake) (s : Store) → AreCalm ws → IsGrown s (final_store env ws s) (key tenant id)
  unfolding final_store
  final_store-IsGrown [] s calm = same_log s s _ refl refl
  final_store-IsGrown (w ∷ ws) s calm =
      IsGrown-trans s _ _ _ (serve-IsGrown env w.others s _ (calm.0).2)
        (final_store-IsGrown ws _ calm.1)

  serve-rising :
      (w : Wake) (s : Store)
      → All IsAppending w.others
      → Ascending 0 (counter_of s (key tenant id)) (log_of s (key tenant id))
      → Ascending 0
          (counter_of (serve env w.others s) (key tenant id))
          (log_of (serve env w.others s) (key tenant id))
  serve-rising w s calm h =
      let g = serve-IsGrown env w.others s (key tenant id) calm in
      subst (Ascending 0 _) (sym g.grown) (Ascending-append 0 _ _ _ g.tail h g.rising)

  -- What a store holds behind a number, after it has grown.
  grown-above :
      (s t : Store) (last : ℕ)
      → (g : IsGrown s t (key tenant id)) → last ≤ counter_of s (key tenant id)
      → above last (log_of t (key tenant id)) ≡ above last (log_of s (key tenant id)) ++ g.tail
  grown-above s t last g h =
      ap (above last) g.grown
      ∙ keep-append _ (log_of s (key tenant id)) g.tail
      ∙ ap (λ l. above last (log_of s (key tenant id)) ++ l) (keep_above last _ _ g.tail g.rising h)

  abbrev new_events : Store → ℕ → List SequencedEvent
  new_events s last = map sequenced (above last (log_of s (key tenant id)))

  loop_read :
      (w : Wake) (ws : List Wake) (s : Store) (last : ℕ)
      → w.fault ≡ none
      → w.is_last ≡ false
      → stream_loop env display tenant id (w ∷ ws) s last
        ≡ after_read false
            (stream_loop env display tenant id ws (serve env w.others s))
            (send_events env (new_events (serve env w.others s) last) last)
  unfolding stream_loop get_events_after
  loop_read w ws s last sound there = rw (sound, there, stream_loop) refl

  -- What the stream should send: all that the final store holds behind a number, up to the event
  -- that closes the stream.
  abbrev expected : List Wake → Store → ℕ → List Item
  expected ws s last =
      event_items (up_to_closing env (payloads (new_events (final_store env ws s) last)))

  -- A read of `t`, when the rest of the stream is as expected from there on.
  module _ (ws : List Wake) (t : Store) (last : ℕ) (calm : AreCalm ws)
      (rising : Ascending 0 (counter_of t (key tenant id)) (log_of t (key tenant id)))
      (within : last ≤ counter_of t (key tenant id)) (next : ℕ → List Item)
      (rest : (n : ℕ)
        → n ≤ counter_of t (key tenant id)
        → above n (log_of t (key tenant id)) ≡ []
        → next n ≡ expected ws t n) where
    abbrev latest : ℕ
    latest = last_of (new_events t last) last

    read_up : IsReached last (counter_of t (key tenant id)) latest (log_of t (key tenant id))
    read_up = reached last 0 _ (log_of t (key tenant id)) rising within

    tail : EventLog
    tail = (final_store-IsGrown ws t calm).tail

    whole : new_events (final_store env ws t) last ≡ new_events t last ++ map sequenced tail
    unfolding tail
    whole =
        ap (map sequenced) (grown-above t _ last (final_store-IsGrown ws t calm) within)
        ∙ map-append sequenced (above last (log_of t (key tenant id))) tail

    left : new_events (final_store env ws t) latest ≡ map sequenced tail
    unfolding tail
    left = ap (map sequenced) (
        grown-above t _ latest (final_store-IsGrown ws t calm) read_up.within
        ∙ ap (λ l. l ++ (final_store-IsGrown ws t calm).tail) read_up.all_read)

    split :
        payloads (new_events (final_store env ws t) last)
        ≡ payloads (new_events t last) ++ payloads (map sequenced tail)
    split =
        ap payloads whole
        ∙ map-append (λ (e : SequencedEvent). e.event) (new_events t last) (map sequenced tail)

    read_expected :
        after_read false next (send_events env (new_events t last) last) ≡ expected ws t last
    read_expected = elim (send_events-cases env (new_events t last) last) [
      | inl (all, more) ↦
          ap (after_read false next) all
          ∙ after_open next (payloads (new_events t last)) latest
          ∙ ap (λ l. event_items (payloads (new_events t last)) ++ l)
              (rest latest read_up.within read_up.all_read
                ∙ ap (λ l. event_items (up_to_closing env (payloads l))) left)
          ∙ sym (
              map-append (λ (e : StreamEvent). ok (event e)) (payloads (new_events t last))
                (up_to_closing env (payloads (map sequenced tail))))
          ∙ ap event_items (sym (more (payloads (map sequenced tail))))
          ∙ ap (λ l. event_items (up_to_closing env l)) (sym split)
      | inr (events, cut, more) ↦
          ap (after_read false next) cut
          ∙ after_shut next events
          ∙ ap event_items (sym (more (payloads (map sequenced tail))))
          ∙ ap (λ l. event_items (up_to_closing env l)) (sym split)
    ]

  -- One more read before wake-ups for which the stream is as expected.
  loop_expected :
      (w : Wake) (ws : List Wake) (s : Store) (last : ℕ)
      → AreCalm (w ∷ ws)
      → Ascending 0 (counter_of s (key tenant id)) (log_of s (key tenant id))
      → last ≤ counter_of s (key tenant id)
      → ((t : Store) (n : ℕ)
          → Ascending 0 (counter_of t (key tenant id)) (log_of t (key tenant id))
          → n ≤ counter_of t (key tenant id)
          → above n (log_of t (key tenant id)) ≡ []
          → stream_loop env display tenant id ws t n ≡ expected ws t n)
      → stream_loop env display tenant id (w ∷ ws) s last ≡ expected (w ∷ ws) s last
  unfolding final_store
  loop_expected w ws s last calm rising within rest =
      let t = serve env w.others s in
      let up = serve-rising w s (calm.0).2 rising in
      loop_read w ws s last (calm.0).0 (calm.0).1
      ∙ read_expected ws t last calm.1 up
          (omega (
            arith,
            within,
            Ascending-le _ _ _ (serve-IsGrown env w.others s (key tenant id) (calm.0).2).rising,
          ))
          (stream_loop env display tenant id ws t) (λ n. rest t n up)

  stream_loop-expected :
      (ws : List Wake) (s : Store) (last : ℕ)
      → AreCalm ws
      → Ascending 0 (counter_of s (key tenant id)) (log_of s (key tenant id))
      → last ≤ counter_of s (key tenant id)
      → above last (log_of s (key tenant id)) ≡ []
      → stream_loop env display tenant id ws s last ≡ expected ws s last
  unfolding stream_loop final_store
  stream_loop-expected [] s last calm rising within all_read =
      ap (λ l. event_items (up_to_closing env (payloads (map sequenced l)))) (sym all_read)
  stream_loop-expected (w ∷ ws) s last calm rising within all_read =
      loop_expected w ws s last calm rising within (λ t n. stream_loop-expected ws t n calm.1)

-- What a subscriber reads of a task that was open when its snapshot was taken: the snapshot, and
-- then exactly the events that the store holds behind the snapshot's number when it is read last,
-- in their order, none missing and none twice, up to the first event that closes the stream. This
-- is so whatever others write between the reads, while reads succeed, the broker lives and nothing
-- is cleaned up, for a snapshot number within the counter of a store whose log rises to it.
pub stream_complete :
    (env : Environment) (display : StorageError → String) (tenant id : String) (snapshot : Task)
    (sequence : ℕ) (w : Wake) (ws : List Wake) (s : Store)
    → closes (task_state snapshot) ≡ false
    → AreCalm (w ∷ ws)
    → IsWellFormed s
    → sequence ≤ counter_of s (key tenant id)
    → task_event_stream env display tenant id snapshot sequence (w ∷ ws) s
      ≡ ok (task snapshot)
        ∷ event_items (
            up_to_closing env
              (payloads (events_after (final_store env (w ∷ ws) s) (key tenant id) sequence)))
unfolding task_event_stream
stream_complete env display tenant id snapshot sequence w ws s going calm well within = rw going (
    ap (λ l. ok (task snapshot) ∷ l)
      (loop_expected env display tenant id w ws s sequence calm (well.logged (key tenant id)) within
        (λ t n. stream_loop-expected env display tenant id ws t n calm.1)))
