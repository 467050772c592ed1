-- ===== src/Server/Subscription.antt =====
-- The stream that a subscriber reads (crates/turul-a2a/src/streaming/task_stream.rs), as long as it
-- keeps reading: one that goes away has received a beginning of it.
pub mod Reads
pub mod Complete
use turul_a2a.Prelude.{
  ℕ, String, Bool, true, false, Option, none, some, List, [], ◌∷◌, ◌++◌, map, Result, ok, err, ◌||◌,
  if◌then◌else◌,
}
use turul_a2a.TaskState.{TaskState, is_terminal, state_eq}
use turul_a2a.Task.{Task, task_state}
use turul_a2a.Streaming.{StreamEvent, event_state}
use turul_a2a.Errors.{A2aError, of_storage}
use turul_a2a.Storage.State.{Store, StorageError}
use turul_a2a.Storage.Clock.{Environment}
use turul_a2a.Storage.Events.{SequencedEvent, get_events_after}
use turul_a2a.Storage.Requests.{Request, serve}

pub data StreamItem : Type 0 where
  task : Task → StreamItem
  event : StreamEvent → StreamItem

unfoldable pub closes_stream : TaskState → Bool
unfolding is_terminal state_eq
closes_stream state = is_terminal state || state_eq state TaskState.input_required

-- `.is_some_and(closes_stream)`
unfoldable pub closes : Option TaskState → Bool
unfolding closes_stream
closes none = false
closes (some state) = closes_stream state

-- What happens from one read of the store to the next: the calls of others on the store, then a
-- read that may fail, then a wake-up or the end of the wait, or the end of the broker.
pub record Wake : Type 0 where
  pub others : List Request
  pub fault : Option StorageError
  pub is_last : Bool  -- the broker's channel is closed

-- What the inner loop sends, and the last number where the stream goes on.
pub record Sent : Type 0 where
  pub events : List StreamEvent
  pub last : Option ℕ

abbrev pub prefixed : StreamEvent → Sent → Sent
prefixed e s = record { events = e ∷ s.events; last = s.last }

-- The loop over the events of one read.
unfoldable pub send_events : Environment → List SequencedEvent → ℕ → Sent
unfolding closes event_state
send_events env [] last = record { events = []; last = some last }
send_events env (e ∷ es) last =
    let rest = send_events env es e.sequence in
    if closes (event_state env.decode_status e.event)
    then record { events = e.event ∷ []; last = none }
    else prefixed e.event rest

abbrev pub Item : Type 0
Item = Result A2aError StreamItem

abbrev pub event_items : List StreamEvent → List Item
event_items es = map (λ e. ok (event e)) es

-- The events of a read that succeeded.
abbrev pub events_of : Result StorageError (List SequencedEvent) → List SequencedEvent
events_of (ok es) = es
events_of (err _) = []

-- What one read adds, and what follows if it leaves the stream open.
unfoldable pub after_read : Bool → (ℕ → List Item) → Sent → List Item
after_read is_last next sent = elim sent.last [
  | none ↦ event_items sent.events
  | some n ↦ event_items sent.events ++ (if is_last then [] else next n)
]

-- The loop of the spawned task, over the reads that it makes.
unfoldable pub stream_loop :
    Environment → (StorageError → String) → String → String → List Wake → Store → ℕ → List Item
unfolding serve send_events get_events_after of_storage after_read
stream_loop env display tenant task_id [] s last = []
stream_loop env display tenant task_id (w ∷ ws) s last =
    let now = serve env w.others s in
    let sent = send_events env (events_of (get_events_after tenant task_id last now).0) last in
    let next = stream_loop env display tenant task_id ws now in
    elim w.fault [
      | some e ↦ err (of_storage display e) ∷ []
      | none ↦ after_read w.is_last next sent
    ]

-- `task_event_stream`
unfoldable pub task_event_stream :
    Environment
    → (StorageError → String)
    → String
    → String
    → Task
    → ℕ
    → List Wake
    → Store
    → List Item
unfolding closes task_state stream_loop
task_event_stream env display tenant task_id snapshot sequence wakes s =
    let rest = stream_loop env display tenant task_id wakes s sequence in
    ok (task snapshot) ∷ (if closes (task_state snapshot) then [] else rest)
