-- ===== src/Server/Handle.antt =====
-- The handle of a task in flight and the registry of such handles
-- (crates/turul-a2a/src/server/in_flight.rs). The tokio channel, token and join handle are what
-- they show: what was sent, whether the token is cancelled, whether the task was aborted.
use turul_a2a.Prelude.{
  ℕ, zero, suc, Bool, true, false, Option, none, some, Result, ok, err, ◌==◌, if◌then◌else◌,
}
use turul_a2a.Task.{Task}
use turul_a2a.Dict.{Dict, get, insert, remove}
use turul_a2a.Storage.State.{TaskKey, task_key}

pub record Handle : Type 0 where
  pub cancelled : Bool  -- of `cancellation`
  pub sender : Bool  -- whether `yielded_tx` still holds its sender
  pub sent : Option Task  -- what the waiter of the one-shot channel receives
  pub yielded_fired : Bool
  pub abort_armed : Bool
  pub timers : ℕ  -- grace periods that are running
  pub aborted : Bool
  pub terminal_committed : Bool
  pub client_held : Bool
  pub last_progress : ℕ

-- `InFlightHandle::new`
unfoldable pub handle_new : ℕ → Handle
handle_new now = record {
  cancelled = false;
  sender = true;
  sent = none;
  yielded_fired = false;
  abort_armed = false;
  timers = 0;
  aborted = false;
  terminal_committed = false;
  client_held = false;
  last_progress = now;
}

-- `record_progress`
abbrev pub record_progress : ℕ → Handle → Handle
record_progress now h = record h { last_progress = now }

-- `set_client_held`
abbrev pub set_client_held : Bool → Handle → Handle
set_client_held held h = record h { client_held = held }

-- `mark_terminal_committed`
abbrev pub mark_terminal_committed : Handle → Handle
mark_terminal_committed h = record h { terminal_committed = true }

-- `fire_yielded`: the first caller sends, and is told so.
unfoldable pub fire_yielded : Task → Handle → Bool × Handle
fire_yielded task h = if h.yielded_fired then (false, h) else (
  true,
  record h { yielded_fired = true; sender = false; sent = if h.sender then some task else h.sent },
)

-- `cancel_then_abort_after`, up to the spawn of the grace period.
unfoldable pub cancel_then_abort_after : Handle → Handle
cancel_then_abort_after h =
    if h.abort_armed
    then record h { cancelled = true }
    else record h { cancelled = true; abort_armed = true; timers = suc h.timers }

-- The end of a grace period: the spawned task after its sleep.
unfoldable pub grace_ends : Handle → Handle
grace_ends h = elim h.timers [
  | zero ↦ h
  | suc n ↦
      if h.terminal_committed
      then record h { timers = n }
      else record h { timers = n; aborted = true }
]

-- `InFlightRegistry`; a handle is the address that `Arc::ptr_eq` compares.
abbrev pub Registry : Type 0
Registry = Dict TaskKey ℕ

-- `try_insert`: an occupied key is a collision with the handle that is there.
unfoldable pub try_insert : TaskKey → ℕ → Registry → Result ℕ (Unit {0}) × Registry
try_insert k handle map = elim (get map k) [
  | some existing ↦ (err existing, map)
  | none ↦ (ok tt, insert map k handle)
]

-- `remove_if_current`
unfoldable pub remove_if_current : TaskKey → ℕ → Registry → Bool × Registry
remove_if_current k handle map = elim (get map k) [
  | some existing ↦ if existing == handle then (true, remove map k) else (false, map)
  | none ↦ (false, map)
]
