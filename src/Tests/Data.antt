-- ===== src/Tests/Data.antt =====
-- An environment, a small store and the calls that the tests make.
use turul_a2a.Prelude.{ℕ, pos, true, false, Option, none, some, [], ◌∷◌}
use turul_a2a.Message.{Json, string, object, end}
use turul_a2a.Task.{Task, TaskStatus}
use turul_a2a.Streaming.{StreamEvent, status_update}
use turul_a2a.Storage.State.{Store, StoredTask, TaskKey, PushDeliveryKey, new}
use turul_a2a.Storage.Clock.{Environment}
use turul_a2a.Storage.Action.{key}

-- A status whose JSON is its state's name reads as a finished task; every key is one text.
abbrev pub decode : Json → Option TaskStatus
decode (object _) = some (record { state = pos 3; message = none; timestamp = none })
decode _ = none

abbrev pub env : Environment
env = record {
  in_range = λ _ _. true;
  format_key = λ _. "2023-11-14T22:13:20.000005Z";
  parse_key = λ _. some (record { seconds = pos 1_700_000_000; nanos = 5000 });
  of_micros = λ _. none;
  min_utc = record { seconds = pos 0; nanos = 0 };
  decode_status = decode;
  show_i32 = λ _. "n";
  timestamp_value = λ _. string "now";
}

abbrev pub working : TaskStatus
working = record { state = pos 2; message = none; timestamp = none }

abbrev pub completed : TaskStatus
completed = record { state = pos 3; message = none; timestamp = none }

abbrev pub canceled : TaskStatus
canceled = record { state = pos 5; message = none; timestamp = none }

abbrev pub task : TaskStatus → Task
task status = record {
  id = "task-1";
  context_id = "ctx";
  status = some status;
  artifacts = [];
  history = [];
  metadata = none;
}

abbrev pub finished : StreamEvent
finished = status_update (record { task_id = "task-1"; context_id = "ctx"; status = object end })

-- 2023-11-14T22:13:20Z, in nanoseconds.
abbrev pub now : ℕ
now = 1_700_000_000_000_000_000

abbrev pub k : TaskKey
k = key "acme" "task-1"

abbrev pub delivery : PushDeliveryKey
delivery = record { tenant = "acme"; task_id = "task-1"; event_sequence = 2; config_id = "hook" }

abbrev pub row : TaskStatus → StoredTask
row status = record {
  tenant = "acme";
  owner = "alice";
  task = task status;
  updated_at = [];
  cancel_requested = false;
  lease_expires_at = none;
  latest_event_sequence = 0;
}

-- A store that holds one task.
abbrev pub store : TaskStatus → Store
store status = record new { tasks = record { entries = (k, row status) ∷ [] } }
