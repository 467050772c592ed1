-- ===== src/Streaming.antt =====
-- The persisted events of a task: crates/turul-a2a/src/streaming/mod.rs.
use turul_a2a.Prelude.{String, Bool, true, false, Option, none, some, to_option, and_then}
use turul_a2a.TaskState.{TaskState, is_terminal}
use turul_a2a.Message.{Json}
use turul_a2a.Task.{TaskStatus, status_try_from, status_state}

pub record StatusUpdatePayload : Type 0 where
  pub task_id : String
  pub context_id : String
  pub status : Json

pub record ArtifactUpdatePayload : Type 0 where
  pub task_id : String
  pub context_id : String
  pub artifact : Json
  pub append : Bool
  pub last_chunk : Bool

pub data StreamEvent : Type 0 where
  status_update : StatusUpdatePayload → StreamEvent
  artifact_update : ArtifactUpdatePayload → StreamEvent

-- `StreamEvent::task_state`; `decode` stands for the generated JSON decoder of `pb::TaskStatus`.
unfoldable pub event_state : (Json → Option TaskStatus) → StreamEvent → Option TaskState
unfolding status_try_from status_state
event_state decode (status_update u) = elim (decode u.status) [
  | none ↦ none
  | some status ↦ to_option (and_then (status_try_from status) status_state)
]
event_state decode (artifact_update _) = none

-- `StreamEvent::is_terminal`
unfoldable pub event_is_terminal : (Json → Option TaskStatus) → StreamEvent → Bool
unfolding event_state is_terminal
event_is_terminal decode event = elim (event_state decode event) [
  | none ↦ false
  | some s ↦ is_terminal s
]

-- `matches!(event, StreamEvent::StatusUpdate { .. })`
abbrev pub is_status_update : StreamEvent → Bool
is_status_update (status_update _) = true
is_status_update (artifact_update _) = false
