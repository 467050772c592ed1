-- ===== src/Message.antt =====
-- The wire messages that a task carries: the proto messages of
-- crates/turul-a2a-proto/proto/a2a.proto, `serde_json::Value`, and the timestamp type of
-- crates/turul-a2a-proto/src/timestamp.rs.
use turul_a2a.Prelude.{
  ℕ, String, Bool, Option, none, some, List, ltb, ℤ, pos, negsuc, str_eq, if◌then◌else◌, ◌&&◌,
}

-- `serde_json::Value`; a number is kept as its text.
mutual
  pub data Json : Type 0 where
    null : Json
    bool : Bool → Json
    number : String → Json
    string : String → Json
    array : Items → Json
    object : Fields → Json

  pub data Items : Type 0 where
    nil : Items
    cons : Json → Items → Items

  pub data Fields : Type 0 where
    end : Fields
    field : String → Json → Fields → Fields

-- `obj.entry(key).or_insert(value)`: a present key keeps its value.
unfoldable pub or_insert : String → Json → Fields → Fields
or_insert key value end = field key value end
or_insert key value (field k v rest) =
    if str_eq k key then field k v rest else field k v (or_insert key value rest)

pub data Role : Type 0 where
  unspecified user agent : Role

-- The `oneof content` of a part.
pub data PartContent : Type 0 where
  text : String → PartContent
  raw : List ℕ → PartContent
  url : String → PartContent
  json : Json → PartContent

pub record Part : Type 0 where
  pub content : Option PartContent
  pub metadata : Option Fields
  pub filename : String
  pub media_type : String

pub record Message : Type 0 where
  pub message_id : String
  pub context_id : String
  pub task_id : String
  pub role : Role
  pub parts : List Part
  pub metadata : Option Fields
  pub extensions : List String
  pub reference_task_ids : List String

pub record Artifact : Type 0 where
  pub artifact_id : String
  pub name : String
  pub description : String
  pub parts : List Part
  pub metadata : Option Fields
  pub extensions : List String

-- `google.protobuf.Timestamp`
pub record Timestamp : Type 0 where
  pub seconds : ℤ
  pub nanos : ℤ

-- `chrono::DateTime<Utc>`, as seconds and nanoseconds since the Unix epoch.
pub record DateTime : Type 0 where
  pub seconds : ℤ
  pub nanos : ℕ

-- `From<DateTime<Utc>> for Timestamp`
unfoldable pub timestamp_of : DateTime → Timestamp
timestamp_of at = record { seconds = at.seconds; nanos = pos at.nanos }

-- `TryFrom<Timestamp> for DateTime<Utc>`; `in_range` stands for chrono's test of the instant.
unfoldable pub date_time_of : (ℤ → ℕ → Bool) → Timestamp → Option DateTime
date_time_of in_range ts = elim ts.nanos [
  | pos n ↦
      if ltb n 1_000_000_000 && in_range ts.seconds n
      then some (record { seconds = ts.seconds; nanos = n })
      else none
  | negsuc _ ↦ none
]
