-- ===== src/Storage/Clock.antt =====
-- Times in the storage: `now_iso` and `epoch_secs` (crates/turul-a2a/src/storage/in_memory.rs),
-- `stamp_status`, the sort key and the page cursor (storage/status_time.rs). What chrono and the
-- generated JSON code do is the `Environment`.
use turul_a2a.Prelude.{
  ℕ, zero, suc, ◌+◌, ◌-◌, ◌*◌, ◌/◌, ◌%◌, ◌^◌, ℤ, pos, String, Bool, Option, none, some, List, [],
  ◌∷◌, ◌++◌, map, ltb, leb, ◌==◌, ◌&&◌, if◌then◌else◌, length,
}
use turul_a2a.Message.{Json, object, or_insert, Timestamp, DateTime, timestamp_of, date_time_of}
use turul_a2a.Task.{Task, TaskStatus}
use turul_a2a.Streaming.{StreamEvent, status_update, artifact_update}

-- The behaviour of third-party and generated code that the storage relies on.
pub record Environment : Type 0 where
  pub in_range : ℤ → ℕ → Bool  -- `DateTime::from_timestamp(secs, nanos).is_some()`
  pub format_key : DateTime → String  -- `at.format(SORT_KEY_FORMAT).to_string()`
  pub parse_key : String → Option DateTime  -- `NaiveDateTime::parse_from_str(key, SORT_KEY_FORMAT)`
  pub of_micros : ℤ → Option DateTime  -- `DateTime::from_timestamp_micros`
  pub min_utc : DateTime  -- `DateTime::<Utc>::MIN_UTC`
  pub decode_status : Json → Option TaskStatus  -- `pb::TaskStatus::deserialize`
  pub show_i32 : ℤ → String  -- `{n}` of an `i32`
  pub timestamp_value : Timestamp → Json  -- `serde_json::to_value(ts).unwrap_or_default()`

-- The decimal digits of a number, most significant first; more fuel than digits is enough.
unfoldable pub digits : ℕ → ℕ → List ℕ
digits zero n = []
digits (suc fuel) n =
    let front = digits fuel (n / 10) in
    if ltb n 10 then (b'0' + n) ∷ [] else front ++ (b'0' + n % 10) ∷ []

-- Zeros on the left up to a width.
unfoldable pub pad_zeros : ℕ → List ℕ → List ℕ
pad_zeros zero text = text
pad_zeros (suc n) text = b'0' ∷ pad_zeros n text

-- `{n:0width}` of a `u64`, whose value has at most 20 digits.
unfoldable pub format_padded : ℕ → ℕ → List ℕ
unfolding digits pad_zeros
format_padded width n = let text = digits 20 n in pad_zeros (width - length text) text

-- `now_iso` at `now` nanoseconds since the epoch: `{secs:010}.{millis:03}`.
unfoldable pub now_iso : ℕ → List ℕ
unfolding format_padded
now_iso now =
    format_padded 10 (now / 1_000_000_000)
    ++ b'.' ∷ format_padded 3 (now % 1_000_000_000 / 1_000_000)

-- `ts.split('.').next()`
unfoldable pub before_dot : List ℕ → List ℕ
before_dot [] = []
before_dot (c ∷ text) = let rest = before_dot text in if c == b'.' then [] else c ∷ rest

-- The digits of `parse::<u64>`, from the left; `none` on a byte that is no digit or past 2^64 - 1.
unfoldable pub parse_digits : ℕ → List ℕ → Option ℕ
parse_digits acc [] = some acc
parse_digits acc (c ∷ text) =
    let rest = parse_digits (acc * 10 + (c - b'0')) text in
    if leb b'0' c && leb c b'9' && ltb (acc * 10 + (c - b'0')) (2 ^ 64) then rest else none

-- `text.parse::<u64>().ok()`: an optional `+`, then at least one digit.
unfoldable pub parse_u64 : List ℕ → Option ℕ
unfolding parse_digits
parse_u64 [] = none
parse_u64 (c ∷ []) = if c == b'+' then none else parse_digits 0 (c ∷ [])
parse_u64 (c ∷ d ∷ text) =
    if c == b'+' then parse_digits 0 (d ∷ text) else parse_digits 0 (c ∷ d ∷ text)

-- `epoch_secs`
unfoldable pub epoch_secs : List ℕ → Option ℕ
unfolding before_dot parse_u64
epoch_secs ts = parse_u64 (before_dot ts)

-- `Utc::now().trunc_subsecs(6)` at `now` nanoseconds since the epoch.
unfoldable pub utc_micros : ℕ → DateTime
utc_micros now = record {
  seconds = pos (now / 1_000_000_000);
  nanos = now % 1_000_000_000 / 1000 * 1000;
}

-- The `timestamp` entry of a status event's JSON, where the status is an object.
unfoldable pub stamp_event : Json → StreamEvent → StreamEvent
unfolding or_insert
stamp_event ts_json (status_update u) = elim u.status [
  | object fields ↦
      status_update (record u { status = object (or_insert "timestamp" ts_json fields) })
  | _ ↦ status_update u
]
stamp_event ts_json (artifact_update u) = artifact_update u

-- `status.timestamp.get_or_insert_with(|| Timestamp::from(now))`
unfoldable pub stamped : ℕ → TaskStatus → Timestamp
unfolding utc_micros timestamp_of
stamped now status = elim status.timestamp [ none ↦ timestamp_of (utc_micros now) | some ts ↦ ts ]

-- `stamp_status`: the task and the events as the call leaves them.
unfoldable pub stamp_task : ℕ → Task → Task
unfolding stamped
stamp_task now task = elim task.status [
  | none ↦ task
  | some status ↦ record task {
    status = some (record status { timestamp = some (stamped now status) });
  }
]

unfoldable pub stamp_events : Environment → ℕ → Task → List StreamEvent → List StreamEvent
unfolding stamped stamp_event
stamp_events env now task events = elim task.status [
  | none ↦ events
  | some status ↦ map (stamp_event (env.timestamp_value (stamped now status))) events
]

-- `key_of_micros`
unfoldable pub key_of_micros : Environment → ℤ → String
key_of_micros env micros = elim (env.of_micros micros) [
  | none ↦ env.format_key env.min_utc
  | some at ↦ env.format_key at
]

-- The sort key that a status timestamp gives.
unfoldable pub timestamp_key : Environment → Option Timestamp → String
unfolding date_time_of
timestamp_key env none = ""
timestamp_key env (some ts) = elim (date_time_of env.in_range ts) [
  | none ↦ ""
  | some at ↦ env.format_key at
]

-- `sort_key`
unfoldable pub sort_key : Environment → Task → String
unfolding timestamp_key
sort_key env task = elim task.status [
  | none ↦ ""
  | some status ↦ timestamp_key env status.timestamp
]
