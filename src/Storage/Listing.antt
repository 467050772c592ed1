-- ===== src/Storage/Listing.antt =====
-- `list_tasks` of the in-memory backend (crates/turul-a2a/src/storage/in_memory.rs), its filter
-- (storage/filter.rs) and its page cursor (storage/status_time.rs).
use Prim.Native.Char.{code}
use Prim.Native.String.{◌++◌}
use turul_a2a.Prelude.{
  ℕ, ℤ, pos, negsuc, String, Bool, true, false, Option, none, some, List, [], ◌∷◌, map, keep, ltb,
  leb, ◌==◌, not, ◌&&◌, ◌||◌, length, take, Result, ok, err, and_then, str_eq, if◌then◌else◌,
}
use turul_a2a.Prelude.Order.{str_lt, str_le, sort_by, from_first}
use turul_a2a.TaskState.{TaskState, state_eq}
use turul_a2a.Message.{DateTime}
use turul_a2a.Task.{Task, task_state, task_try_from, trim_history}
use turul_a2a.Storage.State.{Store, StoredTask, TaskKey, StorageError, invalid_list_request}
use turul_a2a.Storage.Clock.{Environment, sort_key}
use turul_a2a.Storage.Action.{Action, ◌>>=◌, pure, lift, reads}

pub record TaskFilter : Type 0 where
  pub tenant : Option String
  pub owner : Option String
  pub context_id : Option String
  pub status : Option TaskState
  pub page_size : Option ℤ
  pub page_token : Option String
  pub history_length : Option ℤ
  pub status_timestamp_after : Option DateTime
  pub include_artifacts : Option Bool

abbrev bad_page_size : Environment → ℤ → StorageError
bad_page_size env n =
    invalid_list_request ("pageSize must be between 1 and 100 inclusive, got " ++ env.show_i32 n)

-- `resolved_page_size`
unfoldable pub resolved_page_size : Environment → Option ℤ → Result StorageError ℕ
resolved_page_size env none = ok 50
resolved_page_size env (some (negsuc n)) = err (bad_page_size env (negsuc n))
resolved_page_size env (some (pos n)) =
    if leb 1 n && leb n 100 then ok n else err (bad_page_size env (pos n))

-- A page cursor: the sort key and the id of the last task of the page before.
pub record Cursor : Type 0 where
  pub sort_key : String
  pub task_id : String

-- `encode_cursor`
unfoldable pub encode_cursor : String → String → String
encode_cursor key task_id = key ++ ("|" ++ task_id)

-- `token.split_once('|')`
unfoldable pub split_once : String → Option Cursor
split_once String.[] = none
split_once (String.◌∷◌ c s) =
    let rest = split_once s in
    if code c == b'|'
    then some (record { sort_key = ""; task_id = s })
    else elim rest [ none ↦ none | some r ↦ some (record r { sort_key = String.◌∷◌ c r.sort_key }) ]

-- `is_sort_key`: the text parses, and formats back to itself.
unfoldable pub is_sort_key : Environment → String → Bool
is_sort_key env key = elim (env.parse_key key) [
  | none ↦ false
  | some at ↦ str_eq (env.format_key at) key
]

-- The filter of `decode_cursor`.
unfoldable pub valid_cursor : Environment → Cursor → Bool
unfolding is_sort_key
valid_cursor env c =
    not (str_eq c.task_id "") && (str_eq c.sort_key "" || is_sort_key env c.sort_key)

abbrev bad_token : String → StorageError
bad_token token = invalid_list_request ("invalid pageToken: " ++ token)

-- `decode_cursor`
unfoldable pub decode_cursor : Environment → String → Result StorageError Cursor
unfolding split_once valid_cursor
decode_cursor env token = elim (split_once token) [
  | none ↦ err (bad_token token)
  | some c ↦ if valid_cursor env c then ok c else err (bad_token token)
]

-- A test that an unset field of the filter passes.
abbrev pub unset_or {ℓ} : {A : Type ℓ} → Option A → (A → Bool) → Bool
unset_or none test = true
unset_or (some a) test = test a

-- The closure of `.filter(|s| ..)`: a status that does not decode passes the status test.
unfoldable pub admits : Environment → TaskFilter → TaskKey × StoredTask → Bool
unfolding state_eq
admits env filter entry =
    let row = entry.1 in
    unset_or filter.tenant (λ t. str_eq row.tenant t)
    && (unset_or filter.owner (λ o. str_eq row.owner o)
        && (unset_or filter.context_id (λ c. str_eq (row.task).context_id c)
            && (unset_or filter.status
                  (λ status. unset_or (task_state row.task) (λ state. state_eq state status))
                && unset_or filter.status_timestamp_after
                    (λ after. str_le (env.format_key after) (sort_key env row.task)))))

-- A matching task under its sort key.
pub record Listed : Type 0 where
  pub key : String
  pub row : StoredTask

-- `(a.key, a.id) < (b.key, b.id)`
unfoldable pub before : Cursor → Cursor → Bool
unfolding str_lt
before a b =
    str_lt a.sort_key b.sort_key || (str_eq a.sort_key b.sort_key && str_lt a.task_id b.task_id)

abbrev pub cursor_of : Listed → Cursor
cursor_of l = record { sort_key = l.key; task_id = (l.row.task).id }

-- The matching tasks, the latest status first, then by descending id.
unfoldable pub listing : Environment → TaskFilter → Store → List Listed
unfolding admits before sort_by
listing env filter s =
    sort_by (λ a b. not (before (cursor_of a) (cursor_of b)))
      (map
        (λ (entry : TaskKey × StoredTask). record {
          key = sort_key env (entry.1).task;
          row = entry.1;
        })
        (keep (admits env filter) s.tasks.entries))

-- `strip_artifacts`: a task that does not convert back keeps its artifacts.
unfoldable pub strip_artifacts : Bool → Task → Task
unfolding task_try_from
strip_artifacts true task = task
strip_artifacts false task = elim (task_try_from (record task { artifacts = [] })) [
  | ok t ↦ t
  | err _ ↦ task
]

pub record TaskListPage : Type 0 where
  pub tasks : List Task
  pub next_page_token : String
  pub page_size : ℕ
  pub total_size : ℕ

abbrev pub last_cursor : List Listed → String
last_cursor [] = ""
last_cursor (l ∷ []) = encode_cursor l.key (l.row.task).id
last_cursor (l ∷ m ∷ rest) = last_cursor (m ∷ rest)

-- The tasks from the first that sorts after the cursor.
unfoldable pub after_cursor : Option Cursor → List Listed → List Listed
unfolding before from_first
after_cursor none sorted = sorted
after_cursor (some c) sorted = from_first (λ l. before (cursor_of l) c) sorted

abbrev pub include_or_not : Option Bool → Bool
include_or_not none = false
include_or_not (some b) = b

-- The page that starts at `rest` of the sorted list.
unfoldable pub task_page : TaskFilter → ℕ → List Listed → List Listed → TaskListPage
unfolding strip_artifacts
task_page filter page_size sorted rest =
    let page = take page_size rest in
    record {
      tasks =
          map
            (λ (l : Listed).
              strip_artifacts (include_or_not filter.include_artifacts)
                (trim_history l.row.task filter.history_length))
            page;
      next_page_token = if ltb page_size (length rest) then last_cursor page else "";
      page_size = page_size;
      total_size = length sorted;
    }

-- `.as_deref().map(decode_cursor).transpose()`
unfoldable pub decoded_token : Environment → Option String → Result StorageError (Option Cursor)
unfolding decode_cursor
decoded_token env none = ok none
decoded_token env (some token) = and_then (decode_cursor env token) (λ c. ok (some c))

unfoldable pub list_tasks : Environment → TaskFilter → Action TaskListPage
unfolding resolved_page_size decoded_token listing after_cursor task_page
list_tasks env filter = do
  page_size ← lift (resolved_page_size env filter.page_size)
  cursor ← lift (decoded_token env filter.page_token)
  sorted ← reads (listing env filter)
  pure (task_page filter page_size sorted (after_cursor cursor sorted))
