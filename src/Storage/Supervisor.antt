-- ===== src/Storage/Supervisor.antt =====
-- `impl A2aCancellationSupervisor for InMemoryA2aStorage`
-- (crates/turul-a2a/src/storage/in_memory.rs): the supervisor's view, which has no owner.
use turul_a2a.Prelude.{
  ℕ, ℤ, pos, negsuc, String, Bool, true, false, Option, none, some, List, [], ◌∷◌, map, keep, ltb,
  take, not, ◌&&◌,
}
use turul_a2a.Prelude.Order.{str_lt}
use turul_a2a.TaskState.{TaskState, is_terminal, contains, executor_held_states, client_held_states}
use turul_a2a.Task.{task_state}
use turul_a2a.Dict.{get, insert}
use turul_a2a.Storage.State.{Store, StoredTask, TaskKey, task_key}
use turul_a2a.Storage.Clock.{Environment, key_of_micros, sort_key}
use turul_a2a.Storage.Action.{Action, reads, writes, key}

-- `a < b` of `i64`
unfoldable pub int_lt : ℤ → ℤ → Bool
int_lt (pos a) (pos b) = ltb a b
int_lt (pos a) (negsuc b) = false
int_lt (negsuc a) (pos b) = true
int_lt (negsuc a) (negsuc b) = ltb b a

-- Whether the row's task has a terminal state; a state that does not decode is not terminal.
unfoldable pub row_terminal : StoredTask → Bool
unfolding is_terminal
row_terminal row = elim (task_state row.task) [ none ↦ false | some s ↦ is_terminal s ]

-- Whether the row's task has a state of the list.
unfoldable pub row_in : List TaskState → StoredTask → Bool
unfolding contains
row_in states row = elim (task_state row.task) [ none ↦ false | some s ↦ contains states s ]

-- A marker counts as long as the task is not terminal.
unfoldable pub cancel_pending : Option StoredTask → Bool
unfolding row_terminal
cancel_pending none = false
cancel_pending (some row) = row.cancel_requested && not (row_terminal row)

unfoldable pub supervisor_get_cancel_requested : String → String → Action Bool
unfolding cancel_pending
supervisor_get_cancel_requested tenant task_id =
    reads (λ s. cancel_pending (get s.tasks (key tenant task_id)))

unfoldable pub supervisor_list_cancel_requested : String → List String → Action (List String)
unfolding cancel_pending
supervisor_list_cancel_requested tenant task_ids =
    reads (λ s. keep (λ task_id. cancel_pending (get s.tasks (key tenant task_id))) task_ids)

-- One lease: a missing row is passed over.
unfoldable pub renew_lease : String → Option ℤ → String → Store → Store
renew_lease tenant expires task_id s = elim (get s.tasks (key tenant task_id)) [
  | none ↦ s
  | some row ↦ record s {
    tasks = insert s.tasks (key tenant task_id) (record row { lease_expires_at = expires });
  }
]

unfoldable pub renew_leases : String → Option ℤ → List String → Store → Store
unfolding renew_lease
renew_leases tenant expires [] s = s
renew_leases tenant expires (task_id ∷ rest) s =
    renew_leases tenant expires rest (renew_lease tenant expires task_id s)

unfoldable pub supervisor_renew_executor_leases :
    String → List String → Option ℤ → Action (Unit {0})
unfolding renew_leases
supervisor_renew_executor_leases tenant task_ids expires =
    writes (renew_leases tenant expires task_ids)

pub record SupervisedTask : Type 0 where
  pub tenant : String
  pub task_id : String
  pub owner : String
  pub context_id : String

abbrev pub supervised : TaskKey × StoredTask → SupervisedTask
supervised entry = record {
  tenant = (entry.1).tenant;
  task_id = ((entry.1).task).id;
  owner = (entry.1).owner;
  context_id = ((entry.1).task).context_id;
}

-- A lease in the past on a task that an executor holds.
unfoldable pub lease_expired : ℤ → TaskKey × StoredTask → Bool
unfolding int_lt row_in
lease_expired now_micros entry =
    (elim (entry.1).lease_expires_at [ none ↦ false | some l ↦ int_lt l now_micros ])
    && row_in executor_held_states (entry.1)

unfoldable pub supervisor_list_expired_executor_leases : ℤ → Action (List SupervisedTask)
unfolding lease_expired
supervisor_list_expired_executor_leases now_micros =
    reads (λ s. map supervised (keep (lease_expired now_micros) s.tasks.entries))

-- A task that the client holds, with a status older than the bound.
unfoldable pub client_idle : Environment → ℤ → TaskKey × StoredTask → Bool
unfolding row_in str_lt
client_idle env before entry =
    row_in client_held_states (entry.1)
    && str_lt (sort_key env (entry.1).task) (key_of_micros env before)

unfoldable pub supervisor_list_idle_client_held_tasks :
    Environment → ℤ → ℕ → Action (List SupervisedTask)
unfolding client_idle
supervisor_list_idle_client_held_tasks env before limit =
    reads (λ s. map supervised (take limit (keep (client_idle env before) s.tasks.entries)))
