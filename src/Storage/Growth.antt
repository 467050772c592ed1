-- ===== src/Storage/Growth.antt =====
-- How the event logs grow (crates/turul-a2a/src/storage/in_memory.rs): but for the retention
-- cleanup, every call leaves the log of a task in place and adds events behind it, numbered from
-- above its counter.
use mathlib.Core.List.{append-nil, append_assoc}
use turul_a2a.Prelude.{
  ℕ, ◌+◌, ◌≤◌, ◌≡◌, refl, ap, String, Bool, Option, List, [], ◌∷◌, ◌++◌, arith, length, All,
  Bool-cases, Result-cases, inl, inr, sym, ◌∙◌, subst, if◌then◌else◌,
}
use turul_a2a.Task.{Task, TaskStatus}
use turul_a2a.Streaming.{StreamEvent}
use turul_a2a.Storage.State.{
  Store, StoredTask, TaskKey, task_key, task_key_eq, task_key_eq_iff, EventLog,
}
use turul_a2a.Storage.Clock.{Environment, stamp_task}
use turul_a2a.Storage.Action.{key}
use turul_a2a.Storage.Tasks.{check_update}
use turul_a2a.Storage.Events.{append_events, counter_of, log_of, append_event}
use turul_a2a.Storage.Atomic.{
  commit, open_task, cas_error, create_task_with_events, update_task_status_with_events,
  update_task_with_events,
}
use turul_a2a.Prelude.{ℤ}
use turul_a2a.Dict.{get-insert}
use turul_a2a.Storage.Tasks.{
  update_task_status, store_message, store_artifact, set_cancel_requested, create_task, update_task,
  delete_task,
}
use turul_a2a.Storage.Supervisor
use turul_a2a.Storage.Supervisor.{supervisor_renew_executor_leases, renew_lease}
use turul_a2a.Storage.Claims.{
  claim_delivery, record_attempt_started, record_delivery_outcome, record_pending_dispatch,
  delete_pending_dispatch,
}
use turul_a2a.Storage.Configs.{delete_config, try_config, put_config}
use turul_a2a.Storage.Requests.{
  Update, Record, Request, perform_update, perform_record, perform, serve, set_state, add_message,
  add_artifact, request_cancel, commit_state, commit_task, log_event, update, keep_record, create,
  create_with_events, replace, delete, cleanup,
}
use turul_a2a.Storage.Reads.{log_of-commit, counter_of-commit}
use turul_a2a.Storage.Sequence.{Ascending, entries_from, append_loop-log, append_loop-counter}

-- The log of a key in `t` is that of `s` with a tail numbered from above the counter of `s`.
pub record IsGrown (s t : Store) (k : TaskKey) : Type 0 where
  pub tail : EventLog
  pub grown : log_of t k ≡ log_of s k ++ tail
  pub rising : Ascending (counter_of s k) (counter_of t k) tail

Ascending-down :
    (lo mid hi : ℕ) (ys : EventLog) → lo ≤ mid → Ascending mid hi ys → Ascending lo hi ys
Ascending-down lo mid hi [] h g = omega (arith, h, g)
Ascending-down lo mid hi (y ∷ ys) h g = (omega (arith, h, g.0), g.1)

pub Ascending-append :
    (lo mid hi : ℕ) (xs ys : EventLog)
    → Ascending lo mid xs
    → Ascending mid hi ys
    → Ascending lo hi (xs ++ ys)
Ascending-append lo mid hi [] ys h g = Ascending-down lo mid hi ys h g
Ascending-append lo mid hi (x ∷ xs) ys h g = (h.0, Ascending-append x.sequence mid hi xs ys h.1 g)

entries-Ascending :
    (now n : ℕ) (events : List StreamEvent)
    → Ascending n (n + length events) (entries_from now n events)
entries-Ascending now n [] = omega arith
entries-Ascending now n (e ∷ es) = (
  omega arith,
  subst (λ hi. Ascending (n + 1) hi (entries_from now (n + 1) es)) (omega arith)
      (entries-Ascending now (n + 1) es),
)

pub same_log :
    (s t : Store) (k : TaskKey)
    → log_of t k ≡ log_of s k
    → counter_of t k ≡ counter_of s k
    → IsGrown s t k
same_log s t k h g = record {
  tail = [];
  grown = h ∙ sym (append-nil (log_of s k));
  rising = omega (arith, g);
}

pub IsGrown-trans : (s t u : Store) (k : TaskKey) → IsGrown s t k → IsGrown t u k → IsGrown s u k
IsGrown-trans s t u k a b = record {
  tail = a.tail ++ b.tail;
  grown = b.grown ∙ ap (λ l. l ++ b.tail) a.grown ∙ append_assoc (log_of s k) a.tail b.tail;
  rising = Ascending-append _ _ _ a.tail b.tail a.rising b.rising;
}

commit-IsGrown :
    (marked : StreamEvent → Bool) (now : ℕ) (owner : String) (j k : TaskKey)
    (events : List StreamEvent) (s : Store) (row : StoredTask)
    → IsGrown s (commit j (append_events marked now owner j events s) row s) k
unfolding append_events
commit-IsGrown marked now owner j k events s row = elim (Bool-cases (task_key_eq j k)) [
  | inl same ↦
      subst (IsGrown s (commit j (append_events marked now owner j events s) row s))
        ((task_key_eq_iff j k).0 same)
        (record {
          tail = entries_from now (counter_of s j) events;
          grown =
              log_of-commit s j j (append_events marked now owner j events s) row
              ∙ rw ((task_key_eq_iff j j).1 refl) (append_loop-log marked now owner j events _);
          rising =
              subst (λ hi. Ascending (counter_of s j) hi (entries_from now (counter_of s j) events))
                (sym (
                  counter_of-commit s j j (append_events marked now owner j events s) row
                  ∙ rw ((task_key_eq_iff j j).1 refl)
                      (append_loop-counter marked now owner j events _)))
                (entries-Ascending now (counter_of s j) events);
        })
  | inr apart ↦
      same_log s _ k
        (log_of-commit s j k (append_events marked now owner j events s) row ∙ rw apart refl)
        (counter_of-commit s j k (append_events marked now owner j events s) row ∙ rw apart refl)
]

-- A call that leaves the logs and the counters alone.
same_logs :
    (s t : Store) (k : TaskKey)
    → t.events ≡ s.events
    → t.event_counters ≡ s.event_counters
    → IsGrown s t k
unfolding log_of counter_of
same_logs s t k e c = same_log s t k (ground arith) (ground arith)

module _ (s : Store) (j k : TaskKey) (now : ℕ) (event : StreamEvent) where
  log_of-append : log_of (append_event now j.tenant j.task_id event s).1 k ≡ (
      if task_key_eq j k
      then log_of s j ++ entries_from now (counter_of s j) (event ∷ [])
      else log_of s k)
  unfolding log_of append_event
  log_of-append = ground (
    arith,
    get-insert s.events j k (log_of s j ++ entries_from now (counter_of s j) (event ∷ [])),
  )

  counter_of-append :
      counter_of (append_event now j.tenant j.task_id event s).1 k
      ≡ (if task_key_eq j k then counter_of s j + 1 else counter_of s k)
  unfolding counter_of append_event
  counter_of-append = ground (arith, get-insert s.event_counters j k (counter_of s j + 1))

module _ (s : Store) (k : TaskKey) where
  update_task_status_with_events-IsGrown :
      (env : Environment) (now : ℕ) (tenant id owner : String) (status : TaskStatus)
      (events : List StreamEvent)
      → IsGrown s (update_task_status_with_events env now tenant id owner status events s).1 k
  unfolding update_task_status_with_events
  update_task_status_with_events-IsGrown env now tenant id owner status events =
      elim (Result-cases (check_update cas_error tenant id owner status s)) [
        | inl (e, r) ↦ rw r (same_logs s s k refl refl)
        | inr (c, r) ↦ rw r (commit-IsGrown _ now owner (key tenant id) k _ s _)
      ]

  update_task_with_events-IsGrown :
      (env : Environment) (now : ℕ) (tenant owner : String) (task : Task)
      (events : List StreamEvent)
      → IsGrown s (update_task_with_events env now tenant owner task events s).1 k
  unfolding update_task_with_events
  update_task_with_events-IsGrown env now tenant owner task events =
      elim (Result-cases (open_task tenant (stamp_task now task).id owner s)) [
        | inl (e, r) ↦ rw r (same_logs s s k refl refl)
        | inr (old, r) ↦ rw r (commit-IsGrown _ now owner _ k _ s _)
      ]

  create_task_with_events-IsGrown :
      (env : Environment) (now : ℕ) (tenant owner : String) (task : Task)
      (events : List StreamEvent)
      → IsGrown s (create_task_with_events env now tenant owner task events s).1 k
  unfolding create_task_with_events
  create_task_with_events-IsGrown env now tenant owner task events =
      commit-IsGrown _ now owner _ k _ s _

  append_event-IsGrown :
      (now : ℕ) (tenant id : String) (event : StreamEvent)
      → IsGrown s (append_event now tenant id event s).1 k
  append_event-IsGrown now tenant id event =
      let j = key tenant id in
      let log = log_of s j ++ entries_from now (counter_of s j) (event ∷ []) in
      elim (Bool-cases (task_key_eq j k)) [
        | inl same ↦
            subst (IsGrown s (append_event now tenant id event s).1) ((task_key_eq_iff j k).0 same)
              (record {
                tail = entries_from now (counter_of s j) (event ∷ []);
                grown = log_of-append s j j now event ∙ rw ((task_key_eq_iff j j).1 refl) refl;
                rising =
                    subst
                      (λ hi.
                        Ascending (counter_of s j) hi
                          (entries_from now (counter_of s j) (event ∷ [])))
                      (sym (
                        counter_of-append s j j now event ∙ rw ((task_key_eq_iff j j).1 refl) refl))
                      (entries-Ascending now (counter_of s j) (event ∷ []));
              })
        | inr apart ↦
            same_log s _ k (log_of-append s j k now event ∙ rw apart refl)
              (counter_of-append s j k now event ∙ rw apart refl)
      ]

renew_lease-logs :
    (tenant : String) (expires : Option ℤ) (id : String) (s : Store)
    → ((renew_lease tenant expires id s).events ≡ s.events)
      × ((renew_lease tenant expires id s).event_counters ≡ s.event_counters)
unfolding renew_lease
renew_lease-logs tenant expires id s = (ground arith, ground arith)

renew_leases-logs :
    (tenant : String) (expires : Option ℤ) (ids : List String) (s : Store)
    → ((Supervisor.renew_leases tenant expires ids s).events ≡ s.events)
      × ((Supervisor.renew_leases tenant expires ids s).event_counters ≡ s.event_counters)
unfolding Supervisor.renew_leases
renew_leases-logs tenant expires [] s = (refl, refl)
renew_leases-logs tenant expires (id ∷ ids) s =
    let rest = renew_leases-logs tenant expires ids (renew_lease tenant expires id s) in
    let first = renew_lease-logs tenant expires id s in (rest.0 ∙ first.0, rest.1 ∙ first.1)

perform_update-IsGrown :
    (env : Environment) (u : Update) (s : Store) (k : TaskKey)
    → IsGrown s (perform_update env u s).store k
unfolding perform_update supervisor_renew_executor_leases update_task_status store_message
    store_artifact set_cancel_requested
perform_update-IsGrown env (commit_state now tenant id owner status events) s k =
    update_task_status_with_events-IsGrown s k env now tenant id owner status events
perform_update-IsGrown env (commit_task now tenant owner task events) s k =
    update_task_with_events-IsGrown s k env now tenant owner task events
perform_update-IsGrown env (Update.renew_leases tenant ids expires) s k =
    let same = renew_leases-logs tenant expires ids s in same_logs s _ k same.0 same.1
perform_update-IsGrown env (set_state now tenant id owner status) s k =
    same_logs s _ k (ground arith) (ground arith)
perform_update-IsGrown env (add_message tenant id owner m) s k =
    same_logs s _ k (ground arith) (ground arith)
perform_update-IsGrown env (add_artifact now tenant id owner a append last) s k =
    same_logs s _ k (ground arith) (ground arith)
perform_update-IsGrown env (request_cancel tenant id owner) s k =
    same_logs s _ k (ground arith) (ground arith)

perform_record-IsGrown :
    (env : Environment) (r : Record) (s : Store) (k : TaskKey)
    → IsGrown s (perform_record env r s).store k
unfolding perform_record delete_config claim_delivery record_attempt_started record_delivery_outcome
    record_pending_dispatch delete_pending_dispatch try_config put_config
perform_record-IsGrown env (log_event now tenant id event) s k =
    append_event-IsGrown s k now tenant id event
perform_record-IsGrown env _ s k = same_logs s _ k (ground arith) (ground arith)

-- No retention cleanup.
abbrev pub IsAppending : Request → Type 0
IsAppending (cleanup _) = ⊥
IsAppending _ = Unit

perform-IsGrown :
    (env : Environment) (r : Request) (s : Store) (k : TaskKey)
    → IsAppending r
    → IsGrown s (perform env r s).store k
unfolding perform create_task update_task delete_task
perform-IsGrown env (update u) s k h = perform_update-IsGrown env u s k
perform-IsGrown env (keep_record r) s k h = perform_record-IsGrown env r s k
perform-IsGrown env (create now tenant owner task) s k h = same_logs s _ k refl refl
perform-IsGrown env (create_with_events now tenant owner task events) s k h =
    create_task_with_events-IsGrown s k env now tenant owner task events
perform-IsGrown env (replace now tenant owner task) s k h =
    same_logs s _ k (ground arith) (ground arith)
perform-IsGrown env (delete tenant id owner) s k h = same_logs s _ k (ground arith) (ground arith)
perform-IsGrown env (cleanup now) s k h = elim h [ ]

pub serve-IsGrown :
    (env : Environment) (rs : List Request) (s : Store) (k : TaskKey)
    → All IsAppending rs
    → IsGrown s (serve env rs s) k
unfolding serve
serve-IsGrown env [] s k h = same_log s s k refl refl
serve-IsGrown env (r ∷ rs) s k h =
    IsGrown-trans s _ _ k (perform-IsGrown env r s k h.0) (serve-IsGrown env rs _ k h.1)
