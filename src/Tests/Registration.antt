-- ===== src/Tests/Registration.antt =====
-- The registration theorem while another call commits an event, and the marks of a commit.
use turul_a2a.Prelude.{none, [], ◌∷◌, ◌⊎◌, true}
use turul_a2a.Task.{set_status}
use turul_a2a.Storage.State.{
  Store, TaskPushNotificationConfig, task_key, push_config_key, pending_key,
}
use turul_a2a.Storage.Clock.{stamp_task}
use turul_a2a.Storage.Atomic.{Committed, update_task_status_with_events}
use turul_a2a.Storage.Configs.{Others, create_config, config_key}
use turul_a2a.Storage.Registration.{IsNamed, IsSettled, IsTimedOut, create_config_settles}
use turul_a2a.Tests.Data.{env, now, working, completed, task, finished, store}

-- The task is completed between the two reads of the first attempt, and at rest afterwards.
abbrev busy : Others
busy = record {
  between = λ n s.
      (update_task_status_with_events env now "acme" "task-1" "alice" completed (finished ∷ [])
        s).1;
  asleep = λ n s. s;
}

abbrev hook : TaskPushNotificationConfig
hook = record {
  tenant = "acme";
  id = "";
  task_id = "task-1";
  url = "https://example.com/hook";
  token = "";
  authentication = none;
}

create_config_settles_example :
    (named : TaskPushNotificationConfig) × IsNamed "fresh" hook named
    × (IsSettled busy "acme" named
          (store working)
          0
          4
          (create_config busy "fresh" "acme" hook (store working))
        ⊎ IsTimedOut busy "acme" named
            (store working)
            0
            4
            (create_config busy "fresh" "acme" hook (store working)))
create_config_settles_example = create_config_settles busy "fresh" "acme" hook (store working)

-- Push is on, and the hook is registered for the task.
abbrev hooked : Store
hooked = record (store working) {
  push_dispatch_enabled = true;
  push_configs = record {
    entries =
        (
          config_key "acme" "task-1" "hook",
          record { config = hook; registered_after_event_sequence = 0 },
        )
        ∷ [];
  };
}

abbrev result : Committed
result = record { task = stamp_task now (set_status completed (task working)); sequences = 1 ∷ [] }
