-- ===== src/Tests/Lifecycle.antt =====
-- The lifecycle theorems at concrete states.
use turul_a2a.Prelude.{◌≡◌, ◌↔◌, ◌⊎◌, true, false, ok, err}
use turul_a2a.TaskState.{
  TaskState, terminal_state, invalid_transition, validate_transition, can_transition_to,
  is_terminal, contains, executor_held_states, client_held_states,
}
use turul_a2a.TaskState.Lifecycle.{◌⟶◌, ◌⟶*◌, validate_transition_lem, terminal_is_end, held_once}

validate_transition_example :
    ((validate_transition TaskState.working TaskState.completed ≡ ok tt)
      ↔ (TaskState.working ⟶ TaskState.completed))
    × ((validate_transition TaskState.working TaskState.completed
          ≡ err (terminal_state TaskState.working))
        ↔ (is_terminal TaskState.working ≡ true))
    × ((validate_transition TaskState.working TaskState.completed ≡ ok tt)
        ⊎ (validate_transition TaskState.working TaskState.completed
            ≡ err (terminal_state TaskState.working))
        ⊎ (validate_transition TaskState.working TaskState.completed
            ≡ err (invalid_transition TaskState.working TaskState.completed)))
validate_transition_example = validate_transition_lem TaskState.working TaskState.completed

terminal_is_end_example :
    ((is_terminal TaskState.canceled ≡ true)
      × ((b : TaskState) → can_transition_to TaskState.canceled b ≡ false)
      × ((b : TaskState) → TaskState.canceled ⟶* b → b ≡ TaskState.canceled))
    ⊎ ((is_terminal TaskState.canceled ≡ false)
        × (can_transition_to TaskState.canceled TaskState.failed ≡ true)
        × (can_transition_to TaskState.canceled TaskState.canceled ≡ true)
        × (can_transition_to TaskState.canceled TaskState.rejected ≡ true)
        × (TaskState.canceled ⟶* TaskState.completed))
terminal_is_end_example = terminal_is_end TaskState.canceled

held_once_example :
    ((is_terminal TaskState.working ≡ true)
      × (contains executor_held_states TaskState.working ≡ false)
      × (contains client_held_states TaskState.working ≡ false))
    ⊎ ((is_terminal TaskState.working ≡ false)
        × (contains executor_held_states TaskState.working ≡ true)
        × (contains client_held_states TaskState.working ≡ false))
    ⊎ ((is_terminal TaskState.working ≡ false)
        × (contains executor_held_states TaskState.working ≡ false)
        × (contains client_held_states TaskState.working ≡ true))
held_once_example = held_once TaskState.working
