-- ===== src/TaskState/Lifecycle.antt =====
-- The lifecycle of a task (crates/turul-a2a-types/src/state_machine.rs): the transition check
-- against the diagram of the module's comment.
use turul_a2a.Prelude.{◌≡◌, ◌≢◌, refl, ◌↔◌, ◌⊎◌, inl, inr, true, false, ok, err, arith, sym, subst}
use turul_a2a.TaskState.{
  TaskState, terminal_state, invalid_transition, validate_transition, can_transition_to,
  is_terminal, contains, executor_held_states, client_held_states,
}

-- The diagram of the documentation, an edge for each arrow.
infix 40 ◌⟶◌ ◌⟶*◌
pub data ◌⟶◌ : TaskState → TaskState → Type 0 where
  start : TaskState.submitted ⟶ TaskState.working
  resume_input : TaskState.input_required ⟶ TaskState.working
  resume_auth : TaskState.auth_required ⟶ TaskState.working
  finish : TaskState.working ⟶ TaskState.completed
  finish_input : TaskState.input_required ⟶ TaskState.completed
  ask_input : TaskState.working ⟶ TaskState.input_required
  ask_auth : TaskState.working ⟶ TaskState.auth_required
  fail : {s : TaskState} → is_terminal s ≡ false → s ⟶ TaskState.failed
  cancel : {s : TaskState} → is_terminal s ≡ false → s ⟶ TaskState.canceled
  reject : {s : TaskState} → is_terminal s ≡ false → s ⟶ TaskState.rejected

-- A life: any number of transitions that the check accepts.
pub data ◌⟶*◌ (s : TaskState) : TaskState → Type 0 where
  here : s ⟶* s
  then : {t u : TaskState} → s ⟶* t → validate_transition t u ≡ ok tt → s ⟶* u

ruleset edges = (
  start, resume_input, resume_auth, finish, finish_input, ask_input, ask_auth, fail, cancel, reject,
)

accepted-edge : (a b : TaskState) → validate_transition a b ≡ ok tt → a ⟶ b
unfolding validate_transition is_terminal
accepted-edge a b h = grind (arith, edges)

edge-accepted : {a b : TaskState} → a ⟶ b → validate_transition a b ≡ ok tt
unfolding validate_transition
edge-accepted start = refl
edge-accepted resume_input = refl
edge-accepted resume_auth = refl
edge-accepted finish = refl
edge-accepted finish_input = refl
edge-accepted ask_input = refl
edge-accepted ask_auth = refl
edge-accepted (fail h) = unfold is_terminal in ground arith
edge-accepted (cancel h) = unfold is_terminal in ground arith
edge-accepted (reject h) = unfold is_terminal in ground arith

-- The check accepts exactly the edges of the documented diagram. It refuses every request from a
-- terminal state with the terminal-state error of that state, and every other missing edge with
-- the invalid-transition error of the two states.
pub validate_transition_lem :
    (a b : TaskState)
    → ((validate_transition a b ≡ ok tt) ↔ (a ⟶ b))
      × ((validate_transition a b ≡ err (terminal_state a)) ↔ (is_terminal a ≡ true))
      × ((validate_transition a b ≡ ok tt)
          ⊎ (validate_transition a b ≡ err (terminal_state a))
          ⊎ (validate_transition a b ≡ err (invalid_transition a b)))
validate_transition_lem a b = (
  (accepted-edge a b, edge-accepted),
  (
    unfold validate_transition is_terminal in ground arith,
    unfold validate_transition is_terminal in ground arith,
  ),
  unfold validate_transition in ground arith,
)

closed : (a b : TaskState) → is_terminal a ≡ true → can_transition_to a b ≡ false
unfolding can_transition_to validate_transition is_terminal
closed a b t = ground (arith, t)

no_way_out : (a b : TaskState) → is_terminal a ≡ true → validate_transition a b ≢ ok tt
no_way_out a b t e = unfold validate_transition is_terminal in ground (arith, t, e)

stays : {a b : TaskState} → is_terminal a ≡ true → a ⟶* b → b ≡ a
stays t here = refl
stays {a} t (then {t = m} {u = b} r e) =
    absurd (no_way_out m b (subst (λ s. is_terminal s ≡ true) (sym (stays t r)) t) e)

-- From a terminal state the code allows no transition, and a task in
-- it goes nowhere by any number of accepted transitions. From every other state the code allows
-- the transitions to failed, canceled and rejected, and accepted transitions lead to completed.
pub terminal_is_end :
    (a : TaskState)
    → ((is_terminal a ≡ true)
        × ((b : TaskState) → can_transition_to a b ≡ false)
        × ((b : TaskState) → a ⟶* b → b ≡ a))
      ⊎ ((is_terminal a ≡ false)
          × (can_transition_to a TaskState.failed ≡ true)
          × (can_transition_to a TaskState.canceled ≡ true)
          × (can_transition_to a TaskState.rejected ≡ true)
          × (a ⟶* TaskState.completed))
unfolding is_terminal can_transition_to validate_transition
terminal_is_end TaskState.submitted = inr (
  refl,
  refl,
  refl,
  refl,
  then {t = TaskState.working} (then here (edge-accepted start)) (edge-accepted finish),
)
terminal_is_end TaskState.working = inr (refl, refl, refl, refl, then here (edge-accepted finish))
terminal_is_end TaskState.input_required =
    inr (refl, refl, refl, refl, then here (edge-accepted finish_input))
terminal_is_end TaskState.auth_required = inr (
  refl,
  refl,
  refl,
  refl,
  then {t = TaskState.working} (then here (edge-accepted resume_auth)) (edge-accepted finish),
)
terminal_is_end TaskState.completed =
    inl (refl, λ b. closed TaskState.completed b refl, λ b. stays refl)
terminal_is_end TaskState.failed = inl (refl, λ b. closed TaskState.failed b refl, λ b. stays refl)
terminal_is_end TaskState.canceled =
    inl (refl, λ b. closed TaskState.canceled b refl, λ b. stays refl)
terminal_is_end TaskState.rejected =
    inl (refl, λ b. closed TaskState.rejected b refl, λ b. stays refl)

-- The terminal, the executor-held and the client-held states are disjoint and cover all states.
pub held_once :
    (s : TaskState)
    → ((is_terminal s ≡ true)
        × (contains executor_held_states s ≡ false)
        × (contains client_held_states s ≡ false))
      ⊎ ((is_terminal s ≡ false)
          × (contains executor_held_states s ≡ true)
          × (contains client_held_states s ≡ false))
      ⊎ ((is_terminal s ≡ false)
          × (contains executor_held_states s ≡ false)
          × (contains client_held_states s ≡ true))
unfolding is_terminal contains
held_once s = ground arith
