-- ===== src/Storage/Registration.antt =====
-- The registration of a push configuration (`create_config` of
-- crates/turul-a2a/src/storage/in_memory.rs) among the other calls of the store.
use turul_a2a.Prelude.{
  Option, none, some, str_eq, str_eq_iff, ℕ, zero, suc, ◌+◌, ◌≡◌, ◌≢◌, refl, String, Bool, true,
  false, ok, err, arith, ◌⊎◌, inl, inr, Result, ◌==◌, ==_iff, Bool-cases, ◌≤◌, ◌<◌, subst,
}
use turul_a2a.Storage.State.{
  Store, create_config_cas_timeout, TaskPushNotificationConfig, push_config_key, StorageError,
  StoredTask, TaskKey,
}
use turul_a2a.Dict.{insert}
use turul_a2a.Storage.Action.{key}
use turul_a2a.Storage.Reads.{row_of}
use turul_a2a.Storage.Configs.{
  Others, with_id, floor_of, put_config, try_config, config_attempts, create_config,
}

-- The store in which attempt `n` starts, in an execution that has come so far.
unfoldable pub start_of : Others → Store → ℕ → Store
start_of others s zero = s
start_of others s (suc n) = others.asleep n (others.between n (start_of others s n))

-- The store in which attempt `n` reads the floor again.
abbrev pub again_of : Others → Store → ℕ → Store
again_of others s n = others.between n (start_of others s n)

first_or_later : (n j : ℕ) → n ≤ j → (n ≡ j) ⊎ (suc n ≤ j)
first_or_later n j h = ground arith

-- The number of the last event of a task row, 0 where there is no row.
abbrev pub latest : Option StoredTask → ℕ
latest none = 0
latest (some row) = row.latest_event_sequence

floor_of-latest : (s : Store) (k : TaskKey) → floor_of s k ≡ latest (row_of s k)
unfolding floor_of
floor_of-latest s k = ground arith

-- The configuration under the id that it has, or under a fresh one where it has none.
abbrev pub IsNamed : String → TaskPushNotificationConfig → TaskPushNotificationConfig → Type 0
IsNamed fresh config named =
    ((config.id ≡ "") × (named ≡ record config { id = fresh }))
    ⊎ ((config.id ≢ "") × (named ≡ config))

with_id-IsNamed :
    (fresh : String) (config : TaskPushNotificationConfig)
    → IsNamed fresh config (with_id fresh config)
unfolding with_id
with_id-IsNamed fresh config = elim (Bool-cases (str_eq config.id "")) [
  | inl e ↦ inl ((str_eq_iff config.id "").0 e, rw (e, with_id) refl)
  | inr e ↦ inr (λ h. ground (arith, e, (str_eq_iff config.id "").1 h), rw (e, with_id) refl)
]

module _ (others : Others) (tenant : String) (config : TaskPushNotificationConfig) (s : Store) where
  -- The two reads of attempt `n` differ.
  abbrev pub Moved : ℕ → Type 0
  Moved n =
      latest (row_of (again_of others s n) (key tenant config.task_id))
      ≢ latest (row_of (start_of others s n) (key tenant config.task_id))

  -- One of the attempts from `n` to `last` succeeds, the first whose reads agree: the call returns
  -- the configuration, and the store of that moment gets it under its key, with the latest event of
  -- the task there; nothing else changes.
  pub record IsSettled (n last : ℕ) (r : Result StorageError TaskPushNotificationConfig × Store)
      : Type 0 where
    pub attempt : ℕ
    pub from : n ≤ attempt
    pub upto : attempt ≤ last
    pub moved : (j : ℕ) → n ≤ j → j < attempt → Moved j
    pub settled : r ≡ (
      ok config,
      record (again_of others s attempt) {
        push_configs =
            insert
              (again_of others s attempt).push_configs
              (record { tenant = tenant; task_id = config.task_id; config_id = config.id })
              (record {
                config = config;
                registered_after_event_sequence =
                    latest (row_of (again_of others s attempt) (key tenant config.task_id));
              });
      },
    )

  -- In every attempt the floor moved: the call fails and adds nothing.
  pub record IsTimedOut (n last : ℕ) (r : Result StorageError TaskPushNotificationConfig × Store)
      : Type 0 where
    pub moved : (j : ℕ) → n ≤ j → j ≤ last → Moved j
    pub timed_out :
        r ≡ (err (create_config_cas_timeout tenant config.task_id), again_of others s last)

  abbrev run : ℕ → ℕ → Result StorageError TaskPushNotificationConfig × Store
  unfolding config_attempts
  run left n = config_attempts others tenant config (suc left) n (start_of others s n)

  abbrev same : ℕ → Bool
  same n =
      floor_of (again_of others s n) (key tenant config.task_id)
      == floor_of (start_of others s n) (key tenant config.task_id)

  settles : (n last : ℕ) (left : ℕ) → n ≤ last → same n ≡ true → IsSettled n last (run left n)
  unfolding config_attempts try_config put_config floor_of
  settles n last left h e = record {
    attempt = n;
    from = omega arith;
    upto = h;
    moved = λ j f g. omega (arith, f, g);
    settled = ground (
      arith,
      e,
      ==_iff (floor_of (again_of others s n) (key tenant config.task_id))
          (floor_of (start_of others s n) (key tenant config.task_id)),
    );
  }

  fails_last :
      (n : ℕ)
      → same n ≡ false
      → run 0 n ≡ (err (create_config_cas_timeout tenant config.task_id), again_of others s n)
  unfolding config_attempts try_config
  fails_last n e = ground arith

  retries : (left n : ℕ) → same n ≡ false → run (suc left) n ≡ run left (suc n)
  unfolding config_attempts try_config start_of
  retries left n e = ground arith

  Moved-same : (n : ℕ) → same n ≡ false → Moved n
  unfolding floor_of
  Moved-same n e h = ground (
    arith,
    e,
    ==_iff (floor_of (again_of others s n) (key tenant config.task_id))
        (floor_of (start_of others s n) (key tenant config.task_id)),
  )

  -- A test that fails at `n` lengthens what is known from `n + 1` on.
  Moved-from :
      (n end : ℕ)
      → same n ≡ false
      → ((j : ℕ) → suc n ≤ j → j < end → Moved j)
      → (j : ℕ) → n ≤ j
      → j < end
      → Moved j
  Moved-from n end e rest j f g = elim (first_or_later n j f) [
    | inl same_one ↦ subst Moved same_one (Moved-same n e)
    | inr later ↦ rest j later g
  ]

  attempts :
      (left n last : ℕ)
      → left + n ≡ last
      → IsSettled n last (run left n) ⊎ IsTimedOut n last (run left n)
  attempts zero n last h = elim (Bool-cases (same n)) [
    | inl e ↦ inl (settles n last zero (omega (arith, h)) e)
    | inr e ↦ inr (record {
      moved = λ j f g.
          Moved-from n (suc last) e (λ i a b. omega (arith, h, a, b)) j f (omega (arith, g));
      timed_out =
          subst
            (λ m.
              run zero n
              ≡ (err (create_config_cas_timeout tenant config.task_id), again_of others s m))
            (omega (arith, h)) (fails_last n e);
    })
  ]
  attempts (suc left) n last h = elim (Bool-cases (same n)) [
    | inl e ↦ inl (settles n last (suc left) (omega (arith, h)) e)
    | inr e ↦ rw (retries left n e) (elim (attempts left (suc n) last (omega (arith, h))) [
      | inl r ↦ inl (record {
        attempt = r.attempt;
        from = omega (arith, r.from);
        upto = r.upto;
        moved = Moved-from n r.attempt e r.moved;
        settled = r.settled;
      })
      | inr r ↦ inr (record {
        moved = λ j f g.
            Moved-from n (suc last) e (λ i a b. r.moved i a (omega (arith, b))) j f
              (omega (arith, g));
        timed_out = r.timed_out;
      })
    ])
  ]

-- `create_config` makes at most five attempts. Whatever the other calls do meanwhile, it either
-- stops at the first attempt whose two reads of the task's last event number agree, returns the
-- configuration, under a fresh id where it has none, and writes it into the store of that moment
-- under its key, in place of what stood there, with the last event number that the task has there;
-- or the number has moved in all five attempts, and it returns the timeout error and writes nothing.
pub create_config_settles :
    (others : Others) (fresh tenant : String) (config : TaskPushNotificationConfig) (s : Store)
    → (named : TaskPushNotificationConfig) × IsNamed fresh config named
      × (IsSettled others tenant named s 0 4 (create_config others fresh tenant config s)
          ⊎ IsTimedOut others tenant named s 0 4 (create_config others fresh tenant config s))
unfolding create_config start_of
create_config_settles others fresh tenant config s = (
  with_id fresh config,
  with_id-IsNamed fresh config,
  attempts others tenant (with_id fresh config) s 4 0 4 refl,
)
