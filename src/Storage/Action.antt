-- ===== src/Storage/Action.antt =====
-- A storage method: it reads and writes the store and returns a `Result`. What was written before
-- an error stays written, so the store comes back beside the error too. A method that holds its
-- lock from its first read to its last write is one action; a wait between locks is not.
use turul_a2a.Prelude.{String, Bool, true, false, Result, ok, err}
use turul_a2a.Storage.State.{Store, StorageError, TaskKey}

abbrev pub Action : Type 0 → Type 0
Action A = Store → Result StorageError A × Store

abbrev pub continue : {A B : Type 0} → Result StorageError A → (A → Action B) → Action B
continue (ok a) f s = f a s
continue (err e) f s = (err e, s)

infixl 5 ◌>>=◌ ◌>>◌
abbrev pub ◌>>=◌ : {A B : Type 0} → Action A → (A → Action B) → Action B
◌>>=◌ m f s = continue (m s).0 f (m s).1

abbrev pub ◌>>◌ : {B : Type 0} → Action (Unit {0}) → Action B → Action B
m >> n = m >>= λ _. n

abbrev pub pure : {A : Type 0} → A → Action A
pure a s = (ok a, s)

abbrev pub lift : {A : Type 0} → Result StorageError A → Action A
lift r s = (r, s)

abbrev pub reads : {A : Type 0} → (Store → A) → Action A
reads f s = (ok (f s), s)

-- A part of the method that decides on the store and writes nothing.
abbrev pub decides : {A : Type 0} → (Store → Result StorageError A) → Action A
decides f s = (f s, s)

abbrev pub writes : (Store → Store) → Action (Unit {0})
writes f s = (ok tt, f s)

-- `if !test { return Err(e) }`
abbrev pub check : Bool → StorageError → Result StorageError (Unit {0})
check true e = ok tt
check false e = err e

-- `(tenant.to_string(), task_id.to_string())`
abbrev pub key : String → String → TaskKey
key tenant task_id = record { tenant = tenant; task_id = task_id }
