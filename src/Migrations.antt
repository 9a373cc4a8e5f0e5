-- ===== src/Migrations.antt =====
-- internal/platform/database/database.go: the migrations of the tables. What a script does to the
-- tables is a parameter, and so is the type of the tables; the table of versions stands apart.
pub mod Whole
pub mod Completes
use Prim.Native.String
use Prim.Native.String.{◌++◌}
use Prim.Native.Nat.{Ordering}
use mgp.Base.{
  ℕ, ◌+◌, Bool, true, false, String, Option, none, some, List, [], ◌∷◌, ◌==◌, text_equality, any,
  sort_by, if◌then◌else◌, Failure, message, driver, error_text, Result, ok, err,
}

-- The table `schema_migrations`, which is empty where it is missing, and the other tables.
pub record Store (S : Type 0) : Type 0 where
  pub versions : List String
  pub schema : S

-- The tables and the calls of the driver so far.
pub record Target (S : Type 0) : Type 0 where
  pub store : Store S
  pub calls : ℕ

abbrev pub Run : Type 0 → Type 0 → Type 0
Run S A = Target S → Result A × Target S

abbrev pub is_less : String × String → String × String → Bool
is_less (a, _) (b, _) = elim (String.compare a b) [ Ordering.lt ↦ true | _ ↦ false ]

module _ {S : Type 0} where
  abbrev pub pure : {A : Type 0} → A → Run S A
  pure a t = (ok a, t)

  abbrev pub continue : {A B : Type 0} → Result A × Target S → (A → Run S B) → Result B × Target S
  continue (ok a, t) f = f a t
  continue (err e, t) f = (err e, t)

  abbrev pub bind : {A B : Type 0} → Run S A → (A → Run S B) → Run S B
  bind m f t = continue (m t) f

  abbrev pub answer :
      {A : Type 0} → Option String → Result (A × Store S) → Target S → Result A × Target S
  answer none (ok (a, store)) t = (ok a, record t { store = store; calls = t.calls + 1 })
  answer none (err e) t = (err e, record t { calls = t.calls + 1 })
  answer (some text) result t = (err (driver text), record t { calls = t.calls + 1 })

  abbrev pub is_applied : String → Store S → Bool
  is_applied version store = any (λ v. v == version) store.versions

  -- `INSERT INTO schema_migrations`, whose key is the version.
  abbrev pub add_version : String → Store S → Result (Unit {0} × Store S)
  add_version version store =
      if is_applied version store
      then err (driver "schema_migrations: a unique key is violated")
      else ok (tt, record store { versions = version ∷ store.versions })

  abbrev pub executed : Result S → Store S → Result (Unit {0} × Store S)
  executed (ok schema) store = ok (tt, record store { schema = schema })
  executed (err e) store = err e

  abbrev pub wrapped : {A : Type 0} → String → Result A × Target S → Result A × Target S
  wrapped version (ok a, t) = (ok a, t)
  wrapped version (err e, t) =
      (err (message ("migration " ++ (version ++ (": " ++ error_text e)))), t)

  abbrev pub rolled_back : {A : Type 0} → Store S → Result A × Target S → Result A × Target S
  rolled_back store (ok a, t) = (ok a, t)
  rolled_back store (err e, t) = (err e, record t { store = store })

-- What a script does, and the error with which the driver refuses a call.
module _ {S : Type 0} (execute : String → S → Result S) (fault : ℕ → Option String) where
  -- A call of the driver.
  abbrev pub call : {A : Type 0} → (Store S → Result (A × Store S)) → Run S A
  call run t = answer (fault t.calls) (run t.store) t

  -- A call that reads or changes nothing.
  abbrev pub mark : Run S (Unit {0})
  mark = call λ store. ok (tt, store)

  abbrev pub run_script : String → Run S (Unit {0})
  run_script contents t = call (λ store. executed (execute contents store.schema) store) t

  -- The script and its version.
  abbrev pub script_and_version : String → String → Run S (Unit {0})
  script_and_version version contents t =
      wrapped version (bind (run_script contents) (λ _. call (add_version version)) t)

  -- The same in one transaction.
  unfoldable pub apply_migration : String → String → Run S (Unit {0})
  apply_migration version contents t =
      rolled_back t.store (bind mark (λ _. bind (script_and_version version contents) λ _. mark) t)

  abbrev pub apply_unless : Bool → String → String → Run S (Unit {0})
  apply_unless true version contents = pure tt
  apply_unless false version contents = apply_migration version contents

  -- One turn of the loop.
  abbrev pub migrate_entry : String → String → Run S (Unit {0})
  migrate_entry version contents =
      bind (call λ store. ok (is_applied version store, store))
        λ exists. apply_unless exists version contents

  -- The loop over the files.
  pub migrate_entries : List (String × String) → Run S (Unit {0})
  migrate_entries [] = pure tt
  migrate_entries ((version, contents) ∷ entries) =
      bind (migrate_entry version contents) λ _. migrate_entries entries

  -- `Migrate`, with the names and the contents of the embedded files.
  unfoldable pub migrate : List (String × String) → Run S (Unit {0})
  unfolding migrate_entries
  migrate entries = bind mark λ _. migrate_entries (sort_by is_less entries)
