-- ===== src/Tests/Upgrades.antt =====
-- Migrations on concrete inputs: the first script makes a table that the others alter, and each
-- fails where that table is not as it wants it.
use mgp.Base.{
  ◌≡◌, refl, ℕ, String, Option, none, some, List, [], ◌∷◌, true, All, ◌==◌, text_equality,
  if◌then◌else◌, Result, ok, err, driver,
}
use mgp.Migrations.{Store, Target, is_applied, migrate}
use mgp.Migrations.Completes.{Runs, migrate-completes}

-- The columns of the table of users, where there is one.
abbrev Columns : Type 0
Columns = Option (List String)

abbrev with_column : String → Columns → Result Columns
with_column column none = err (driver "relation \"users\" does not exist")
with_column column (some columns) = ok (some (column ∷ columns))

abbrev with_users : Columns → Result Columns
with_users none = ok (some [])
with_users (some _) = err (driver "relation \"users\" already exists")

abbrev execute : String → Columns → Result Columns
execute contents columns =
    if contents == "CREATE TABLE users()" then with_users columns else with_column contents columns

abbrev calm : ℕ → Option String
calm n = none

abbrev files : List (String × String)
files =
    ("003_reference_form_fields.sql", "copy_type")
    ∷ ("001_foundation.sql", "CREATE TABLE users()")
    ∷ ("002_username_pin_auth.sql", "username")
    ∷ []

abbrev fresh : Target Columns
fresh = record { store = record { versions = []; schema = none }; calls = 0 }

abbrev upgraded : Store Columns
upgraded = record {
  versions =
      "003_reference_form_fields.sql" ∷ "002_username_pin_auth.sql" ∷ "001_foundation.sql" ∷ [];
  schema = some ("copy_type" ∷ "username" ∷ []);
}

migrate-completes_example :
    (n : ℕ) × (migrate execute calm files fresh ≡ (ok tt, record { store = upgraded; calls = n }))
    × All (λ (version, _). is_applied version upgraded ≡ true) files
    × ((m : ℕ) × (migrate execute calm files (record { store = upgraded; calls = n })
          ≡ (ok tt, record { store = upgraded; calls = m })))
migrate-completes_example =
    migrate-completes execute calm (λ n. refl) files fresh upgraded
      (Runs.new refl refl (Runs.new refl refl (Runs.new refl refl Runs.done)))
