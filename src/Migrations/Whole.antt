-- ===== src/Migrations/Whole.antt =====
-- internal/platform/database/database.go: migrations are applied whole, each at most once.
use mgp.Base.{◌≡◌, false, String, ◌∷◌, text_equality, Result, ok}
use mgp.Migrations.{Store, is_applied}

module _ {S : Type 0} (execute : String → S → Result S) where
  -- A store that whole migrations led to, none of a version that was applied before.
  pub data Applied (start : Store S) : Store S → Type 0 where
    unchanged : Applied start start
    one_more :
        (version contents : String) (store : Store S) (schema : S)
        → Applied start store
        → is_applied version store ≡ false
        → execute contents store.schema ≡ ok schema
        → Applied start (record { versions = version ∷ store.versions; schema = schema })
