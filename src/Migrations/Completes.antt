-- ===== src/Migrations/Completes.antt =====
-- internal/platform/database/database.go: a migration that nothing disturbs completes.
use mgp.Base.{
  ℕ, ◌+◌, ◌≡◌, refl, Bool, true, false, ◌||◌, inl, inr, String, Option, none, List, [], ◌∷◌, All,
  Bool-cases, ◌==◌, text_equality, sort_by, insert_by, Result, ok, arith,
}
use text.Mathlib.TextPositions.{eq_refl}
use mgp.Migrations.{Store, Target, is_applied, is_less, apply_migration, migrate_entries, migrate}

module _ {A : Type 0} (P : A → Type 0) (before : A → A → Bool) where
  All-insert_by : (x : A) (xs : List A) → All P (insert_by before x xs) → P x × All P xs
  All-insert_by x [] h = (h.0, tt)
  All-insert_by x (y ∷ ys) h = elim (Bool-cases (before y x)) [
    | inl e ↦
        let k : All P (y ∷ insert_by before x ys) = rw e at h in
        let (hx, hs) = All-insert_by x ys k.1 in (hx, (k.0, hs))
    | inr e ↦ let k : All P (x ∷ y ∷ ys) = rw e at h in (k.0, k.1)
  ]

  All-sort_by : (xs : List A) → All P (sort_by before xs) → All P xs
  All-sort_by [] h = tt
  All-sort_by (x ∷ xs) h =
      let (hx, hs) = All-insert_by x (sort_by before xs) h in (hx, All-sort_by xs hs)

or-true : (a b : Bool) → b ≡ true → (a || b) ≡ true
or-true a b h = ground arith

-- The tables after a script and its version.
abbrev pub entered : {S : Type 0} → String → S → Store S → Store S
entered version schema store = record { versions = version ∷ store.versions; schema = schema }

-- What the scripts do one after the other: the first store becomes the second, where a script whose
-- version is there is left out, and any other runs on the tables that the ones before it left.
pub data Runs {S : Type 0} (execute : String → S → Result S)
    : List (String × String) → Store S → Store S → Type 0 where
  done : {store : Store S} → Runs execute [] store store
  known :
      {version contents : String} {entries : List (String × String)} {store end : Store S}
      → is_applied version store ≡ true
      → Runs execute entries store end
      → Runs execute ((version, contents) ∷ entries) store end
  new :
      {version contents : String} {entries : List (String × String)} {store end : Store S}
      {schema : S}
      → is_applied version store ≡ false
      → execute contents store.schema ≡ ok schema
      → Runs execute entries (entered version schema store) end
      → Runs execute ((version, contents) ∷ entries) store end

module _ {S : Type 0} (execute : String → S → Result S) where
  -- No version is taken out.
  Runs-kept :
      {entries : List (String × String)} {store end : Store S} (version : String)
      → Runs execute entries store end
      → is_applied version store ≡ true
      → is_applied version end ≡ true
  Runs-kept version Runs.done h = h
  Runs-kept version (Runs.known there rest) h = Runs-kept version rest h
  Runs-kept other (Runs.new {version} {store} fresh ran rest) h =
      Runs-kept other rest (or-true (version == other) (is_applied other store) h)

  -- Every version is there at the end.
  Runs-applied :
      {entries : List (String × String)} {store end : Store S}
      → Runs execute entries store end
      → All (λ (version, _). is_applied version end ≡ true) entries
  Runs-applied Runs.done = tt
  Runs-applied (Runs.known {version} there rest) = (Runs-kept version rest there, Runs-applied rest)
  Runs-applied (Runs.new {version} fresh ran rest) =
      (Runs-kept version rest (rw (eq_refl version) refl), Runs-applied rest)

module _ {S : Type 0} (execute : String → S → Result S) (fault : ℕ → Option String)
    (calm : (n : ℕ) → fault n ≡ none) where
  apply_migration-calm :
      (version contents : String) (t : Target S) (schema : S)
      → is_applied version t.store ≡ false
      → execute contents t.store.schema ≡ ok schema
      → apply_migration execute fault version contents t ≡ (
        ok tt,
        record { store = entered version schema t.store; calls = t.calls + 1 + 1 + 1 + 1 },
      )
  unfolding apply_migration
  apply_migration-calm version contents t schema fresh ran =
      let n = t.calls in
      rw (calm n, calm (n + 1), ran, calm (n + 1 + 1), fresh, calm (n + 1 + 1 + 1)) refl

  -- The loop ends with the tables that the scripts lead to.
  entries-calm :
      (entries : List (String × String)) (store end : Store S) (calls : ℕ)
      → Runs execute entries store end
      → (n : ℕ) × (migrate_entries execute fault entries (record { store = store; calls = calls })
          ≡ (ok tt, record { store = end; calls = n }))
  unfolding migrate_entries
  entries-calm _ _ _ calls Runs.done = (calls, refl)
  entries-calm _ _ _ calls (Runs.known {entries} {store} {end} there rest) =
      let (n, ended) = entries-calm entries store end (calls + 1) rest in
      (n, rw (calm calls, there) ended)
  entries-calm _ _ _ calls
        (Runs.new {version} {contents} {entries} {store} {end} {schema} fresh ran rest) =
      let after = entered version schema store in
      let asked : Target S = record { store = store; calls = calls + 1 } in
      let (n, ended) = entries-calm entries after end (calls + 1 + 1 + 1 + 1 + 1) rest in
      (
        n,
        rw (calm calls, fresh)
            (rw (apply_migration-calm version contents asked schema fresh ran) ended),
      )

  -- A loop over versions that are in the table changes nothing.
  entries-again :
      (entries : List (String × String)) (store : Store S)
      → All (λ (version, _). is_applied version store ≡ true) entries
      → Runs execute entries store store
  entries-again [] store h = Runs.done
  entries-again ((version, contents) ∷ entries) store h =
      Runs.known h.0 (entries-again entries store h.1)

-- Where the driver refuses no call and the scripts, in the order of their names and without those
-- whose version is there already, each run on the tables that the ones before it left, the migration
-- ends without an error, with exactly the tables that the scripts lead to and with every version in
-- its table; and doing it again succeeds and changes no table.
pub migrate-completes :
    {S : Type 0} (execute : String → S → Result S) (fault : ℕ → Option String)
    → ((n : ℕ) → fault n ≡ none)
    → (entries : List (String × String)) (t : Target S) (end : Store S)
    → Runs execute (sort_by is_less entries) t.store end
    → (n : ℕ) × (migrate execute fault entries t ≡ (ok tt, record { store = end; calls = n }))
      × All (λ (version, _). is_applied version end ≡ true) entries
      × ((m : ℕ) × (migrate execute fault entries (record { store = end; calls = n })
            ≡ (ok tt, record { store = end; calls = m })))
unfolding migrate
migrate-completes execute fault calm entries t end runs =
    let sorted = sort_by is_less entries in
    let there = Runs-applied execute runs in
    let (n, ended) = entries-calm execute fault calm sorted t.store end (t.calls + 1) runs in
    let (m, repeated) =
      entries-calm execute fault calm sorted end end (n + 1)
        (entries-again execute fault calm sorted end there) in
    (
      n,
      rw (calm t.calls) ended,
      All-sort_by (λ (version, _). is_applied version end ≡ true) is_less entries there,
      (m, rw (calm n) repeated),
    )
