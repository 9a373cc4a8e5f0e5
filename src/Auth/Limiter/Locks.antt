-- ===== src/Auth/Limiter/Locks.antt =====
-- internal/auth/limiter.go: when the limiter locks an account.
use mgp.Base.{
  ℕ, ◌+◌, ◌*◌, ◌≤◌, ◌≡◌, refl, ap, ◌∙◌, Bool, true, false, not, ◌||◌, String, Option, Option-cases,
  none, some, List, [], ◌∷◌, eq_refl, text_equality, leb, length, find, inl, inr, arith, ok,
}
use mgp.Base.Keys.{find-discard, find-test, find-first, find-update_self}
use mgp.Database.{World, statement}
use mgp.Database.Tables.{AttemptRow}
use mgp.Auth.Pin.{normalize_username}
use mgp.Auth.Limiter.{
  is_attempt, is_locked, admits, count_failure, first_failure, upsert_failure, login_allowed,
  record_login_failure, clear_login_failures,
}

-- The row after a failure.
abbrev next_row : String → ℕ → Option AttemptRow → AttemptRow
next_row username now none = first_failure username now
next_row username now (some row) = count_failure now row

module _ (username : String) where
  find-upsert_failure :
      (now : ℕ) (rows : List AttemptRow)
      → find (is_attempt username) (upsert_failure username now rows)
        ≡ some (next_row username now (find (is_attempt username) rows))
  unfolding count_failure
  find-upsert_failure now rows = elim (Option-cases (find (is_attempt username) rows)) [
    | inl e ↦
        rw e (find-first (is_attempt username) (first_failure username now) rows (eq_refl username))
    | inr (row, e) ↦ rw e (
        find-update_self (is_attempt username) (count_failure now) rows row e
          (find-test (is_attempt username) rows e))
  ]

  -- The rows after failures at the given times, the latest first.
  abbrev pub failures : List ℕ → List AttemptRow → List AttemptRow
  failures [] rows = rows
  failures (now ∷ earlier) rows = upsert_failure username now (failures earlier rows)

  -- Up to four failures after none are counted and lock nothing.
  few_failures :
      (rows : List AttemptRow) (now : ℕ) (earlier : List ℕ)
      → find (is_attempt username) rows ≡ none
      → length earlier ≤ 3
      → (row : AttemptRow) × (find (is_attempt username) (failures (now ∷ earlier) rows) ≡ some row)
        × (row.failed_attempts ≡ length earlier + 1)
        × (row.locked_until ≡ none)
  unfolding count_failure
  few_failures rows now [] fresh h =
      (first_failure username now, find-upsert_failure now rows ∙ rw fresh refl, refl, refl)
  few_failures rows now (before ∷ earlier) fresh h =
      let (row, read, count, free) = few_failures rows before earlier fresh (omega (arith, h)) in
      (
        count_failure now row,
        find-upsert_failure now _ ∙ rw read refl,
        rw (free, count) (omega arith),
        rw (free, count) (ground arith),
      )

  few-admits :
      (rows : List AttemptRow) (times : List ℕ) (now : ℕ)
      → find (is_attempt username) rows ≡ none
      → length times ≤ 4
      → admits (find (is_attempt username) (failures times rows)) now ≡ true
  few-admits rows [] now fresh h = rw fresh refl
  few-admits rows (last ∷ earlier) now fresh h =
      let (row, read, count, free) = few_failures rows last earlier fresh (omega (arith, h)) in
      rw read (rw free refl)

  fifth-admits :
      (rows : List AttemptRow) (times : List ℕ) (now fifth : ℕ)
      → find (is_attempt username) rows ≡ none
      → length times ≡ 4
      → admits (find (is_attempt username) (failures (fifth ∷ times) rows)) now
        ≡ leb (fifth + 15 * 60) now
  unfolding count_failure
  fifth-admits rows [] now fifth fresh h = absurd (omega (arith, h))
  fifth-admits rows (last ∷ earlier) now fifth fresh h =
      let (row, read, count, free) = few_failures rows last earlier fresh (omega (arith, h)) in
      rw (find-upsert_failure fifth (failures (last ∷ earlier) rows))
        (rw read (rw (free, count) (ground arith)))

  -- After failures at any times, in a table with no row for the account, the account is admitted as
  -- long as they are at most four; once they are five, it is refused for exactly the 15 * 60 seconds
  -- after the fifth.
  pub failures-admits :
      (rows : List AttemptRow) (few four : List ℕ) (now fifth : ℕ)
      → find (is_attempt username) rows ≡ none
      → length few ≤ 4
      → length four ≡ 4
      → (admits (find (is_attempt username) (failures few rows)) now ≡ true)
        × (admits (find (is_attempt username) (failures (fifth ∷ four) rows)) now
            ≡ leb (fifth + 15 * 60) now)
  failures-admits rows few four now fifth fresh at_most exactly =
      (few-admits rows few now fresh at_most, fifth-admits rows four now fifth fresh exactly)

-- What a lock is to be after a failure at a time: the one in force, or a new one where the counter,
-- which the end of an old lock does not reset, has reached four.
abbrev pub locks : Option AttemptRow → ℕ → Bool
locks none now = false
locks (some row) now = is_locked row.locked_until now || leb 4 row.failed_attempts

next_row-admits :
    (username : String) (row : Option AttemptRow) (now : ℕ)
    → admits (some (next_row username now row)) now ≡ not (locks row now)
unfolding count_failure
next_row-admits username none now = refl
next_row-admits username (some row) now = ground arith

-- Where the driver refuses neither call, a login is admitted right after a failed one unless the
-- account was locked already or had four failures on its counter; and after the failures are
-- cleared it is admitted whatever came before.
pub login_allowed_after :
    (username : String) (w : World)
    → ((n : ℕ) → w.fault n ≡ none)
    → ((login_allowed username (record_login_failure username w).1).0
        ≡ ok (
            not (
              locks (find (is_attempt (normalize_username w.lower username)) w.db.attempts) w.now)))
      × ((login_allowed username (clear_login_failures username w).1).0 ≡ ok true)
unfolding login_allowed record_login_failure clear_login_failures statement
login_allowed_after username w calm =
    let name = normalize_username w.lower username in
    (
      rw (calm w.calls, calm (w.calls + 1))
          (ap ok (
            ap (λ row. admits row w.now) (find-upsert_failure name w.now w.db.attempts)
            ∙ next_row-admits name (find (is_attempt name) w.db.attempts) w.now)),
      rw (calm w.calls, calm (w.calls + 1))
          (ap (λ row. ok (admits row w.now)) (find-discard (is_attempt name) w.db.attempts)),
    )
