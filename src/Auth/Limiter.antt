-- ===== src/Auth/Limiter.antt =====
-- internal/auth/limiter.go: an account is locked for 15 minutes after five failed logins.
pub mod Locks
use mgp.Base.{
  ℕ, ◌+◌, Bool, true, false, not, ◌&&◌, ◌||◌, String, Option, none, some, List, [], ◌∷◌, ◌==◌,
  text_equality, leb, ltb, find, update, discard, if◌then◌else◌, Result, ok, err,
}
use mgp.Database.{World, M, statement, read_only, change}
use mgp.Database.Tables.{AttemptRow, Db}
use mgp.Auth.Pin.{normalize_username}

abbrev pub max_pin_failures : ℕ
max_pin_failures = 5

-- `interval '15 minutes'`.
abbrev pub lock_seconds : ℕ
lock_seconds = 900

abbrev pub is_attempt : String → AttemptRow → Bool
is_attempt username row = row.username == username

-- `lockedUntil.Valid && lockedUntil.Time.After(now)`.
abbrev pub is_locked : Option ℕ → ℕ → Bool
is_locked none now = false
is_locked (some until) now = ltb now until

abbrev pub admits : Option AttemptRow → ℕ → Bool
admits none now = true
admits (some row) now = not (is_locked row.locked_until now)

-- `LoginAllowed`.
unfoldable pub login_allowed : String → M Bool
login_allowed username = statement (
    read_only
      λ w. admits (find (is_attempt (normalize_username w.lower username)) w.db.attempts) w.now)

-- `locked_until IS NOT NULL AND locked_until <= now()`.
abbrev pub is_expired : Option ℕ → ℕ → Bool
is_expired none now = false
is_expired (some until) now = leb until now

-- What `DO UPDATE SET` makes of a row: each expression reads the row before the update.
unfoldable pub count_failure : ℕ → AttemptRow → AttemptRow
count_failure now row = record row {
  failed_attempts = if is_expired row.locked_until now then 1 else row.failed_attempts + 1;
  locked_until =
      if is_locked row.locked_until now
      then row.locked_until
      else if leb max_pin_failures (row.failed_attempts + 1)
      then some (now + lock_seconds)
      else none;
  updated_at = now;
}

abbrev pub first_failure : String → ℕ → AttemptRow
first_failure username now = record {
  username = username;
  failed_attempts = 1;
  locked_until = none;
  updated_at = now;
}

abbrev upsert : Option AttemptRow → String → ℕ → List AttemptRow → List AttemptRow
upsert none username now rows = first_failure username now ∷ rows
upsert (some row) username now rows = update (is_attempt username) (count_failure now) rows

-- `INSERT … ON CONFLICT(username) DO UPDATE`.
abbrev pub upsert_failure : String → ℕ → List AttemptRow → List AttemptRow
upsert_failure username now rows = upsert (find (is_attempt username) rows) username now rows

-- `RecordLoginFailure`.
unfoldable pub record_login_failure : String → M (Unit {0})
record_login_failure username = statement (
    change λ w. record w.db {
      attempts = upsert_failure (normalize_username w.lower username) w.now w.db.attempts;
    })

-- `ClearLoginFailures`.
unfoldable pub clear_login_failures : String → M (Unit {0})
clear_login_failures username = statement (
    change λ w. record w.db {
      attempts = discard (is_attempt (normalize_username w.lower username)) w.db.attempts;
    })
