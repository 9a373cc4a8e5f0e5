-- ===== src/Base/Values.antt =====
-- Values that the program stores: signed integers, float64 numbers, calendar dates, and the
-- errors that its functions return.
use Prim.Native.Nat.{ℕ}
use Prim.Native.String.{String}
use mathlib.Core.Path.{◌≡◌, refl}
use mathlib.Core.Logic.{◌⊎◌, inl, inr}
use mathlib.Core.Bool.{Bool, true, false, ◌&&◌, ◌||◌}
use mathlib.Core.Option.{Option, none, some}
use mgp.Base.Tests.{ltb, ◌==◌, nat_equality}

-- `negsuc n` is -(n + 1).
pub data ℤ : Type 0 where
  pos : ℕ → ℤ
  negsuc : ℕ → ℤ

-- `n < 1`.
abbrev pub is_less_than_one : ℤ → Bool
is_less_than_one (pos n) = ltb n 1
is_less_than_one (negsuc _) = true

-- A float64: `finite negative mantissa exponent`, an infinity with its sign, or NaN.
pub data Float : Type 0 where
  finite : Bool → ℕ → ℕ → Float
  infinite : Bool → Float
  nan : Float

-- `x <= 0`: a comparison with NaN is false.
abbrev pub is_at_most_zero : Float → Bool
is_at_most_zero (finite negative mantissa _) = negative || mantissa == 0
is_at_most_zero (infinite negative) = negative
is_at_most_zero nan = false

-- A `time.Time` that is a date in UTC.
pub record Date : Type 0 where
  pub year : ℕ
  pub month : ℕ
  pub day : ℕ

abbrev pub zero_date : Date
zero_date = record { year = 1; month = 1; day = 1 }

-- `Time.IsZero`.
abbrev pub is_zero : Date → Bool
is_zero d = d.year == 1 && d.month == 1 && d.day == 1

-- An `error`: a message of the program's own, `sql.ErrNoRows`, or what the database driver or the
-- operating system reports.
pub data Failure : Type 0 where
  message : String → Failure
  no_rows : Failure
  driver : String → Failure

pub data Result {ℓ} (A : Type ℓ) : Type ℓ where
  ok : A → Result A
  err : Failure → Result A

-- `err.Error()`.
abbrev pub error_text : Failure → String
error_text (message s) = s
error_text no_rows = "sql: no rows in result set"
error_text (driver s) = s

-- `sql.NullString.String`.
abbrev pub or_empty : Option String → String
or_empty none = ""
or_empty (some s) = s

pub Result-cases :
    {A : Type 0} (r : Result A) → ((a : A) × (r ≡ ok a)) ⊎ ((e : Failure) × (r ≡ err e))
Result-cases (ok a) = inl (a, refl)
Result-cases (err e) = inr (e, refl)
