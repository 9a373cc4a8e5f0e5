-- ===== src/Base/Calendar.antt =====
-- What the program uses of the Go packages time and strconv to read numbers and dates.
use Prim.Native.Nat.{ℕ, zero, suc, ◌+◌, ◌-◌, ◌*◌, ◌%◌, ◌^◌}
use Prim.Native.Char.{Char, code}
use Prim.Native.String.{String, [], ◌∷◌}
use mathlib.Core.Bool.{Bool, not, ◌&&◌, ◌||◌}
use mathlib.Core.Option.{Option, none, some}
use mgp.Base.Tests.{leb, ltb, ◌==◌, nat_equality, if◌then◌else◌}
use mgp.Base.Values.{Date, ℤ, pos, negsuc}

abbrev pub is_digit : Char → Bool
is_digit c = leb b'0' (code c) && leb (code c) b'9'

abbrev pub digit_value : Char → ℕ
digit_value c = code c - b'0'

infixl 5 ◌>>=◌
abbrev pub ◌>>=◌ : {A B : Type 0} → Option A → (A → Option B) → Option B
none >>= f = none
some a >>= f = f a

-- A number of so many digits, on top of the digits that were read, and the rest of the text.
pub take_digits : ℕ → ℕ → String → Option (ℕ × String)
take_digits zero n s = some (n, s)
take_digits (suc count) n [] = none
take_digits (suc count) n (c ∷ s) =
    let rest = take_digits count (n * 10 + digit_value c) s in if is_digit c then rest else none

-- A dash of the layout.
pub take_dash : String → Option String
take_dash [] = none
take_dash (c ∷ s) = if code c == b'-' then some s else none

abbrev is_leap : ℕ → Bool
is_leap year = year % 4 == 0 && (not (year % 100 == 0) || year % 400 == 0)

abbrev pub days_in : ℕ → ℕ → ℕ
days_in year month =
    if month == 2
    then if is_leap year then 29 else 28
    else if month == 4 || month == 6 || month == 9 || month == 11
    then 30
    else 31

abbrev pub is_calendar_date : Date → Bool
is_calendar_date d =
    leb 1 d.month && leb d.month 12 && leb 1 d.day && leb d.day (days_in d.year d.month)

abbrev at_end : Date → String → Option Date
at_end d [] = if is_calendar_date d then some d else none
at_end d (_ ∷ _) = none

-- `time.Parse("2006-01-02", s)`.
unfoldable pub parse_date : String → Option Date
unfolding take_digits take_dash
parse_date s = do
  (year, s) ← take_digits 4 0 s
  s ← take_dash s
  (month, s) ← take_digits 2 0 s
  s ← take_dash s
  (day, s) ← take_digits 2 0 s
  at_end (record { year = year; month = month; day = day }) s

-- The value of a text of digits, on top of the digits that were read.
pub digits_value : ℕ → String → Option ℕ
digits_value n [] = some n
digits_value n (c ∷ s) =
    let rest = digits_value (n * 10 + digit_value c) s in if is_digit c then rest else none

abbrev pub unsigned : String → Option ℕ
unsigned [] = none
unsigned (c ∷ s) = digits_value 0 (c ∷ s)

abbrev pub positive : ℕ → Option ℤ
positive n = if ltb n (2 ^ 63) then some (pos n) else none

abbrev pub negative : ℕ → Option ℤ
negative zero = some (pos 0)
negative (suc n) = if ltb n (2 ^ 63) then some (negsuc n) else none

-- `strconv.Atoi`, with 64 bits.
unfoldable pub atoi : String → Option ℤ
unfolding digits_value
atoi [] = none
atoi (c ∷ s) =
    if code c == b'-'
    then unsigned s >>= negative
    else if code c == b'+'
    then unsigned s >>= positive
    else unsigned (c ∷ s) >>= positive
