-- ===== src/Base/Decimal.antt =====
-- Numbers in decimal notation, as `fmt.Sprint`, `strconv.Itoa` and PostgreSQL's `::text` print
-- them, padding, and the two layouts of dates that the program prints.
use Prim.Native.String.{◌++◌, char_at, count, [], ◌∷◌}
use mgp.Base.Tests.{ltb, leb, ◌==◌, nat_equality, if◌then◌else◌}
use mgp.Base.Values.{Date, ℤ, pos, negsuc}
use Prim.Native.Nat.{ℕ, zero, suc, ◌-◌, ◌/◌, ◌%◌}
use Prim.Native.Char.{Char}
use Prim.Native.String.{String}

pub digit : ℕ → Char
digit n = char_at "0123456789" n

-- A number has at most as many digits as its successor, so that much fuel is enough.
pub digits_within : ℕ → ℕ → String
digits_within zero n = ""
digits_within (suc fuel) n =
    let front = digits_within fuel (n / 10) in
    if ltb n 10 then digit n ∷ [] else front ++ (digit (n % 10) ∷ [])

unfoldable pub decimal : ℕ → String
unfolding digits_within digit
decimal n = digits_within (suc n) n

pub decimal_ℤ : ℤ → String
decimal_ℤ (pos n) = decimal n
decimal_ℤ (negsuc n) = "-" ++ decimal (suc n)

pub zeros : ℕ → String
zeros zero = ""
zeros (suc n) = "0" ++ zeros n

pub take : ℕ → String → String
take zero s = ""
take (suc n) [] = ""
take (suc n) (c ∷ s) = c ∷ take n s

-- PostgreSQL's `lpad(s, width, '0')`, which cuts a text that is longer than the width.
unfoldable pub lpad : ℕ → String → String
unfolding zeros take
lpad width s = if leb width (count s) then take width s else zeros (width - count s) ++ s

-- `%0*d`: a text that is longer than the width stays whole.
unfoldable pub pad : ℕ → String → String
unfolding zeros
pad width s = zeros (width - count s) ++ s

-- The layout "2006-01-02", and a `date` as a text.
unfoldable pub iso_date : Date → String
unfolding pad decimal
iso_date d =
    pad 4 (decimal d.year) ++ ("-" ++ (pad 2 (decimal d.month) ++ ("-" ++ pad 2 (decimal d.day))))

pub month_name : ℕ → String
month_name n =
    if n == 1
    then "Jan"
    else if n == 2
    then "Feb"
    else if n == 3
    then "Mar"
    else if n == 4
    then "Apr"
    else if n == 5
    then "May"
    else if n == 6
    then "Jun"
    else if n == 7
    then "Jul"
    else if n == 8
    then "Aug"
    else if n == 9
    then "Sep"
    else if n == 10
    then "Oct"
    else if n == 11
    then "Nov"
    else "Dec"

-- The layout "02 Jan 2006".
unfoldable pub long_date : Date → String
unfolding pad decimal month_name
long_date d =
    pad 2 (decimal d.day) ++ (" " ++ (month_name d.month ++ (" " ++ pad 4 (decimal d.year))))
