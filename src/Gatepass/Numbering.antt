-- ===== src/Gatepass/Numbering.antt =====
-- `next_pass_number` of db/migrations/001_foundation.sql: a counter for each directorate, project
-- and year, and the number of a pass as a text.
use Prim.Native.String.{◌++◌}
use mgp.Base.{
  ℕ, ◌+◌, Bool, ◌&&◌, String, none, some, List, ◌∷◌, ◌==◌, nat_equality, text_equality, leb, find,
  update, if◌then◌else◌, Result, ok, err, driver,
}
use mgp.Base.Decimal.{decimal, lpad}
use mgp.Database.Tables.{SequenceRow, Db}

unfoldable pub pass_number : String → String → ℕ → ℕ → String
pass_number directorate project year n =
    directorate ++ ("/" ++ (project ++ ("/" ++ (decimal year ++ ("/" ++ lpad 4 (decimal n))))))

pub is_sequence : String → String → ℕ → SequenceRow → Bool
is_sequence directorate project year row =
    row.directorate == directorate && row.project == project && row.year == year

-- The number that the counter holds; 0 before the first pass.
unfoldable pub current_number : String → String → ℕ → List SequenceRow → ℕ
unfolding is_sequence
current_number directorate project year rows =
    elim (find (is_sequence directorate project year) rows) [
      | none ↦ 0
      | some row ↦ row.current_number
    ]

-- `INSERT … ON CONFLICT … DO UPDATE`.
unfoldable pub bump : String → String → ℕ → List SequenceRow → List SequenceRow
unfolding is_sequence
bump directorate project year rows = elim (find (is_sequence directorate project year) rows) [
  | none ↦
      record { directorate = directorate; project = project; year = year; current_number = 1 }
      ∷ rows
  | some row ↦
      update (is_sequence directorate project year)
        (λ r. record r { current_number = r.current_number + 1 }) rows
]

-- The checks on the year and the range of `integer`.
abbrev pub fits_sequence : ℕ → ℕ → Bool
fits_sequence year n = leb 2000 year && leb year 9999 && leb n 2147483647

unfoldable pub next_pass_number : String → String → ℕ → Db → Result (String × Db)
unfolding bump current_number
next_pass_number directorate project year db =
    let n = current_number directorate project year db.sequences + 1 in
    if fits_sequence year n
    then ok (
      pass_number directorate project year n,
      record db { sequences = bump directorate project year db.sequences },
    )
    else err (driver "pass_sequences: out of range")
