-- ===== src/Http/Csv.antt =====
-- What the program uses of the Go package encoding/csv: a reader and a writer, both as they are
-- by default.
pub mod Scans
pub mod Reads
use Prim.Native.Char.{Char, code}
use Prim.Native.String.{String, [], ◌∷◌, ◌++◌}
use mgp.Base.{Bool, true, false, ◌&&◌, ◌||◌, List, ◌==◌, nat_equality, text_equality, if◌then◌else◌}
use mgp.Base.Text.{is_space}

-- Rows that were read: no more, an error, or one row and what follows it.
pub data Rows : Type 0 where
  done broken : Rows
  next : List String → Rows → Rows

-- Where the reader stands: at the start of a line, of a later field, in a field, in a quoted field,
-- or behind a quote in one.
pub data Mode : Type 0 where
  line field plain quoted closed : Mode

-- What the reader does with a character: it goes on, keeps the character, ends the field or the
-- row, or finds an error.
pub data Step : Type 0 where
  skip keep : Mode → Step
  end_field end_row fail : Step

abbrev pub is_quote : Char → Bool
is_quote c = code c == b'"'

abbrev pub is_comma : Char → Bool
is_comma c = code c == b','

abbrev pub is_newline : Char → Bool
is_newline c = code c == b'\n'

abbrev pub step_field : Char → Step
step_field c =
    if is_quote c
    then Step.skip Mode.quoted
    else if is_comma c
    then Step.end_field
    else if is_newline c
    then Step.end_row
    else Step.keep Mode.plain

abbrev pub step : Mode → Char → Step
step Mode.line c = if is_newline c then Step.skip Mode.line else step_field c
step Mode.field c = step_field c
step Mode.plain c =
    if is_quote c
    then Step.fail
    else if is_comma c
    then Step.end_field
    else if is_newline c
    then Step.end_row
    else Step.keep Mode.plain
step Mode.quoted c = if is_quote c then Step.skip Mode.closed else Step.keep Mode.quoted
step Mode.closed c =
    if is_quote c
    then Step.keep Mode.quoted
    else if is_comma c
    then Step.end_field
    else if is_newline c
    then Step.end_row
    else Step.fail

abbrev pub mode_after : Step → Mode
mode_after (Step.skip mode) = mode
mode_after (Step.keep mode) = mode
mode_after Step.end_field = Mode.field
mode_after Step.end_row = Mode.line
mode_after Step.fail = Mode.line

-- A character in front of the first field.
abbrev pub push : Char → Rows → Rows
push c (Rows.next (List.◌∷◌ s ss) rows) = Rows.next (List.◌∷◌ (c ∷ s) ss) rows
push c rows = rows

-- An empty field in front of the first row.
abbrev pub open_field : Rows → Rows
open_field (Rows.next ss rows) = Rows.next (List.◌∷◌ "" ss) rows
open_field rows = rows

abbrev pub one_field : Rows → Rows
one_field rows = Rows.next (List.◌∷◌ "" List.[]) rows

abbrev pub perform : Step → Char → Rows → Rows
perform (Step.skip mode) c rows = rows
perform (Step.keep mode) c rows = push c rows
perform Step.end_field c rows = open_field rows
perform Step.end_row c rows = one_field rows
perform Step.fail c rows = Rows.broken

abbrev pub at_end : Mode → Rows
at_end Mode.line = Rows.done
at_end Mode.quoted = Rows.broken
at_end _ = one_field Rows.done

-- The rows of a text whose lines end in a line feed.
unfoldable pub scan : Mode → String → Rows
scan mode [] = at_end mode
scan mode (c ∷ s) = let rest = scan (mode_after (step mode c)) s in perform (step mode c) c rest

-- A carriage return in front of a line feed or at the end goes.
abbrev pub after_return : Char → String → String
after_return c [] = []
after_return c (d ∷ s) = if is_newline d then d ∷ s else c ∷ d ∷ s

pub plain_lines : String → String
plain_lines [] = []
plain_lines (c ∷ s) =
    let rest = plain_lines s in if code c == b'\r' then after_return c rest else c ∷ rest

-- What `csv.NewReader(file).Read` gives, call after call, before it compares the number of fields.
unfoldable pub read_rows : String → Rows
unfolding plain_lines scan
read_rows s = scan Mode.line (plain_lines s)

abbrev pub is_special : Char → Bool
is_special c = is_quote c || is_comma c || is_newline c || code c == b'\r'

pub has_special : String → Bool
has_special [] = false
has_special (c ∷ s) = is_special c || has_special s

abbrev pub starts_with_space : String → Bool
starts_with_space [] = false
starts_with_space (c ∷ s) = is_space (code c)

-- `fieldNeedsQuotes`.
abbrev pub needs_quotes : String → Bool
unfolding has_special is_space
needs_quotes s = s == "\\." || has_special s || starts_with_space s

pub doubled : String → String
doubled [] = "\""
doubled (c ∷ s) = if is_quote c then c ∷ c ∷ doubled s else c ∷ doubled s

abbrev pub write_field : String → String
unfolding doubled
write_field s = if needs_quotes s then "\"" ++ doubled s else s

pub write_others : List String → String
write_others List.[] = "\n"
write_others (List.◌∷◌ s ss) = "," ++ (write_field s ++ write_others ss)

-- `Write`.
abbrev pub write_row : List String → String
unfolding write_others
write_row List.[] = "\n"
write_row (List.◌∷◌ s ss) = write_field s ++ write_others ss

-- The rows of a file.
unfoldable pub write_rows : List (List String) → String
write_rows List.[] = ""
write_rows (List.◌∷◌ row rows) = write_row row ++ write_rows rows
