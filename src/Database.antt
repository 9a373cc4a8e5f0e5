-- ===== src/Database.antt =====
-- The database as the program sees it: the tables, and calls of the driver as actions that return
-- a result or an error and may change the tables. The driver may refuse any call; what it answers
-- to each is a parameter. A call in a transaction that fails leaves the tables as they were before
-- the transaction; row locks let the transactions on one pass run one after the other.
pub mod Tables
pub mod Laws
use Prim.Native.String.{String}
use mgp.Base.{
  ℕ, ◌+◌, Bool, true, false, Option, none, some, List, Char, Float, Date, Failure, message, no_rows,
  driver, Result, ok, err, ◌∷◌, ◌==◌, text_equality, any, discard,
}
use mgp.Pdf.{PdfCall}
use mgp.Database.Tables.{ItemRow, Db}

-- What runs outside this repository.
pub record Platform : Type 0 where
  pub fresh : ℕ → String  -- PostgreSQL's `gen_random_uuid`, by the number of earlier calls
  pub numeric : Float → Option String  -- a positive `numeric(18,3)`, if the number fits it
  pub numeric_text : String → Option String  -- the same of a text, for zero or more
  pub render_pdf : ℕ → List PdfCall → Result String  -- fpdf's document, by the time of its creation
  pub parse_float : String → Option Float  -- `strconv.ParseFloat` in 64 bits
  pub digest : String → String  -- SHA-256 of a text in hexadecimal
  pub json_text : String × String → String  -- PostgreSQL's text of an object with one member
  pub time_text : String → ℕ → String  -- Go's `Time.Format` under a layout
  pub file_digest : String → String  -- SHA-256 of a file's bytes in hexadecimal
  pub join_path : String → String → String  -- `filepath.Join`
  pub ilike : String → String → Bool  -- PostgreSQL's `text ILIKE pattern`
  pub arrange : List ItemRow → List ItemRow  -- PostgreSQL's order of rows with equal keys
  pub collates : String → String → Bool  -- a text comes before another in PostgreSQL's order
  pub sql_lower : String → String  -- PostgreSQL's `lower`
  pub lower : Char → Char  -- Unicode's lower case beyond ASCII
  pub upper : Char → Char  -- Unicode's upper case beyond ASCII
  pub argon2 : String → List ℕ → List ℕ  -- Argon2id of a PIN under a salt
  pub hmac : String → String → List ℕ  -- HMAC-SHA-256 of a text under a key
  pub random : ℕ → List ℕ  -- the bytes that `crypto/rand` gives, by the number of earlier reads

-- A file on the disk of the server; its content has a character for each byte.
pub record File : Type 0 where
  pub path : String
  pub content : String

pub record World : Type 0 where
  pub db : Db
  pub now : ℕ  -- Unix time in seconds
  pub today : Date
  pub calls : ℕ  -- calls of the driver so far
  pub reads : ℕ  -- reads of random bytes so far
  pub fault : ℕ → Option String  -- the error with which the driver refuses a call
  pub files : List File
  pub disk_calls : ℕ  -- calls of the operating system on files so far
  pub disk_fault : ℕ → Option String  -- the error with which it refuses a call
  pub platform : Platform
  pub open platform use *

abbrev pub M : Type 0 → Type 0
M A = World → Result A × World

abbrev pub pure : {A : Type 0} → A → M A
pure a w = (ok a, w)

abbrev pub throw : {A : Type 0} → Failure → M A
throw e w = (err e, w)

abbrev pub continue : {A B : Type 0} → Result A × World → (A → M B) → Result B × World
continue (ok a, w) f = f a w
continue (err e, w) f = (err e, w)

infixl 5 ◌>>=◌ ◌>>◌
abbrev pub ◌>>=◌ : {A B : Type 0} → M A → (A → M B) → M B
◌>>=◌ m f w = continue (m w) f

abbrev pub ◌>>◌ : {B : Type 0} → M (Unit {0}) → M B → M B
m >> n = m >>= λ _. n

-- `if !test { return errors.New(text) }`.
abbrev pub require : Bool → String → M (Unit {0})
require true text = pure tt
require false text = throw (message text)

-- `if err != nil { return err }` on an error that is computed with no call.
abbrev pub check : Option Failure → M (Unit {0})
check none = pure tt
check (some e) = throw e

abbrev pub asks : {A : Type 0} → (World → A) → M A
asks f w = (ok (f w), w)

abbrev pub tick : World → World
tick w = record w { calls = w.calls + 1 }

abbrev pub conclude : {A : Type 0} → Result (A × Db) → World → Result A × World
conclude (ok (a, db)) w = (ok a, record (tick w) { db = db })
conclude (err e) w = (err e, tick w)

abbrev answer : {A : Type 0} → Option String → (World → Result (A × Db)) → World → Result A × World
answer none run w = conclude (run w) w
answer (some text) run w = (err (driver text), tick w)

-- One call of the driver: it is refused, or runs on the tables and fails or changes them.
unfoldable pub statement : {A : Type 0} → (World → Result (A × Db)) → M A
statement run w = answer (w.fault w.calls) run w

-- A call that reads and changes nothing.
abbrev pub read_only : {A : Type 0} → (World → A) → World → Result (A × Db)
read_only f w = ok (f w, w.db)

abbrev found : {A : Type 0} → Option A → Db → Result (A × Db)
found none db = err no_rows
found (some a) db = ok (a, db)

-- `QueryRow`: `sql.ErrNoRows` where no row fits.
abbrev pub read_row : {A : Type 0} → (World → Option A) → World → Result (A × Db)
read_row f w = found (f w) w.db

-- A call that changes the tables and cannot break a constraint.
abbrev pub change : (World → Db) → World → Result (Unit {0} × Db)
change f w = ok (tt, f w)

-- `BeginTx` and `Commit`.
abbrev pub mark : M (Unit {0})
mark = statement (change (λ w. w.db))

abbrev pub rolled_back : {A : Type 0} → Db → Result A × World → Result A × World
rolled_back db (ok a, w) = (ok a, w)
rolled_back db (err e, w) = (err e, record w { db = db })

-- The calls between `BeginTx` and `Commit`, under `defer tx.Rollback()`.
unfoldable pub transaction : {A : Type 0} → M A → M A
transaction body w = rolled_back w.db ((do mark; a ← body; mark; pure a) w)

abbrev finish : {A : Type 0} → Result (A × List File) → World → Result A × World
finish (ok (a, files)) w = (ok a, record w { files = files; disk_calls = w.disk_calls + 1 })
finish (err e) w = (err e, record w { disk_calls = w.disk_calls + 1 })

abbrev operate : {A : Type 0} → Option String → Result (A × List File) → World → Result A × World
operate none result w = finish result w
operate (some text) result w = finish (err (driver text)) w

-- One call of the operating system on files: it is refused, or runs on the files.
unfoldable pub disk : {A : Type 0} → (List File → Result (A × List File)) → M A
disk run w = operate (w.disk_fault w.disk_calls) (run w.files) w

-- `os.MkdirAll`; the directories are not part of the state.
abbrev pub make_directory : String → M (Unit {0})
make_directory path = disk λ files. ok (tt, files)

abbrev pub is_file : String → File → Bool
is_file path file = file.path == path

-- `os.Stat`: whether a file is there.
abbrev pub file_exists : String → M Bool
file_exists path = disk λ files. ok (any (is_file path) files, files)

-- `os.WriteFile`.
abbrev pub write_file : String → String → M (Unit {0})
write_file path content =
    disk λ files. ok (tt, record { path = path; content = content } ∷ discard (is_file path) files)
