-- ===== src/Documents.antt =====
-- internal/documents/service.go: the PDF of a pass, its file and its row. The server always gives
-- the service a database.
pub mod Drawing
pub mod Names
pub mod Filed
use Prim.Native.Char.{Char, code}
use Prim.Native.String.{◌++◌}
use mgp.Base.{
  ℕ, Bool, true, false, not, ◌&&◌, ◌||◌, String, Option, none, some, List, [], ◌∷◌, map, ◌==◌,
  nat_equality, text_equality, any, find, update, if◌then◌else◌, ℤ, pos, negsuc, Failure, message,
  driver, Result, ok, err,
}
use Prim.Native.String
use mgp.Base.Text.{trim_space, is_blank}
use mgp.Base.Decimal.{decimal_ℤ}
use mgp.Rbac.{Actor}
use mgp.Database.{
  World, File, M, pure, throw, ◌>>=◌, ◌>>◌, require, asks, statement, disk, make_directory,
  file_exists, write_file,
}
use mgp.Database.Tables.{DocumentRow, PassRow, Db}
use mgp.Gatepass.Rows.{has_number, is_user}
use mgp.Gatepass.Detail.{PassDetail}
use mgp.Documents.Drawing.{drawing}

abbrev pub safe_char : Char → Char
safe_char c = if code c == b'/' || code c == b'\\' then "-" else if code c == b' ' then "_" else c

-- The replacements from the left; the flag says that a dot was read and not yet written.
pub safe_from : Bool → String → String
safe_from true String.[] = "."
safe_from false String.[] = ""
safe_from true (String.◌∷◌ c s) =
    let rest = safe_from false s in
    if code c == b'.' then String.◌∷◌ "-" rest else String.◌∷◌ "." (String.◌∷◌ (safe_char c) rest)
safe_from false (String.◌∷◌ c s) =
    let rest = safe_from (code c == b'.') s in
    if code c == b'.' then rest else String.◌∷◌ (safe_char c) rest

-- `safeFilename`.
unfoldable pub safe_filename : String → String
unfolding safe_from
safe_filename s = safe_from false s

abbrev pub file_name : String → Bool → String
file_name pass_no draft = safe_filename pass_no ++ (if draft then "-draft.pdf" else ".pdf")

abbrev pub document_type : Bool → String
document_type draft = if draft then "GATE_PASS_DRAFT_PDF" else "GATE_PASS_PDF"

abbrev pub is_document : String → String → DocumentRow → Bool
is_document pass_id kind row = row.gate_pass_id == pass_id && row.document_type == kind

-- The row of a document, new or in place of an old one.
abbrev pub put_document : DocumentRow → Db → Db
put_document new db =
    let same = is_document new.gate_pass_id new.document_type in
    if any same db.documents
    then record db { documents = update same (λ _. new) db.documents }
    else record db { documents = new ∷ db.documents }

abbrev store_document :
    String → String → String → String → Option PassRow → World → Result (Unit {0} × Db)
store_document kind path sha256 actor_id none w = ok (tt, w.db)
store_document kind path sha256 actor_id (some pass) w =
    if any (is_user actor_id) w.db.users
    then ok (
      tt,
      put_document
          record {
            gate_pass_id = pass.id;
            document_type = kind;
            path = path;
            sha256 = sha256;
            created_by = actor_id;
          }
          w.db,
    )
    else err (driver "documents: created_by")

-- `INSERT INTO documents … SELECT … ON CONFLICT … DO UPDATE`.
unfoldable pub upsert_document :
    String → String → String → String → String → World → Result (Unit {0} × Db)
upsert_document kind path sha256 actor_id pass_no w =
    store_document kind path sha256 actor_id (find (has_number pass_no) w.db.passes) w

-- The file is written where there is none.
abbrev pub keep_or_write : String → String → Bool → M (Unit {0})
keep_or_write path content true = pure tt
keep_or_write path content false = write_file path content

abbrev output : Result String → M String
output (ok content) = pure content
output (err e) = throw e

-- From `os.Stat` on: the path of the file, and the digest of the document.
abbrev pub file_document : String → String → String → Actor → Bool → String → M (String × String)
file_document path content pass_no actor draft sha256 = do
  exists ← file_exists path
  keep_or_write path content exists
  statement λ w. upsert_document (document_type draft) path sha256 actor.id pass_no w
  pure (path, sha256)

-- From `fpdf.New` on.
abbrev pub draw_document : String → PassDetail → Actor → Bool → M (String × String)
draw_document path detail actor draft = do
  rendered ← asks λ w. w.render_pdf w.now (drawing detail draft)
  content ← output rendered
  sha256 ← asks λ w. w.file_digest content
  file_document path content detail.pass_no actor draft sha256

-- `GeneratePassPDF` with its database.
unfoldable pub generate_pass_pdf : String → PassDetail → Actor → Bool → M (String × String)
generate_pass_pdf root detail actor draft = do
  require (not (is_blank detail.pass_no)) "pass number is required"
  directory ← asks λ w. w.join_path root "gate-passes"
  make_directory directory
  path ← asks λ w. w.join_path directory (file_name detail.pass_no draft)
  draw_document path detail actor draft
