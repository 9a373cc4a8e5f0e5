-- ===== src/Http/NewAccount.antt =====
-- internal/http/server.go: how an administrator makes an account.
use Prim.Native.Char.{code}
use Prim.Native.String.{◌++◌}
use mgp.Base.{
  Bool, false, not, ◌&&◌, ◌||◌, String, Option, none, some, ◌==◌, nat_equality, or_empty, ℕ, ◌*◌,
  text_equality, if◌then◌else◌, Result, ok, err, error_text,
}
use mgp.Rbac.{Role, role_text, role_of, role_equality}
use mgp.Database.{M, pure, ◌>>=◌, ◌>>◌, asks, make_directory, write_file}
use mgp.Auth.Pin.{hash_pin}
use mgp.Auth.Users.{User, create_account, update_signature, role_holds}
use mgp.Http.{Request, Response, Upload, attempt, current_user}
use mgp.Base.Text.{trim_space}
use mgp.Base.Decimal.{take}
use mgp.Http.Accounts.{record_account_audit, as_admin, error_page}

pub has_slash : String → Bool
has_slash String.[] = false
has_slash (String.◌∷◌ c s) = code c == b'/' || has_slash s

abbrev pub extended : Bool → String → Option String → Option String
extended is_dot s (some extension) = some extension
extended is_dot s none = if is_dot && not (has_slash s) then some s else none

pub extension_from : String → Option String
unfolding has_slash
extension_from String.[] = none
extension_from (String.◌∷◌ c s) = extended (code c == b'.') (String.◌∷◌ c s) (extension_from s)

-- `filepath.Ext`, and the extension that a signature gets.
abbrev pub signature_extension : String → String
unfolding extension_from
signature_extension name =
    let extension = or_empty (extension_from name) in
    if extension == ".png" || extension == ".jpg" || extension == ".jpeg" then extension else ".img"

abbrev pub max_signature_bytes : ℕ
max_signature_bytes = 2 * 1024 * 1024

-- The file of a signature, cut to its first two MiB, and the columns that name it.
abbrev pub store_signature : String → String → Option Upload → M (Unit {0})
store_signature root id none = pure tt
store_signature root id (some file) = do
  directory ← asks λ w. w.join_path root "signatures"
  make_directory directory
  path ← asks λ w. w.join_path directory (id ++ signature_extension file.filename)
  content ← pure (take max_signature_bytes file.content)
  write_file path content
  sha256 ← asks λ w. w.file_digest content
  update_signature id path sha256

abbrev pub account_of_request : Request → Role → String → User
account_of_request request role hash = record {
  id = "";
  username = request.form_value "username";
  name = request.form_value "name";
  pin_hash = hash;
  role = role;
  status = "";
  rank = request.form_value "rank";
  phone = request.form_value "phone";
  signature_path = "";
  signature_sha256 = "";
}

-- The account with its signature and its event, or the first error.
unfoldable pub make_account : String → Request → User → Role → M (Unit {0})
make_account root request admin role = do
  hash ← hash_pin (request.form_value "pin")
  id ← create_account (account_of_request request role hash)
  store_signature root id (request.form_file "signature")
  record_account_audit id "CREATE_USER" admin (role_text role)

abbrev pub account_made : Result (Unit {0}) → Response
account_made (err e) = error_page (error_text e)
account_made (ok _) = Response.redirect "/users?notice=Account+created"

abbrev pub answer_made : String → Request → User → Role → M Response
answer_made root request admin role = do
  result ← attempt (make_account root request admin role)
  pure (account_made result)

abbrev pub create_user_as : String → Request → User → M Response
create_user_as root request admin =
    let role = role_of (trim_space (request.form_value "role")) in
    if role_holds role
    then answer_made root request admin role
    else pure (Response.redirect "/users?error=Invalid+role")

-- `createUser`; `root` is the directory of the documents.
unfoldable pub create_user : String → String → Request → M Response
create_user root key request =
    attempt (current_user key request) >>= as_admin request (create_user_as root request)
