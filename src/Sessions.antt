-- ===== src/Sessions.antt =====
-- internal/platform/sessions/store.go: sessions and the signed cookies that name them. The request
-- gives the value of its cookie, if it has one; HMAC-SHA-256 is a field of `Platform`.
pub mod Cookies
pub mod Lifetime
use Prim.Native.String.{◌++◌}
use mgp.Base.{
  ℕ, ◌+◌, Bool, true, false, not, ◌&&◌, ◌||◌, String, Option, none, some, List, [], ◌∷◌, ◌==◌,
  text_equality, ltb, any, find, discard, if◌then◌else◌, Failure, message, no_rows, driver, Result,
  ok, err,
}
use mgp.Base.Text.{split}
use mgp.Base.Base64.{url_alphabet, encode}
use mgp.Database.{World, M, pure, throw, ◌>>=◌, ◌>>◌, asks, statement, read_row, change}
use mgp.Database.Tables.{SessionRow, Db}
use mgp.Gatepass.Rows.{is_user}
use mgp.Auth.Pin.{read_random}

abbrev pub cookie_name : String
cookie_name = "mgp_session"

pub record Session : Type 0 where
  pub id : String
  pub user_id : String
  pub csrf_token : String
  pub expires_at : ℕ

-- `8 * time.Hour`.
abbrev pub session_seconds : ℕ
session_seconds = 28800

abbrev pub row_of_session : Session → SessionRow
row_of_session session = record {
  id = session.id;
  user_id = session.user_id;
  csrf_token = session.csrf_token;
  expires_at = session.expires_at;
}

abbrev pub session_of_row : SessionRow → Session
session_of_row row = record {
  id = row.id;
  user_id = row.user_id;
  csrf_token = row.csrf_token;
  expires_at = row.expires_at;
}

abbrev pub is_session : String → SessionRow → Bool
is_session id row = row.id == id

-- `INSERT INTO sessions`, under the primary key and the reference to a user.
unfoldable pub insert_session : Session → World → Result (Unit {0} × Db)
insert_session session w =
    if not (any (is_session session.id) w.db.sessions) && any (is_user session.user_id) w.db.users
    then ok (tt, record w.db { sessions = row_of_session session ∷ w.db.sessions })
    else err (driver "sessions: a constraint is violated")

-- The session that `Create` builds from its random bytes.
abbrev pub new_session : List ℕ → List ℕ → String → ℕ → Session
new_session bytes csrf_bytes user_id now = record {
  id = encode url_alphabet bytes;
  user_id = user_id;
  csrf_token = encode url_alphabet csrf_bytes;
  expires_at = now + session_seconds;
}

-- `Create`.
unfoldable pub create_session : String → M Session
create_session user_id = do
  bytes ← read_random
  csrf_bytes ← read_random
  session ← asks λ w. new_session bytes csrf_bytes user_id w.now
  statement (insert_session session)
  pure session

-- `signCookie`.
unfoldable pub sign_cookie : (String → String → List ℕ) → String → String → String
sign_cookie hmac key id = if key == "" then id else id ++ ("." ++ encode url_alphabet (hmac key id))

-- The two parts of a signed value, of which the first is the key of the session.
abbrev pub verify_parts : (String → String → List ℕ) → String → String → List String → Option String
verify_parts hmac key value (id ∷ _ ∷ []) =
    if not (id == "") && value == sign_cookie hmac key id then some id else none
verify_parts hmac key value _ = none

-- `verifyCookie`; `none` for a value that is not accepted.
unfoldable pub verify_cookie : (String → String → List ℕ) → String → String → Option String
verify_cookie hmac key value =
    if key == ""
    then if value == "" then none else some value
    else verify_parts hmac key value (split b'.' value)

abbrev or_fail : {A : Type 0} → Option A → Failure → M A
or_fail none e = throw e
or_fail (some a) e = pure a

abbrev pub is_live : String → ℕ → SessionRow → Bool
is_live id now row = row.id == id && ltb now row.expires_at

abbrev pub find_session : Option SessionRow → Option Session
find_session none = none
find_session (some row) = some (session_of_row row)

abbrev pub verified : String → String → World → Option String
verified key value w = verify_cookie w.hmac key value

-- `Get`.
unfoldable pub get_session : String → Option String → M Session
get_session key cookie = do
  value ← or_fail cookie (message "http: named cookie not present")
  name ← asks (verified key value)
  id ← or_fail name no_rows
  statement (read_row λ w. find_session (find (is_live id w.now) w.db.sessions))

-- The error of the statement is dropped.
abbrev delete_row : Option String → M (Unit {0})
delete_row none w = pure tt w
delete_row (some id) w = (
  ok tt,
  (statement (change (λ u. record u.db { sessions = discard (is_session id) u.db.sessions })) w).1,
)

abbrev delete_cookie : String → Option String → M (Unit {0})
delete_cookie key none = pure tt
delete_cookie key (some value) = asks (verified key value) >>= delete_row

-- `Delete`, whose response also empties the cookie.
unfoldable pub delete_session : String → Option String → M (Unit {0})
delete_session = delete_cookie
