-- ===== src/Http.antt =====
-- internal/http/server.go: requests, responses, who a request is from, and the handlers.
pub mod Workflow
pub mod Login
pub mod Accounts
pub mod NewAccount
pub mod Pages
pub mod Listings
pub mod Forms
pub mod NewPass
pub mod Passes
pub mod Master
pub mod Csv
pub mod Export
pub mod Organization
pub mod Router
use mgp.Base.{
  Bool, true, false, not, ◌&&◌, String, Option, List, ◌==◌, text_equality, if◌then◌else◌, ℕ,
  Failure, message, Result, ok, err,
}
use mgp.Database.{World, M, pure, throw, ◌>>=◌}
use mgp.Auth.Users.{User, find_by_id}
use mgp.View.{PageData, empty_page, Page}
use mgp.Rbac.{role_text}
use mgp.Gatepass.Domain.{Field}
use mgp.Sessions.{Session, get_session}

-- A file in a form: its name and its content.
pub record Upload : Type 0 where
  pub filename : String
  pub content : String

-- What the handlers read of a request: the cookie of the session, the header X-CSRF-Token, the key
-- in the path, whether the form can be parsed, the first value of a field of the form and of the
-- query, empty where missing, all values of a field, and the files of the form.
pub record Request : Type 0 where
  pub cookie : Option String
  pub csrf_header : String
  pub path_id : String
  pub is_malformed : Bool
  pub form_value : String → String
  pub query_value : String → String
  pub form_values : String → List String
  pub form_file : String → Option Upload

-- A redirect (303), one that sets the session's cookie too, an error with its code and text, a text,
-- a page, a file of comma-separated values with its name, or a document with its name and path.
pub data Response : Type 0 where
  redirect : String → Response
  redirect_with_cookie : String → String → Response
  failure : ℕ → String → Response
  plain : String → Response
  page : Page → Response
  csv_file : String → String → Response
  document : String → String → Response

-- An error of a call as a value, for the code that goes on after it.
abbrev pub caught : {A : Type 0} → Result A × World → Result (Result A) × World
caught (r, w) = (ok r, w)

abbrev pub attempt : {A : Type 0} → M A → M (Result A)
attempt m w = caught (m w)

abbrev pub check_active : Session → Result User → M (User × Session)
check_active session (err e) = throw (message "unauthenticated")
check_active session (ok user) =
    if user.status == "active" then pure (user, session) else throw (message "unauthenticated")

-- `currentUser`; `key` is the server's key for cookies.
unfoldable pub current_user : String → Request → M (User × Session)
current_user key request = do
  session ← get_session key request.cookie
  found ← attempt (find_by_id session.user_id)
  check_active session found

-- `validCSRF`.
abbrev pub csrf_token_of : Request → String
csrf_token_of request =
    if request.form_value "csrf_token" == ""
    then request.csrf_header
    else request.form_value "csrf_token"

abbrev pub valid_csrf : Request → Session → Bool
valid_csrf request session =
    not (csrf_token_of request == "") && csrf_token_of request == session.csrf_token

-- `user, session, err := s.currentUser(r)` and its early return, as the pages and the forms have it.
abbrev pub or_login : (User → Session → M Response) → Result (User × Session) → M Response
or_login act (err e) = pure (Response.redirect "/login")
or_login act (ok (user, session)) = act user session

-- The same, as the exports and the change of a draft have it.
abbrev pub or_unauthenticated : (User → Session → M Response) → Result (User × Session) → M Response
or_unauthenticated act (err e) = pure (Response.failure 401 "unauthenticated")
or_unauthenticated act (ok (user, session)) = act user session

-- `if err != nil` with an answer of 500, and what follows.
abbrev pub or_failure : {A : Type 0} → String → (A → M Response) → Result A → M Response
or_failure text act (err e) = pure (Response.failure 500 text)
or_failure text act (ok a) = act a

-- The fields of a page that every handler fills for the user of a session.
abbrev pub page_of : String → String → User → Session → PageData
page_of title active user session = record empty_page {
  title = title;
  active = active;
  user_name = user.name;
  role = role_text user.role;
  csrf_token = session.csrf_token;
}

-- The same with the notice and the error of the query.
abbrev pub noted_page : String → String → Request → User → Session → PageData
noted_page title active request user session = record (page_of title active user session) {
  notice = request.query_value "notice";
  error = request.query_value "error";
}

-- The fields of `Server` that a request needs; the last one is the order in which Go visits the
-- required fields of a draft.
pub record Server : Type 0 where
  pub key : String
  pub shows_test_credentials : Bool
  pub document_dir : String
  pub field_order : List Field
