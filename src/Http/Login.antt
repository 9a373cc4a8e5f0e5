-- ===== src/Http/Login.antt =====
-- internal/http/server.go: signing in and out.
pub mod Admits
use mgp.Base.{
  Bool, true, false, ◌&&◌, String, ◌==◌, text_equality, if◌then◌else◌, Result, ok, err, some,
}
use mgp.Database.{World, M, pure, ◌>>=◌, asks}
use mgp.Auth.Pin.{normalize_username, verify_pin}
use mgp.Auth.Users.{User, find_by_username}
use mgp.Auth.Limiter.{login_allowed, record_login_failure, clear_login_failures}
use mgp.Sessions.{Session, sign_cookie, create_session, delete_session}
use mgp.Http.{Request, Response, attempt, current_user, valid_csrf}

-- `allowed && findErr == nil && user.Status == "active" && auth.VerifyPIN(user.PINHash, pin)`.
abbrev pub valid_login : Bool → Result User → String → World → Bool
valid_login allowed (err e) pin w = false
valid_login allowed (ok user) pin w =
    allowed && user.status == "active" && verify_pin w.argon2 user.pin_hash pin

abbrev pub refuse_login : String → M Response
refuse_login username = do
  _ ← attempt (record_login_failure username)
  pure (Response.redirect "/login?error=Invalid+username+or+PIN")

abbrev pub session_answer : String → Result Session → World → Result Response × World
session_answer key (err e) w = (ok (Response.failure 500 "session unavailable"), w)
session_answer key (ok session) w =
    (ok (Response.redirect_with_cookie "/dashboard" (sign_cookie w.hmac key session.id)), w)

abbrev pub admit_login : String → String → Result User → M Response
admit_login key username (err e) = refuse_login username
admit_login key username (ok user) = do
  _ ← attempt (clear_login_failures username)
  result ← attempt (create_session user.id)
  session_answer key result

abbrev pub login_found : String → String → String → Bool → Result User → M Response
login_found key username pin allowed found w =
    if valid_login allowed found pin w
    then admit_login key username found w
    else refuse_login username w

abbrev pub login_checked : String → String → String → Result Bool → M Response
login_checked key username pin (err e) = pure (Response.failure 500 "authentication unavailable")
login_checked key username pin (ok allowed) =
    attempt (find_by_username username) >>= login_found key username pin allowed

abbrev pub login_form : String → Request → M Response
login_form key request = do
  username ← asks λ w. normalize_username w.lower (request.form_value "username")
  result ← attempt (login_allowed username)
  login_checked key username (request.form_value "pin") result

-- `login`.
unfoldable pub login : String → Request → M Response
login key request =
    if request.is_malformed
    then pure (Response.redirect "/login?error=Invalid+form")
    else login_form key request

abbrev pub end_session : String → Request → M Response
end_session key request = do
  _ ← attempt (delete_session key request.cookie)
  pure (Response.redirect "/login?notice=Signed+out+successfully")

abbrev pub logout_as : String → Request → Result (User × Session) → M Response
logout_as key request (err e) = pure (Response.failure 403 "invalid request")
logout_as key request (ok (user, session)) =
    if valid_csrf request session
    then end_session key request
    else pure (Response.failure 403 "invalid request")

-- `logout`.
unfoldable pub logout : String → Request → M Response
logout key request = attempt (current_user key request) >>= logout_as key request
