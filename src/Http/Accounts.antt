-- ===== src/Http/Accounts.antt =====
-- internal/http/server.go: how an administrator suspends an account and gives it a new PIN.
pub mod Administered
use Prim.Native.String.{◌++◌}
use mgp.Base.{
  Bool, true, false, not, ◌&&◌, ◌||◌, String, Option, none, some, ◌∷◌, ◌==◌, text_equality, any,
  if◌then◌else◌, Result, ok, err, driver, error_text,
}
use mgp.Rbac.{Role, role_equality}
use mgp.Database.{World, M, pure, ◌>>=◌, ◌>>◌, statement}
use mgp.Database.Tables.{AuditRow, Db}
use mgp.Gatepass.Rows.{is_user, nullif_empty}
use mgp.Auth.Pin.{hash_pin}
use mgp.Auth.Users.{User, set_status, reset_pin}
use mgp.Sessions.{Session}
use mgp.Http.{Request, Response, attempt, current_user, valid_csrf}
use mgp.Http.Workflow.{url_query}

abbrev pub account_event : String → String → User → String → World → AuditRow
account_event target action actor detail w = record {
  entity_type = "user";
  entity_id = target;
  action = action;
  from_status = none;
  to_status = none;
  actor_id = actor.id;
  actor_role = actor.role;
  reason = nullif_empty detail;
  metadata = ("target_user_id", target);
  created_at = w.now;
}

-- `recordAccountAudit`, without its log.
unfoldable pub record_account_audit : String → String → User → String → M (Unit {0})
record_account_audit target action actor detail = statement λ w.
    if any (is_user actor.id) w.db.users
    then ok (
      tt,
      record w.db { audit_events = account_event target action actor detail w ∷ w.db.audit_events },
    )
    else err (driver "audit_events: actor_id")

-- `admin.Role != rbac.RoleAdmin || !validCSRF(r, session)`, and what follows.
abbrev pub as_admin : Request → (User → M Response) → Result (User × Session) → M Response
as_admin request act (err e) = pure (Response.redirect "/login")
as_admin request act (ok (user, session)) =
    if user.role == Role.admin && valid_csrf request session
    then act user
    else pure (Response.failure 403 "forbidden")

abbrev pub error_page : String → Response
error_page text = Response.redirect ("/users?error=" ++ url_query text)

abbrev pub audit_answer : String → Result (Unit {0}) → Response
audit_answer location (err e) = Response.failure 500 "audit unavailable"
audit_answer location (ok _) = Response.redirect location

-- The event after the change, or the error of the change.
abbrev pub recorded : String → String → User → String → String → Result (Unit {0}) → M Response
recorded target action actor detail location (err e) = pure (error_page (error_text e))
recorded target action actor detail location (ok _) = do
  result ← attempt (record_account_audit target action actor detail)
  pure (audit_answer location result)

abbrev pub change_status : Request → User → M Response
change_status request admin =
    attempt (set_status request.path_id (request.form_value "status"))
    >>= recorded request.path_id "SET_STATUS" admin (request.form_value "status")
        "/users?notice=Account+status+updated"

-- `setUserStatus`.
unfoldable pub set_user_status : String → Request → M Response
set_user_status key request =
    attempt (current_user key request) >>= as_admin request (change_status request)

abbrev pub new_pin : Request → M (Unit {0})
new_pin request = do hash ← hash_pin (request.form_value "pin"); reset_pin request.path_id hash

abbrev pub change_pin : Request → User → M Response
change_pin request admin =
    attempt (new_pin request)
    >>= recorded request.path_id "RESET_PIN" admin "" "/users?notice=PIN+reset"

-- `resetUserPIN`.
unfoldable pub reset_user_pin : String → Request → M Response
reset_user_pin key request =
    attempt (current_user key request) >>= as_admin request (change_pin request)

-- The extension of a path from its last dot on, where no slash follows it.
