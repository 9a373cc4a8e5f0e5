-- ===== src/Http/Organization.antt =====
-- internal/http/server.go: the handler that changes the settings of the organization.
use Prim.Native.String.{◌++◌}
use mgp.Base.{String, Result, ok, err, error_text}
use mgp.Database.{M, pure, ◌>>=◌}
use mgp.Auth.Users.{User}
use mgp.Settings.{Organization, update_organization}
use mgp.Http.{Request, Response, attempt, current_user}
use mgp.Http.Workflow.{url_query}
use mgp.Http.Accounts.{as_admin, record_account_audit, audit_answer}

abbrev pub organization_of_request : Request → Organization
organization_of_request request = record {
  application_name = request.form_value "app_title";
  name = request.form_value "name";
  address = request.form_value "address";
  default_directorate = request.form_value "default_directorate";
  default_project = request.form_value "default_project";
  default_copy = request.form_value "default_copy";
  allow_manual_pass_no = request.form_value "allow_manual_pass_no";
  session_minutes = request.form_value "session_minutes";
  logo = request.form_value "logo";
}

-- The event after the change, or the error of the change.
abbrev pub settings_changed : User → Result (Unit {0}) → M Response
settings_changed admin (err e) =
    pure (Response.redirect ("/settings?error=" ++ url_query (error_text e)))
settings_changed admin (ok _) = do
  result ← attempt (record_account_audit admin.id "UPDATE_ORGANIZATION" admin "")
  pure (audit_answer "/settings?notice=Organization+settings+saved" result)

abbrev pub change_settings : Request → User → M Response
change_settings request admin =
    attempt (update_organization (organization_of_request request)) >>= settings_changed admin

-- `updateSettings`.
unfoldable pub update_settings : String → Request → M Response
update_settings key request =
    attempt (current_user key request) >>= as_admin request (change_settings request)
