-- ===== src/Http/Pages.antt =====
-- internal/http/server.go: the handlers that only show a page.
use Prim.Native.String.{◌++◌}
use mgp.Base.{
  Bool, not, ◌&&◌, ◌==◌, text_equality, String, List, if◌then◌else◌, pos, Result, ok, err,
}
use mgp.Rbac.{Role, role_equality}
use mgp.Database.{M, pure, ◌>>=◌, statement, change}
use mgp.Auth.Users.{User}
use mgp.Sessions.{Session}
use mgp.Gatepass.Detail.{PassDetail, find_pass_by_id}
use mgp.Gatepass.Register.{RegisterRow, Counts, list_rows, list_rows_filtered, counts}
use mgp.View.{PageData, empty_page, Page}
use mgp.Http.{Request, Response, attempt, current_user, or_login, or_failure, page_of, noted_page}
use mgp.Http.Workflow.{actor_of}

abbrev pub readiness : Result (Unit {0}) → Response
readiness (err e) = Response.failure 503 "not ready"
readiness (ok _) = Response.plain "ready"

-- `ready`; `PingContext` is a call of the driver that reads and changes nothing.
unfoldable pub ready : M Response
ready = do answer ← attempt (statement (change λ w. w.db)); pure (readiness answer)

-- `GET /`.
abbrev pub to_dashboard : User → Session → M Response
to_dashboard user session = pure (Response.redirect "/dashboard")

unfoldable pub home : String → Request → M Response
home key request = attempt (current_user key request) >>= or_login to_dashboard

-- `loginPage`, with `ShowTestCredentials` of the configuration.
unfoldable pub login_page : Bool → Request → M Response
login_page shows_test_credentials request = pure (
    Response.page (
      Page.login (record empty_page {
        title = "Sign in";
        error = request.query_value "error";
        notice = request.query_value "notice";
        test_credentials = shows_test_credentials;
      })))

abbrev pub with_counts : PageData → List RegisterRow → Counts → PageData
with_counts page rows counts = record page {
  passes = rows;
  visible = counts.visible;
  pending = counts.pending;
  passed_out = counts.passed_out;
  overdue = counts.overdue;
}

abbrev pub show_dashboard : User → Session → M Response
show_dashboard user session =
    attempt (list_rows (actor_of user) (pos 8))
    >>= or_failure "could not load dashboard" λ rows.
      attempt (counts (actor_of user))
      >>= or_failure "could not load dashboard" λ numbers. pure (
          Response.page (
            Page.dashboard
              (with_counts (page_of "Operational overview" "dashboard" user session) rows numbers)))

-- `dashboard`.
unfoldable pub dashboard : String → Request → M Response
dashboard key request = attempt (current_user key request) >>= or_login show_dashboard

abbrev pub show_register : Request → User → Session → M Response
show_register request user session =
    attempt (
      list_rows_filtered (actor_of user) (pos 200) (request.query_value "q")
        (request.query_value "status") (request.query_value "type"))
    >>= or_failure "could not load gate passes" λ rows. pure (
        Response.page (
          Page.gate_passes (record (noted_page "Gate-pass register" "passes" request user session) {
            passes = rows;
            search = request.query_value "q";
            status_filter = request.query_value "status";
            type_filter = request.query_value "type";
          })))

-- `gatePasses`.
unfoldable pub gate_passes : String → Request → M Response
gate_passes key request = attempt (current_user key request) >>= or_login (show_register request)

abbrev pub show_report : User → Session → M Response
show_report user session =
    attempt (list_rows (actor_of user) (pos 200))
    >>= or_failure "could not load report" λ rows.
      attempt (counts (actor_of user))
      >>= or_failure "could not load report" λ numbers. pure (
          Response.page
            (Page.reports (with_counts (page_of "Reports" "reports" user session) rows numbers)))

-- `reports`.
unfoldable pub reports : String → Request → M Response
reports key request = attempt (current_user key request) >>= or_login show_report

-- The statuses of which an official document exists and that a security officer sees.
abbrev pub is_released_text : String → Bool
is_released_text status =
    not (not (status == "APPROVED") && not (status == "PASSED_OUT") && not (status == "RETURNED"))

abbrev pub detail_page : Request → User → Session → PassDetail → Response
detail_page request user session detail =
    if user.role == Role.security && not (is_released_text detail.status)
    then Response.failure 403 "forbidden"
    else Response.page (
        Page.gate_pass_detail record {
          page = noted_page ("Pass " ++ detail.pass_no) "passes" request user session;
          pass = detail;
        })

abbrev pub detail_answer : Request → User → Session → Result PassDetail → Response
detail_answer request user session (err e) = Response.failure 404 "404 page not found"
detail_answer request user session (ok detail) = detail_page request user session detail

abbrev pub show_detail : Request → User → Session → M Response
show_detail request user session = do
  found ← attempt (find_pass_by_id request.path_id)
  pure (detail_answer request user session found)

-- `gatePassDetail`.
unfoldable pub gate_pass_detail : String → Request → M Response
gate_pass_detail key request = attempt (current_user key request) >>= or_login (show_detail request)
