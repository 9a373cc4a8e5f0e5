-- ===== src/Http/Router.antt =====
-- internal/http/server.go and internal/http/middleware/security.go: the routes of the server. The
-- patterns and the handlers stand in the order of `Handler`; which pattern fits a request is up to
-- net/http. The files under "GET /static/" are no part of the model.
pub mod Acts
pub mod Ledger
pub mod Invariant
pub mod Serves
pub mod Changes
pub mod Sound
pub mod Reads
pub mod Guarded
pub mod Steps
use mgp.Base.{String, List, [], ◌∷◌, ok}
use mgp.Rbac.{Action}
use mgp.Database.{M, pure, ◌>>=◌}
use mgp.Http.{Server, Request, Response}
use mgp.Http.Login
use mgp.Http.Workflow
use mgp.Http.Accounts
use mgp.Http.NewAccount
use mgp.Http.Pages
use mgp.Http.Listings
use mgp.Http.NewPass
use mgp.Http.Passes
use mgp.Http.Master
use mgp.Http.Export
use mgp.Http.Organization

pub data Route : Type 0 where
  live ready home login_page login logout dashboard gate_passes new_gate_pass : Route
  create_gate_pass update_gate_pass gate_pass_detail pass_pdf create_revision : Route
  submit approve reject pass_out return : Route
  users create_user set_user_status reset_user_pin : Route
  inventory export_inventory create_inventory import_inventory archive_inventory : Route
  consignees export_consignees create_consignee archive_consignee : Route
  reports audit_log export_audit settings update_settings : Route

abbrev pub pattern_of : Route → String × String
pattern_of Route.live = ("GET", "/health/live")
pattern_of Route.ready = ("GET", "/health/ready")
pattern_of Route.home = ("GET", "/")
pattern_of Route.login_page = ("GET", "/login")
pattern_of Route.login = ("POST", "/login")
pattern_of Route.logout = ("POST", "/logout")
pattern_of Route.dashboard = ("GET", "/dashboard")
pattern_of Route.gate_passes = ("GET", "/gate-passes")
pattern_of Route.new_gate_pass = ("GET", "/gate-passes/new")
pattern_of Route.create_gate_pass = ("POST", "/gate-passes")
pattern_of Route.update_gate_pass = ("PATCH", "/gate-passes/{id}")
pattern_of Route.gate_pass_detail = ("GET", "/gate-passes/{id}")
pattern_of Route.pass_pdf = ("GET", "/gate-passes/{id}/pdf")
pattern_of Route.create_revision = ("POST", "/gate-passes/{id}/revision")
pattern_of Route.submit = ("POST", "/gate-passes/{id}/submit")
pattern_of Route.approve = ("POST", "/gate-passes/{id}/approve")
pattern_of Route.reject = ("POST", "/gate-passes/{id}/reject")
pattern_of Route.pass_out = ("POST", "/gate-passes/{id}/pass-out")
pattern_of Route.return = ("POST", "/gate-passes/{id}/return")
pattern_of Route.users = ("GET", "/users")
pattern_of Route.create_user = ("POST", "/users")
pattern_of Route.set_user_status = ("POST", "/users/{id}/status")
pattern_of Route.reset_user_pin = ("POST", "/users/{id}/reset-pin")
pattern_of Route.inventory = ("GET", "/inventory")
pattern_of Route.export_inventory = ("GET", "/inventory/export")
pattern_of Route.create_inventory = ("POST", "/inventory")
pattern_of Route.import_inventory = ("POST", "/inventory/import")
pattern_of Route.archive_inventory = ("POST", "/inventory/{id}/archive")
pattern_of Route.consignees = ("GET", "/consignees")
pattern_of Route.export_consignees = ("GET", "/consignees/export")
pattern_of Route.create_consignee = ("POST", "/consignees")
pattern_of Route.archive_consignee = ("POST", "/consignees/{id}/archive")
pattern_of Route.reports = ("GET", "/reports")
pattern_of Route.audit_log = ("GET", "/audit")
pattern_of Route.export_audit = ("GET", "/audit/export")
pattern_of Route.settings = ("GET", "/settings")
pattern_of Route.update_settings = ("POST", "/settings")

-- The handler of a route.
unfoldable pub handle : Server → Route → Request → M Response
handle server Route.live request = pure (Response.plain "ok")
handle server Route.ready request = Pages.ready
handle server Route.home request = Pages.home server.key request
handle server Route.login_page request = Pages.login_page server.shows_test_credentials request
handle server Route.login request = Login.login server.key request
handle server Route.logout request = Login.logout server.key request
handle server Route.dashboard request = Pages.dashboard server.key request
handle server Route.gate_passes request = Pages.gate_passes server.key request
handle server Route.new_gate_pass request = NewPass.new_gate_pass server.key request
handle server Route.create_gate_pass request =
    Passes.create_gate_pass server.field_order server.key request
handle server Route.update_gate_pass request =
    Passes.update_gate_pass server.field_order server.key request
handle server Route.gate_pass_detail request = Pages.gate_pass_detail server.key request
handle server Route.pass_pdf request = Passes.pass_pdf server.document_dir server.key request
handle server Route.create_revision request =
    Passes.revise_gate_pass server.field_order server.key request
handle server Route.submit request = Workflow.submit_gate_pass server.key request
handle server Route.approve request = Workflow.approve_gate_pass server.key request
handle server Route.reject request = Workflow.reject_gate_pass server.key request
handle server Route.pass_out request = Workflow.pass_out_gate_pass server.key request
handle server Route.return request = Workflow.return_gate_pass server.key request
handle server Route.users request = Listings.users server.key request
handle server Route.create_user request =
    NewAccount.create_user server.document_dir server.key request
handle server Route.set_user_status request = Accounts.set_user_status server.key request
handle server Route.reset_user_pin request = Accounts.reset_user_pin server.key request
handle server Route.inventory request = Listings.inventory server.key request
handle server Route.export_inventory request = Export.export_inventory server.key request
handle server Route.create_inventory request = Master.create_inventory_item server.key request
handle server Route.import_inventory request = Master.import_inventory_file server.key request
handle server Route.archive_inventory request = Master.archive_inventory_item server.key request
handle server Route.consignees request = Listings.consignees server.key request
handle server Route.export_consignees request = Export.export_consignees server.key request
handle server Route.create_consignee request = Master.create_consignee_entry server.key request
handle server Route.archive_consignee request = Master.archive_consignee_entry server.key request
handle server Route.reports request = Pages.reports server.key request
handle server Route.audit_log request = Listings.audit_log server.key request
handle server Route.export_audit request = Export.export_audit server.key request
handle server Route.settings request = Listings.settings server.key request
handle server Route.update_settings request = Organization.update_settings server.key request

-- `SecurityHeaders`: what stands in front of every response.
abbrev pub security_headers : List (String × String)
security_headers =
    (
      "Content-Security-Policy",
      "default-src 'self'; script-src 'self'; style-src 'self'; img-src 'self' data:; base-uri 'self'; frame-ancestors 'none'; form-action 'self'",
    )
    ∷ ("Referrer-Policy", "same-origin")
    ∷ ("X-Content-Type-Options", "nosniff")
    ∷ ("X-Frame-Options", "DENY")
    ∷ ("Permissions-Policy", "camera=(), microphone=(), geolocation=()")
    ∷ []

pub record Reply : Type 0 where
  pub headers : List (String × String)
  pub response : Response

abbrev pub with_headers : Response → Reply
with_headers response = record { headers = security_headers; response = response }

-- `Handler`, without its log.
unfoldable pub serve : Server → Route → Request → M Reply
serve server route request =
    handle server route request >>= λ response. pure (with_headers response)
