-- ===== src/Http/Router/Sound.antt =====
-- internal/http/server.go: the invariant of gate passes along any sequence of requests.
use mgp.Base.{◌≡◌, refl, sym, subst, true, String, ap}
use mgp.Rbac.{Action}
use mgp.Database.{World, M, ◌>>=◌}
use mgp.Database.Tables.{Db}
use mgp.Gatepass.Invariant.{Inv}
use mgp.Auth.Users.{User}
use mgp.Sessions.{Session}
use mgp.Masterdata.{create_inventory, archive_inventory, create_consignee, archive_consignee}
use mgp.Http.{Server, Request, Response, attempt, current_user, or_login, or_unauthenticated}
use mgp.Http.Login.{login, logout}
use mgp.Http.Accounts.{change_status, change_pin, set_user_status, reset_user_pin, as_admin}
use mgp.Http.NewAccount.{create_user_as, create_user}
use mgp.Http.Organization.{change_settings, update_settings}
use mgp.Http.Master.{
  listed, as_editor, item_of_request, consignee_of_request, import_file, create_inventory_item,
  import_inventory_file, archive_inventory_item, create_consignee_entry, archive_consignee_entry,
}
use mgp.Http.Passes.{
  create_gate_pass_for, update_gate_pass_for, create_revision_for, create_gate_pass,
  update_gate_pass, revise_gate_pass,
}
use mgp.Http.Router.{Route, handle}
use mgp.Http.Router.Reads.{OnlyDocuments, is_get, handle-OnlyDocuments}
use mgp.Http.Router.Ledger.{
  Same-Near, Near-Inv, Quiet, create_inventory-Quiet, archive_inventory-Quiet,
  create_consignee-Quiet, archive_consignee-Quiet, login-Quiet, logout-Quiet,
}
use mgp.Http.Router.Invariant.{Safe, Quiet-Safe}
use mgp.Http.Router.Serves.{
  for_current, or_login-Safe, or_unauthenticated-Safe, as_admin-Safe, as_editor-Safe, workflow-Safe,
  create_gate_pass_for-Safe, update_gate_pass_for-Safe, create_revision_for-Safe,
}
use mgp.Http.Router.Changes.{
  change-Safe, change_status-Safe, change_pin-Safe, change_settings-Safe, create_user_as-Safe,
  import_file-Safe,
}

OnlyDocuments-Inv : (old new : Db) → OnlyDocuments old new → Inv old → Inv new
OnlyDocuments-Inv old new h =
    Near-Inv old new (Same-Near old new (ap (λ db. db.passes) h, ap (λ db. db.audit_events) h))

-- A route that only reads.
reads :
    (server : Server) (route : Route) (request : Request)
    → is_get route ≡ true
    → Safe (handle server route request)
reads server route request e w valid =
    OnlyDocuments-Inv w.db (handle server route request w).1.db
      (handle-OnlyDocuments server route request w e) valid

module _ (key : String) (request : Request) where
  by_user :
      (act : User → Session → M Response)
      → ((user : User) (session : Session) → Safe (act user session))
      → Safe (attempt (current_user key request) >>= or_login act)
  by_user act h = for_current key request (or_login act) (or_login-Safe act h)

  by_client :
      (act : User → Session → M Response)
      → ((user : User) (session : Session) → Safe (act user session))
      → Safe (attempt (current_user key request) >>= or_unauthenticated act)
  by_client act h = for_current key request (or_unauthenticated act) (or_unauthenticated-Safe act h)

  by_admin :
      (act : User → M Response)
      → ((user : User) → Safe (act user))
      → Safe (attempt (current_user key request) >>= as_admin request act)
  by_admin act h = for_current key request (as_admin request act) (as_admin-Safe request act h)

  by_editor :
      {A : Type 0} (m : M A) (path notice : String)
      → Quiet m
      → Safe (
          attempt (current_user key request)
          >>= or_login (as_editor request (attempt m >>= listed path notice)))
  by_editor m path notice h =
      let act = attempt m >>= listed path notice in
      by_user (as_editor request act) (as_editor-Safe request act (change-Safe m path notice h))

-- Every request, whatever it holds, whoever it is from and whichever calls fail, keeps the invariant
-- of gate passes.
pub handle-Inv :
    (server : Server) (route : Route) (request : Request) (w : World)
    → Inv w.db
    → Inv (handle server route request w).1.db
unfolding handle create_gate_pass update_gate_pass revise_gate_pass create_user set_user_status
    reset_user_pin create_inventory_item import_inventory_file archive_inventory_item
    create_consignee_entry archive_consignee_entry update_settings
handle-Inv server Route.login request w valid =
    Quiet-Safe (login server.key request) (login-Quiet server.key request) w valid
handle-Inv server Route.logout request w valid =
    Quiet-Safe (logout server.key request) (logout-Quiet server.key request) w valid
handle-Inv server Route.create_gate_pass request w valid =
    by_user server.key request (create_gate_pass_for server.field_order request)
      (create_gate_pass_for-Safe server.field_order request) w valid
handle-Inv server Route.update_gate_pass request w valid =
    by_client server.key request (update_gate_pass_for server.field_order request)
      (update_gate_pass_for-Safe server.field_order request) w valid
handle-Inv server Route.create_revision request w valid =
    by_user server.key request (create_revision_for server.field_order request)
      (create_revision_for-Safe server.field_order request) w valid
handle-Inv server Route.submit request w valid =
    workflow-Safe request server.key Action.submit w valid
handle-Inv server Route.approve request w valid =
    workflow-Safe request server.key Action.approve w valid
handle-Inv server Route.reject request w valid =
    workflow-Safe request server.key Action.reject w valid
handle-Inv server Route.pass_out request w valid =
    workflow-Safe request server.key Action.pass_out w valid
handle-Inv server Route.return request w valid =
    workflow-Safe request server.key Action.return w valid
handle-Inv server Route.create_user request w valid =
    by_admin server.key request (create_user_as server.document_dir request)
      (create_user_as-Safe request server.document_dir) w valid
handle-Inv server Route.set_user_status request w valid =
    by_admin server.key request (change_status request) (change_status-Safe request) w valid
handle-Inv server Route.reset_user_pin request w valid =
    by_admin server.key request (change_pin request) (change_pin-Safe request) w valid
handle-Inv server Route.update_settings request w valid =
    by_admin server.key request (change_settings request) (change_settings-Safe request) w valid
handle-Inv server Route.create_inventory request w valid =
    by_editor server.key request (create_inventory (item_of_request request)) "/inventory"
      "Inventory+item+created" (create_inventory-Quiet (item_of_request request)) w valid
handle-Inv server Route.import_inventory request w valid =
    let act = import_file (request.form_file "csv") in
    by_user server.key request (as_editor request act)
      (as_editor-Safe request act (import_file-Safe request (request.form_file "csv"))) w valid
handle-Inv server Route.archive_inventory request w valid =
    by_editor server.key request (archive_inventory request.path_id) "/inventory"
      "Inventory+item+archived" (archive_inventory-Quiet request.path_id) w valid
handle-Inv server Route.create_consignee request w valid =
    by_editor server.key request (create_consignee (consignee_of_request request)) "/consignees"
      "Consignee+created" (create_consignee-Quiet (consignee_of_request request)) w valid
handle-Inv server Route.archive_consignee request w valid =
    by_editor server.key request (archive_consignee request.path_id) "/consignees"
      "Consignee+archived" (archive_consignee-Quiet request.path_id) w valid
handle-Inv server Route.live request w valid = reads server Route.live request refl w valid
handle-Inv server Route.ready request w valid = reads server Route.ready request refl w valid
handle-Inv server Route.home request w valid = reads server Route.home request refl w valid
handle-Inv server Route.login_page request w valid =
    reads server Route.login_page request refl w valid
handle-Inv server Route.dashboard request w valid =
    reads server Route.dashboard request refl w valid
handle-Inv server Route.gate_passes request w valid =
    reads server Route.gate_passes request refl w valid
handle-Inv server Route.new_gate_pass request w valid =
    reads server Route.new_gate_pass request refl w valid
handle-Inv server Route.gate_pass_detail request w valid =
    reads server Route.gate_pass_detail request refl w valid
handle-Inv server Route.pass_pdf request w valid = reads server Route.pass_pdf request refl w valid
handle-Inv server Route.users request w valid = reads server Route.users request refl w valid
handle-Inv server Route.inventory request w valid =
    reads server Route.inventory request refl w valid
handle-Inv server Route.export_inventory request w valid =
    reads server Route.export_inventory request refl w valid
handle-Inv server Route.consignees request w valid =
    reads server Route.consignees request refl w valid
handle-Inv server Route.export_consignees request w valid =
    reads server Route.export_consignees request refl w valid
handle-Inv server Route.reports request w valid = reads server Route.reports request refl w valid
handle-Inv server Route.audit_log request w valid =
    reads server Route.audit_log request refl w valid
handle-Inv server Route.export_audit request w valid =
    reads server Route.export_audit request refl w valid
handle-Inv server Route.settings request w valid = reads server Route.settings request refl w valid

-- The tables that requests lead to: each is handled in a world of its own, with its own clock, faults
-- and foreign functions, on the tables that the requests before it left.
pub data Served (start : Db) : Db → Type 0 where
  idle : Served start start
  request_served :
      {db : Db} (w : World) (server : Server) (route : Route) (request : Request)
      → Served start db
      → w.db ≡ db
      → Served start (handle server route request w).1.db

-- From tables that satisfy the invariant, any sequence of requests to any routes, from anybody, at
-- any times and under any faults of the driver and of the operating system, leads to tables that
-- satisfy it: keys and numbers of passes are unique, the columns of every pass fit its status, and
-- the audit log of each pass replays, without a gap, to its status.
pub Served-Inv : {start db : Db} → Inv start → Served start db → Inv db
Served-Inv valid idle = valid
Served-Inv valid (request_served w server route request before same) =
    handle-Inv server route request w (subst Inv (sym same) (Served-Inv valid before))
