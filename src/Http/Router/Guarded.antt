-- ===== src/Http/Router/Guarded.antt =====
-- internal/http/server.go: which requests can change the tables.
use mgp.Base.{
  ◌≡◌, ◌⊎◌, ◌≢◌, inl, inr, refl, sym, ap, ◌∙◌, Bool, Bool-cases, true, false, ◌&&◌, ◌||◌, ◌==◌,
  Result, ok, err,
}
use mgp.Rbac.{Role, Action, role_equality}
use mgp.Database.{World, M, continue, ◌>>=◌}
use mgp.Database.Tables.{Db}
use mgp.Auth.Users.{User}
use mgp.Sessions.{Session}
use mgp.Http.{Server, Request, Response, attempt, caught, current_user, valid_csrf, or_login}
use mgp.Http.Workflow.{workflow}
use mgp.Http.Workflow.Guarded.{From, current_user-db, current_user-active, workflow-guarded}
use mgp.Http.Master.{
  can_edit_master, as_editor, create_inventory_item, import_inventory_file, archive_inventory_item,
  create_consignee_entry, archive_consignee_entry,
}
use mgp.Http.Passes.{
  with_token, create_gate_pass, update_gate_pass, update_gate_pass_for, revise_gate_pass,
}
use mgp.Http.Accounts.{as_admin, change_status, change_pin, set_user_status, reset_user_pin}
use mgp.Http.NewAccount.{create_user, create_user_as}
use mgp.Http.Organization.{change_settings, update_settings}
use mgp.Http.Accounts.Administered.{Administered, and-parts, as_admin-Administered}
use mgp.Http.Login.{logout, logout_as}
use mgp.Http.Router.{Route, handle}
use mgp.Http.Router.Acts.{or_login-lift, or_unauthenticated-lift}
use mgp.Http.Router.Reads.{is_get}

-- The roles that may change tables by a route.
abbrev pub may_change : Route → Role → Bool
may_change Route.create_user role = role == Role.admin
may_change Route.set_user_status role = role == Role.admin
may_change Route.reset_user_pin role = role == Role.admin
may_change Route.update_settings role = role == Role.admin
may_change Route.create_inventory role = role == Role.admin || role == Role.inventory
may_change Route.import_inventory role = role == Role.admin || role == Role.inventory
may_change Route.archive_inventory role = role == Role.admin || role == Role.inventory
may_change Route.create_consignee role = role == Role.admin || role == Role.inventory
may_change Route.archive_consignee role = role == Role.admin || role == Role.inventory
may_change _ role = true

module _ (server : Server) (route : Route) (request : Request) (w : World) where
  -- Either the tables are the old ones, or the request is from an active user whose role may change
  -- tables by the route and who sent their session's token.
  abbrev pub Permitted : Db → Type 0
  Permitted db =
      (db ≡ w.db)
      ⊎ ((user : User) × (session : Session) × From server.key request w user session
          × (may_change route user.role ≡ true))

  -- A user with the token and a role that may change tables.
  permit :
      (user : User) (session : Session) (db : Db)
      → (current_user server.key request w).0 ≡ ok (user, session)
      → valid_csrf request session ≡ true
      → may_change route user.role ≡ true
      → Permitted db
  permit user session db known token role = inr (
    user,
    session,
    (known, current_user-active server.key request w user session known, token),
    role,
  )

  -- A handler that wants the token.
  tokened :
      ((role : Role) → may_change route role ≡ true)
      → (act : M Response) (user : User) (session : Session) (v : World)
      → (current_user server.key request w).0 ≡ ok (user, session)
      → v.db ≡ w.db
      → Permitted (with_token request session act v).1.db
  tokened any_role act user session v known same = elim (Bool-cases (valid_csrf request session)) [
    | inl e ↦ permit user session _ known e (any_role user.role)
    | inr e ↦ inl (rw e same)
  ]

  -- A handler that wants the token and a role that edits master data.
  edited :
      ((role : Role) → (role == Role.admin || role == Role.inventory) ≡ may_change route role)
      → (act : M Response) (user : User) (session : Session) (v : World)
      → (current_user server.key request w).0 ≡ ok (user, session)
      → v.db ≡ w.db
      → Permitted (as_editor request act user session v).1.db
  edited roles act user session v known same =
      elim (Bool-cases (can_edit_master user && valid_csrf request session)) [
        | inl e ↦
            let (role, token) = and-parts (can_edit_master user) (valid_csrf request session) e in
            permit user session _ known token (sym (roles user.role) ∙ role)
        | inr e ↦ inl (rw e same)
      ]

  -- A handler for administrators.
  administered :
      may_change route Role.admin ≡ true
      → (db : Db) → Administered server.key request w db
      → Permitted db
  administered allowed db (inl same) = inl same
  administered allowed db (inr (admin, session, from, role)) =
      inr (admin, session, from, ap (may_change route) role ∙ allowed)

  by_admin :
      may_change route Role.admin ≡ true
      → (act : User → M Response)
      → Permitted ((attempt (current_user server.key request) >>= as_admin request act) w).1.db
  by_admin allowed act =
      administered allowed _
        (as_admin-Administered server.key request w act (current_user server.key request w) refl)

  -- A workflow handler.
  worked :
      ((role : Role) → may_change route role ≡ true)
      → (action : Action) → Permitted (workflow server.key action request w).1.db
  worked any_role action = elim (workflow-guarded server.key action request w) [
    | inl same ↦ inl same
    | inr (user, session, v, from, _, _) ↦ inr (user, session, from, any_role user.role)
  ]

  logout_as-Permitted :
      ((role : Role) → may_change route role ≡ true)
      → (r : Result (User × Session) × World) → current_user server.key request w ≡ r
      → Permitted (continue (caught r) (logout_as server.key request)).1.db
  logout_as-Permitted any_role (err e, v) h =
      inl (sym (ap (λ r. r.1.db) h) ∙ current_user-db server.key request w)
  logout_as-Permitted any_role (ok (user, session), v) h =
      elim (Bool-cases (valid_csrf request session)) [
        | inl e ↦ permit user session _ (ap (λ r. r.0) h) e (any_role user.role)
        | inr e ↦ inl (rw e (sym (ap (λ r. r.1.db) h) ∙ current_user-db server.key request w))
      ]

  -- A handler of master data.
  for_editor :
      ((role : Role) → (role == Role.admin || role == Role.inventory) ≡ may_change route role)
      → (act : M Response)
      → Permitted
          ((attempt (current_user server.key request) >>= or_login (as_editor request act)) w).1.db
  for_editor roles act =
      or_login-lift server.key request w Permitted (inl refl) (as_editor request act)
        (current_user server.key request w) refl (edited roles act)

  for_holder :
      ((role : Role) → may_change route role ≡ true)
      → (act : User → Session → M Response)
      → Permitted
          ((attempt (current_user server.key request)
              >>= or_login λ user session. with_token request session (act user session))
            w).1.db
  for_holder any_role act =
      or_login-lift server.key request w Permitted (inl refl) _ (current_user server.key request w)
        refl λ user session. tokened any_role (act user session) user session

-- A request by any route whose method is not GET, except to sign in, changes no table, or it is
-- from an active user, known by the request's cookie, who sent their session's token with it and
-- has a role that may use the route: an administrator for accounts and settings, an administrator or
-- a keeper of inventory for master data, and any role for gate passes and for signing out.
pub handle-Permitted :
    (server : Server) (route : Route) (request : Request) (w : World)
    → is_get route ≡ false
    → route ≢ Route.login
    → Permitted server route request w (handle server route request w).1.db
unfolding handle logout create_gate_pass update_gate_pass revise_gate_pass create_user
    set_user_status reset_user_pin create_inventory_item import_inventory_file
    archive_inventory_item create_consignee_entry archive_consignee_entry update_settings
handle-Permitted server Route.login request w h other = elim (other refl) [ ]
handle-Permitted server Route.logout request w h other =
    logout_as-Permitted server Route.logout request w (λ _. refl)
      (current_user server.key request w) refl
handle-Permitted server Route.create_gate_pass request w h other =
    for_holder server Route.create_gate_pass request w (λ _. refl) _
handle-Permitted server Route.update_gate_pass request w h other =
    or_unauthenticated-lift server.key request w (Permitted server Route.update_gate_pass request w)
      (inl refl) (update_gate_pass_for server.field_order request)
      (current_user server.key request w) refl
      λ user session. tokened server Route.update_gate_pass request w (λ _. refl) _ user session
handle-Permitted server Route.create_revision request w h other =
    for_holder server Route.create_revision request w (λ _. refl) _
handle-Permitted server Route.submit request w h other =
    worked server Route.submit request w (λ _. refl) Action.submit
handle-Permitted server Route.approve request w h other =
    worked server Route.approve request w (λ _. refl) Action.approve
handle-Permitted server Route.reject request w h other =
    worked server Route.reject request w (λ _. refl) Action.reject
handle-Permitted server Route.pass_out request w h other =
    worked server Route.pass_out request w (λ _. refl) Action.pass_out
handle-Permitted server Route.return request w h other =
    worked server Route.return request w (λ _. refl) Action.return
handle-Permitted server Route.create_user request w h other =
    by_admin server Route.create_user request w refl (create_user_as server.document_dir request)
handle-Permitted server Route.set_user_status request w h other =
    by_admin server Route.set_user_status request w refl (change_status request)
handle-Permitted server Route.reset_user_pin request w h other =
    by_admin server Route.reset_user_pin request w refl (change_pin request)
handle-Permitted server Route.update_settings request w h other =
    by_admin server Route.update_settings request w refl (change_settings request)
handle-Permitted server Route.create_inventory request w h other =
    for_editor server Route.create_inventory request w (λ _. refl) _
handle-Permitted server Route.import_inventory request w h other =
    for_editor server Route.import_inventory request w (λ _. refl) _
handle-Permitted server Route.archive_inventory request w h other =
    for_editor server Route.archive_inventory request w (λ _. refl) _
handle-Permitted server Route.create_consignee request w h other =
    for_editor server Route.create_consignee request w (λ _. refl) _
handle-Permitted server Route.archive_consignee request w h other =
    for_editor server Route.archive_consignee request w (λ _. refl) _
handle-Permitted server Route.live request w h other = cc
handle-Permitted server Route.ready request w h other = cc
handle-Permitted server Route.home request w h other = cc
handle-Permitted server Route.login_page request w h other = cc
handle-Permitted server Route.dashboard request w h other = cc
handle-Permitted server Route.gate_passes request w h other = cc
handle-Permitted server Route.new_gate_pass request w h other = cc
handle-Permitted server Route.gate_pass_detail request w h other = cc
handle-Permitted server Route.pass_pdf request w h other = cc
handle-Permitted server Route.users request w h other = cc
handle-Permitted server Route.inventory request w h other = cc
handle-Permitted server Route.export_inventory request w h other = cc
handle-Permitted server Route.consignees request w h other = cc
handle-Permitted server Route.export_consignees request w h other = cc
handle-Permitted server Route.reports request w h other = cc
handle-Permitted server Route.audit_log request w h other = cc
handle-Permitted server Route.export_audit request w h other = cc
handle-Permitted server Route.settings request w h other = cc
