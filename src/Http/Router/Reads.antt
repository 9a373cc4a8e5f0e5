-- ===== src/Http/Router/Reads.antt =====
-- internal/http/server.go: what the requests that only read leave alone.
use mgp.Base.{
  ◌≡◌, inl, inr, refl, sym, ◌∙◌, subst, Bool, Bool-cases, true, not, ◌&&◌, ◌==◌, text_equality,
  String, Result, ok, err, arith,
}
use mgp.Rbac.{Role, role_equality}
use mgp.Database.{World, M, ◌>>=◌}
use mgp.Database.Tables.{Db}
use mgp.Auth.Users.{User}
use mgp.Sessions.{Session}
use mgp.Http.{Server, Request, Response, attempt, current_user, or_login, or_unauthenticated}
use mgp.Database.{statement}
use mgp.Http.Pages.{
  ready, home, to_dashboard, login_page, dashboard, gate_passes, reports, gate_pass_detail,
  is_released_text, show_dashboard, show_register, show_report, show_detail,
}
use mgp.Http.Listings.{
  users, audit_log, settings, inventory, consignees, show_users, show_audit, show_settings,
  show_inventory, show_consignees,
}
use mgp.Http.NewPass.{new_gate_pass, new_gate_pass_for}
use mgp.Http.Export.{
  export_inventory, export_consignees, export_audit, give_inventory, give_consignees, give_audit,
}
use mgp.Documents.{upsert_document, generate_pass_pdf}
use mgp.Database.{disk}
use mgp.Rbac.{Actor}
use mgp.Gatepass.Detail.{PassDetail}
use mgp.Http.Passes.{print_found, pass_pdf_for, pass_pdf}
use mgp.Http.Workflow.Guarded.{find_detail-db}
use mgp.Http.Router.{Route, pattern_of, handle}
use mgp.Gatepass.Rows.{is_pass}
use mgp.Http.Workflow.{actor_of}
use mgp.Gatepass.Detail.{find_pass_by_id}
use mgp.Http.Router.Acts.{
  or_login-lift, or_unauthenticated-lift, show_dashboard-db, show_register-db, show_report-db,
  show_detail-db, show_users-db, show_audit-db, show_settings-db, show_inventory-db,
  show_consignees-db, new_gate_pass_for-db, give_inventory-db, give_consignees-db, give_audit-db,
}

-- Tables of which only the documents may differ from others.
abbrev pub OnlyDocuments : Db → Db → Type 0
OnlyDocuments old new = new ≡ record old { documents = new.documents }

only-same : (old new : Db) → new ≡ old → OnlyDocuments old new
only-same old new h = subst (λ db. OnlyDocuments old db) (sym h) refl

generate_pass_pdf-OnlyDocuments :
    (root : String) (detail : PassDetail) (actor : Actor) (draft : Bool) (w : World)
    → OnlyDocuments w.db (generate_pass_pdf root detail actor draft w).1.db
unfolding generate_pass_pdf statement disk upsert_document
generate_pass_pdf-OnlyDocuments root detail actor draft w = ground arith

print_found-OnlyDocuments :
    (root : String) (user : User) (draft : Bool) (found : Result PassDetail) (w : World)
    → OnlyDocuments w.db (print_found root user draft found w).1.db
print_found-OnlyDocuments root user draft (err e) w = refl
print_found-OnlyDocuments root user draft (ok detail) w =
    let filed = generate_pass_pdf-OnlyDocuments root detail (actor_of user) draft w in
    elim (Bool-cases (not draft && not (is_released_text detail.status))) [
      | inl e ↦ rw e refl
      | inr e ↦
          elim (Bool-cases (user.role == Role.security && not (is_released_text detail.status))) [
            | inl d ↦ rw (e, d) refl
            | inr d ↦ rw (e, d) filed
          ]
    ]

pass_pdf_for-OnlyDocuments :
    (root : String) (request : Request) (user : User) (session : Session) (w : World)
    → OnlyDocuments w.db (pass_pdf_for root request user session w).1.db
pass_pdf_for-OnlyDocuments root request user session w =
    let draft = request.query_value "draft" == "true" in
    let found = find_pass_by_id request.path_id w in
    subst (λ db. OnlyDocuments db (pass_pdf_for root request user session w).1.db)
      (find_detail-db (is_pass request.path_id) w)
      (print_found-OnlyDocuments root user draft found.0 found.1)

ready-db : (w : World) → (ready w).1.db ≡ w.db
unfolding ready statement
ready-db w = ground arith

-- `GET` in the pattern.
abbrev pub is_get : Route → Bool
is_get route = (pattern_of route).0 == "GET"

module _ (server : Server) (request : Request) (w : World) where
  for_user :
      (act : User → Session → M Response)
      → ((user : User) (session : Session) (v : World) → (act user session v).1.db ≡ v.db)
      → OnlyDocuments w.db ((attempt (current_user server.key request) >>= or_login act) w).1.db
  for_user act same =
      or_login-lift server.key request w (OnlyDocuments w.db) refl act
        (current_user server.key request w) refl
        λ user session v _ h. only-same w.db _ (same user session v ∙ h)

  as_exporter :
      (act : User → Session → M Response)
      → ((user : User) (session : Session) (v : World) → (act user session v).1.db ≡ v.db)
      → OnlyDocuments w.db
          ((attempt (current_user server.key request) >>= or_unauthenticated act) w).1.db
  as_exporter act same =
      or_unauthenticated-lift server.key request w (OnlyDocuments w.db) refl act
        (current_user server.key request w) refl
        λ user session v _ h. only-same w.db _ (same user session v ∙ h)

  pass_pdf-OnlyDocuments :
      OnlyDocuments w.db (pass_pdf server.document_dir server.key request w).1.db
  unfolding pass_pdf
  pass_pdf-OnlyDocuments =
      or_login-lift server.key request w (OnlyDocuments w.db) refl
        (pass_pdf_for server.document_dir request) (current_user server.key request w) refl
        λ user session v _ h.
          subst
            (λ db. OnlyDocuments db (pass_pdf_for server.document_dir request user session v).1.db)
            h (pass_pdf_for-OnlyDocuments server.document_dir request user session v)

-- Whatever the request holds and whoever it is from, a route whose pattern has the method GET
-- changes no table but that of the documents.
pub handle-OnlyDocuments :
    (server : Server) (route : Route) (request : Request) (w : World)
    → is_get route ≡ true
    → OnlyDocuments w.db (handle server route request w).1.db
unfolding handle home login_page dashboard gate_passes reports gate_pass_detail users audit_log
    settings inventory consignees new_gate_pass export_inventory export_consignees export_audit
handle-OnlyDocuments server Route.live request w h = refl
handle-OnlyDocuments server Route.ready request w h = only-same w.db _ (ready-db w)
handle-OnlyDocuments server Route.home request w h =
    for_user server request w to_dashboard λ _ _ _. refl
handle-OnlyDocuments server Route.login_page request w h = refl
handle-OnlyDocuments server Route.dashboard request w h =
    for_user server request w show_dashboard show_dashboard-db
handle-OnlyDocuments server Route.gate_passes request w h =
    for_user server request w (show_register request) (show_register-db request)
handle-OnlyDocuments server Route.new_gate_pass request w h =
    for_user server request w (new_gate_pass_for request) (new_gate_pass_for-db request)
handle-OnlyDocuments server Route.gate_pass_detail request w h =
    for_user server request w (show_detail request) (show_detail-db request)
handle-OnlyDocuments server Route.pass_pdf request w h = pass_pdf-OnlyDocuments server request w
handle-OnlyDocuments server Route.users request w h =
    for_user server request w (show_users request) (show_users-db request)
handle-OnlyDocuments server Route.inventory request w h =
    for_user server request w (show_inventory request) (show_inventory-db request)
handle-OnlyDocuments server Route.export_inventory request w h =
    as_exporter server request w give_inventory give_inventory-db
handle-OnlyDocuments server Route.consignees request w h =
    for_user server request w (show_consignees request) (show_consignees-db request)
handle-OnlyDocuments server Route.export_consignees request w h =
    as_exporter server request w give_consignees give_consignees-db
handle-OnlyDocuments server Route.reports request w h =
    for_user server request w show_report show_report-db
handle-OnlyDocuments server Route.audit_log request w h =
    for_user server request w show_audit show_audit-db
handle-OnlyDocuments server Route.export_audit request w h =
    as_exporter server request w give_audit give_audit-db
handle-OnlyDocuments server Route.settings request w h =
    for_user server request w (show_settings request) (show_settings-db request)
handle-OnlyDocuments server Route.login request w h = cc
handle-OnlyDocuments server Route.logout request w h = cc
handle-OnlyDocuments server Route.create_gate_pass request w h = cc
handle-OnlyDocuments server Route.update_gate_pass request w h = cc
handle-OnlyDocuments server Route.create_revision request w h = cc
handle-OnlyDocuments server Route.submit request w h = cc
handle-OnlyDocuments server Route.approve request w h = cc
handle-OnlyDocuments server Route.reject request w h = cc
handle-OnlyDocuments server Route.pass_out request w h = cc
handle-OnlyDocuments server Route.return request w h = cc
handle-OnlyDocuments server Route.create_user request w h = cc
handle-OnlyDocuments server Route.set_user_status request w h = cc
handle-OnlyDocuments server Route.reset_user_pin request w h = cc
handle-OnlyDocuments server Route.create_inventory request w h = cc
handle-OnlyDocuments server Route.import_inventory request w h = cc
handle-OnlyDocuments server Route.archive_inventory request w h = cc
handle-OnlyDocuments server Route.create_consignee request w h = cc
handle-OnlyDocuments server Route.archive_consignee request w h = cc
handle-OnlyDocuments server Route.update_settings request w h = cc
