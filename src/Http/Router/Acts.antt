-- ===== src/Http/Router/Acts.antt =====
-- internal/http/server.go: what a handler does for the user of the session, and which tables the
-- pages leave alone.
use mgp.Base.{◌≡◌, sym, ap, ◌∙◌, subst, text_equality, String, Result, ok, err, arith}
use mgp.Rbac.{role_equality}
use mgp.Database.{World, M, continue}
use mgp.Database.Tables.{Db}
use mgp.Auth.Users.{User}
use mgp.Sessions.{Session}
use mgp.Http.{Request, Response, caught, current_user, or_login, or_unauthenticated}
use mgp.Database.{statement}
use mgp.Gatepass.Detail.{find_detail}
use mgp.Gatepass.Register.{list_rows_filtered, counts}
use mgp.Auth.Users.{list_users}
use mgp.Settings.{get_organization}
use mgp.Masterdata.{list_inventory, list_consignees}
use mgp.Audit.{recent_events}
use mgp.Http.Pages.{show_dashboard, show_register, show_report, show_detail}
use mgp.Http.Listings.{show_users, show_audit, show_settings, show_inventory, show_consignees}
use mgp.Http.NewPass.{new_gate_pass_for}
use mgp.Http.Export.{give_inventory, give_consignees, give_audit}
use mgp.Http.Workflow.Guarded.{current_user-db}

-- What a handler does for the user of the session carries over to the handler.
module _ (key : String) (request : Request) (w : World) (P : Db → Type 0) (base : P w.db) where
  abbrev pub ForUser : (User → Session → M Response) → Type 0
  ForUser act =
      (user : User) (session : Session) (v : World)
      → (current_user key request w).0 ≡ ok (user, session)
      → v.db ≡ w.db
      → P (act user session v).1.db

  pub or_login-lift :
      (act : User → Session → M Response) (r : Result (User × Session) × World)
      → current_user key request w ≡ r
      → ForUser act
      → P (continue (caught r) (or_login act)).1.db
  or_login-lift act (err e, v) h f =
      subst P (sym (sym (ap (λ r. r.1.db) h) ∙ current_user-db key request w)) base
  or_login-lift act (ok (user, session), v) h f =
      f user session v (ap (λ r. r.0) h) (sym (ap (λ r. r.1.db) h) ∙ current_user-db key request w)

  pub or_unauthenticated-lift :
      (act : User → Session → M Response) (r : Result (User × Session) × World)
      → current_user key request w ≡ r
      → ForUser act
      → P (continue (caught r) (or_unauthenticated act)).1.db
  or_unauthenticated-lift act (err e, v) h f =
      subst P (sym (sym (ap (λ r. r.1.db) h) ∙ current_user-db key request w)) base
  or_unauthenticated-lift act (ok (user, session), v) h f =
      f user session v (ap (λ r. r.0) h) (sym (ap (λ r. r.1.db) h) ∙ current_user-db key request w)

pub show_dashboard-db :
    (user : User) (session : Session) (w : World) → (show_dashboard user session w).1.db ≡ w.db
unfolding statement list_rows_filtered counts
show_dashboard-db user session w = ground arith

pub show_register-db :
    (request : Request) (user : User) (session : Session) (w : World)
    → (show_register request user session w).1.db ≡ w.db
unfolding statement list_rows_filtered
show_register-db request user session w = ground arith

pub show_report-db :
    (user : User) (session : Session) (w : World) → (show_report user session w).1.db ≡ w.db
unfolding statement list_rows_filtered counts
show_report-db user session w = ground arith

pub show_detail-db :
    (request : Request) (user : User) (session : Session) (w : World)
    → (show_detail request user session w).1.db ≡ w.db
unfolding statement find_detail
show_detail-db request user session w = ground arith

pub show_users-db :
    (request : Request) (user : User) (session : Session) (w : World)
    → (show_users request user session w).1.db ≡ w.db
unfolding statement list_users
show_users-db request user session w = ground arith

pub show_audit-db :
    (user : User) (session : Session) (w : World) → (show_audit user session w).1.db ≡ w.db
unfolding statement recent_events
show_audit-db user session w = ground arith

pub show_settings-db :
    (request : Request) (user : User) (session : Session) (w : World)
    → (show_settings request user session w).1.db ≡ w.db
unfolding statement get_organization
show_settings-db request user session w = ground arith

pub show_inventory-db :
    (request : Request) (user : User) (session : Session) (w : World)
    → (show_inventory request user session w).1.db ≡ w.db
unfolding statement list_inventory
show_inventory-db request user session w = ground arith

pub show_consignees-db :
    (request : Request) (user : User) (session : Session) (w : World)
    → (show_consignees request user session w).1.db ≡ w.db
unfolding statement list_consignees
show_consignees-db request user session w = ground arith

pub new_gate_pass_for-db :
    (request : Request) (user : User) (session : Session) (w : World)
    → (new_gate_pass_for request user session w).1.db ≡ w.db
unfolding statement find_detail get_organization
new_gate_pass_for-db request user session w = ground arith

pub give_inventory-db :
    (user : User) (session : Session) (w : World) → (give_inventory user session w).1.db ≡ w.db
unfolding statement list_inventory
give_inventory-db user session w = ground arith

pub give_consignees-db :
    (user : User) (session : Session) (w : World) → (give_consignees user session w).1.db ≡ w.db
unfolding statement list_consignees
give_consignees-db user session w = ground arith

pub give_audit-db :
    (user : User) (session : Session) (w : World) → (give_audit user session w).1.db ≡ w.db
unfolding statement recent_events
give_audit-db user session w = ground arith
