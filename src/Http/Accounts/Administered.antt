-- ===== src/Http/Accounts/Administered.antt =====
-- internal/http/server.go: what a handler for administrators can change.
use mgp.Base.{
  ◌≡◌, ◌⊎◌, inl, inr, sym, ap, ◌∙◌, Bool, Bool-cases, true, ◌&&◌, ◌==◌, String, Result, ok, err,
  arith,
}
use mgp.Rbac.{Role, role_equality}
use mgp.Database.{World, M, continue}
use mgp.Database.Tables.{Db}
use mgp.Auth.Users.{User}
use mgp.Sessions.{Session}
use mgp.Http.{Request, Response, caught, current_user, valid_csrf}
use mgp.Http.Workflow.Guarded.{From, current_user-db, current_user-active}
use mgp.Http.Accounts.{as_admin}

role-eq : (role : Role) → (role == Role.admin) ≡ true → role ≡ Role.admin
role-eq role h = ground arith

pub and-parts : (a b : Bool) → (a && b) ≡ true → (a ≡ true) × (b ≡ true)
and-parts a b h = (ground arith, ground arith)

module _ (key : String) (request : Request) (w : World) where
  -- Either the tables are the old ones, or the request is from an active administrator.
  abbrev pub Administered : Db → Type 0
  Administered db =
      (db ≡ w.db)
      ⊎ ((admin : User) × (session : Session) × From key request w admin session
          × (admin.role ≡ Role.admin))

  pub as_admin-Administered :
      (act : User → M Response) (r : Result (User × Session) × World)
      → current_user key request w ≡ r
      → Administered (continue (caught r) (as_admin request act)).1.db
  as_admin-Administered act (err e, v) h =
      inl (sym (ap (λ r. r.1.db) h) ∙ current_user-db key request w)
  as_admin-Administered act (ok (user, session), v) h =
      let same : v.db ≡ w.db = sym (ap (λ r. r.1.db) h) ∙ current_user-db key request w in
      let known = ap (λ r. r.0) h in
      elim (Bool-cases (user.role == Role.admin && valid_csrf request session)) [
        | inl e ↦
            let (role, token) =
              and-parts (user.role == Role.admin) (valid_csrf request session) e in
            inr (
              user,
              session,
              (known, current_user-active key request w user session known, token),
              role-eq user.role role,
            )
        | inr e ↦ inl (rw e same)
      ]
