-- ===== src/Http/Workflow/Guarded.antt =====
-- internal/http/server.go: who can change a pass through the workflow handlers, and how.
use mgp.Base.{
  ◌≡◌, refl, ◌∙◌, ◌⊎◌, inl, inr, sym, ap, true, Bool-cases, eq_iff, ◌==◌, text_equality, String,
  Result, ok, err, arith,
}
use mgp.Base.Text.{trim_space}
use mgp.Rbac.{Action}
use mgp.Database.{World, statement}
use mgp.Database.Tables.{Db}
use mgp.Auth.Users.{User, find_by_id}
use mgp.Sessions.{Session, get_session}
use mgp.Gatepass.Detail.{find_detail, find_pass_by_id}
use mgp.Gatepass.Store.{transition_by_id}
use mgp.Database.{continue}
use mgp.Gatepass.Detail.{PassDetail}
use mgp.Gatepass.Rows.{is_pass}
use mgp.Http.{Request, attempt, check_active, current_user, valid_csrf, caught}
use mgp.Database.Laws.{>>=-ok}
use mgp.Http.Workflow.{actor_of, workflow_found, workflow_as, workflow}

pub find_detail-db : (picks : _) (w : World) → (find_detail picks w).1.db ≡ w.db
unfolding find_detail statement
find_detail-db picks w = ground arith

pub current_user-db :
    (key : String) (request : Request) (w : World) → (current_user key request w).1.db ≡ w.db
unfolding current_user get_session find_by_id statement
current_user-db key request w = ground arith

-- A request is from an active user, who sent the token of their session.
abbrev pub From : String → Request → World → User → Session → Type 0
From key request w user session =
    ((current_user key request w).0 ≡ ok (user, session))
    × (user.status ≡ "active")
    × (valid_csrf request session ≡ true)

-- The user of a result.
abbrev user_or : User → Result (User × Session) → User
user_or user (ok (user', _)) = user'
user_or user (err _) = user

check_active-active :
    (session : Session) (found : Result User) (w w' : World) {user : User} {session' : Session}
    → check_active session found w ≡ (ok (user, session'), w')
    → user.status ≡ "active"
check_active-active session (err e) w w' h = cc
check_active-active session (ok user') w w' {user} {session'} h =
    elim (Bool-cases (user'.status == "active")) [
      | inl e ↦
          ap (λ u. u.status) (sym (ap (user_or user') (ap (λ r. r.0) (rw e at h))))
          ∙ (eq_iff _ _).0 e
      | inr e ↦ let k = rw e at h in cc
    ]

pub current_user-active :
    (key : String) (request : Request) (w : World) (user : User) (session : Session)
    → (current_user key request w).0 ≡ ok (user, session)
    → user.status ≡ "active"
unfolding current_user
current_user-active key request w user session h =
    let (s, u, _, rest) =
      >>=-ok (get_session key request.cookie) _ w
        (ap (λ r. (r, (current_user key request w).1)) h) in
    let (found, v, _, last) = >>=-ok (attempt (find_by_id s.user_id)) (check_active s) u rest in
    check_active-active s found v _ last

module _ (key : String) (action : Action) (request : Request) (w : World) where
  -- The tables after the handler are those of a transition that the user of the request makes.
  abbrev ByUser : Db → Type 0
  ByUser db =
      (user : User) × (session : Session) × (v : World) × From key request w user session
      × (v.db ≡ w.db)
      × (db
          ≡ (transition_by_id (actor_of user) request.path_id action
              (trim_space (request.form_value "reason")) v).1.db)

  workflow_found-guarded :
      (user : User) (session : Session) (r : Result PassDetail × World)
      → From key request w user session
      → r.1.db ≡ w.db
      → ((continue (caught r) (workflow_found user request action)).1.db ≡ w.db)
        ⊎ ByUser (continue (caught r) (workflow_found user request action)).1.db
  workflow_found-guarded user session (err e, v) from same = inl same
  workflow_found-guarded user session (ok detail, v) from same =
      inr (user, session, v, from, same, refl)

  workflow_as-guarded :
      (r : Result (User × Session) × World)
      → current_user key request w ≡ r
      → ((continue (caught r) (workflow_as request action)).1.db ≡ w.db)
        ⊎ ByUser (continue (caught r) (workflow_as request action)).1.db
  workflow_as-guarded (err e, v) h = inl (sym (ap (λ r. r.1.db) h) ∙ current_user-db key request w)
  workflow_as-guarded (ok (user, session), v) h =
      let same : v.db ≡ w.db = sym (ap (λ r. r.1.db) h) ∙ current_user-db key request w in
      let known = ap (λ r. r.0) h in
      elim (Bool-cases (valid_csrf request session)) [
        | inl e ↦ rw e (
            workflow_found-guarded user session (find_pass_by_id request.path_id v)
              (known, current_user-active key request w user session known, e)
              (find_detail-db (is_pass request.path_id) v ∙ same))
        | inr e ↦ rw e (inl same)
      ]

-- A workflow handler changes nothing, or an active user, signed in by the request's cookie, sent
-- their session's token with it, and the tables become those that a transition of the store by
-- this user leads to, of the request's pass and by the handler's action.
pub workflow-guarded :
    (key : String) (action : Action) (request : Request) (w : World)
    → ((workflow key action request w).1.db ≡ w.db)
      ⊎ ((user : User) × (session : Session) × (v : World) × From key request w user session
          × (v.db ≡ w.db)
          × ((workflow key action request w).1.db
              ≡ (transition_by_id
                  (actor_of user)
                  request.path_id
                  action
                  (trim_space (request.form_value "reason"))
                  v).1.db))
unfolding workflow
workflow-guarded key action request w =
    workflow_as-guarded key action request w (current_user key request w) refl
