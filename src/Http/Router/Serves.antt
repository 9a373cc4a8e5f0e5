-- ===== src/Http/Router/Serves.antt =====
-- internal/http/server.go: every handler keeps the invariant of gate passes.
use mgp.Base.{
  ◌≡◌, sym, subst, Bool-cases, inl, inr, String, List, [], Result, Result-cases, ok, err, ◌==◌,
  ◌&&◌, text_equality,
}
use mgp.Base.Text.{trim_space}
use mgp.Rbac.{Role, Action, Actor, role_equality}
use mgp.Database.{World, M, pure, ◌>>=◌}
use mgp.Gatepass.Domain.{Field, Draft}
use mgp.Gatepass.Rows.{is_pass}
use mgp.Gatepass.Detail.{PassDetail, find_pass_by_id}
use mgp.Gatepass.Store.{create_draft, create_revision, update_draft}
use mgp.Gatepass.Invariant.{Inv}
use mgp.Auth.Users.{User}
use mgp.Sessions.{Session}
use mgp.View.{NewPassData}
use mgp.Http.{
  Request, Response, attempt, current_user, valid_csrf, or_login, or_unauthenticated, page_of,
}
use mgp.Http.Workflow.{actor_of, workflow}
use mgp.Http.Workflow.Guarded.{current_user-db, find_detail-db, workflow-guarded}
use mgp.Http.Accounts.{as_admin}
use mgp.Http.Forms.{draft_from_form, pass_data_from_request}
use mgp.Http.Master.{can_edit_master, as_editor}
use mgp.Http.Passes.{
  with_token, with_draft, submit_after, save_draft, save_form, created, create_gate_pass_for,
  updated, update_gate_pass_for, number_or, revise, revised, revise_found, create_revision_for,
}
use mgp.Http.Router.Invariant.{
  Safe, bind-Safe, create_draft-Safe, create_revision-Safe, update_draft-Safe,
  transition_by_id-Safe,
}

pub same-Safe : {A : Type 0} (m : M A) → ((w : World) → (m w).1.db ≡ w.db) → Safe m
same-Safe m same w valid = subst Inv (sym (same w)) valid

pub for_current :
    {A : Type 0} (key : String) (request : Request) (f : Result (User × Session) → M A)
    → ((r : Result (User × Session)) → Safe (f r))
    → Safe (attempt (current_user key request) >>= f)
for_current key request f hf =
    bind-Safe (attempt (current_user key request)) f
      (same-Safe (attempt (current_user key request)) (current_user-db key request)) hf

pub or_login-Safe :
    (act : User → Session → M Response)
    → ((user : User) (session : Session) → Safe (act user session))
    → (r : Result (User × Session)) → Safe (or_login act r)
or_login-Safe act h (err e) = λ w valid. valid
or_login-Safe act h (ok (user, session)) = h user session

pub or_unauthenticated-Safe :
    (act : User → Session → M Response)
    → ((user : User) (session : Session) → Safe (act user session))
    → (r : Result (User × Session)) → Safe (or_unauthenticated act r)
or_unauthenticated-Safe act h (err e) = λ w valid. valid
or_unauthenticated-Safe act h (ok (user, session)) = h user session

module _ (request : Request) where
  pub as_admin-Safe :
      (act : User → M Response)
      → ((user : User) → Safe (act user))
      → (r : Result (User × Session)) → Safe (as_admin request act r)
  as_admin-Safe act h (err e) = λ w valid. valid
  as_admin-Safe act h (ok (user, session)) = λ w valid.
      elim (Bool-cases (user.role == Role.admin && valid_csrf request session)) [
        | inl e ↦ rw e (h user w valid)
        | inr e ↦ rw e valid
      ]

  pub as_editor-Safe :
      (act : M Response)
      → Safe act
      → (user : User) (session : Session) → Safe (as_editor request act user session)
  as_editor-Safe act h user session w valid =
      elim (Bool-cases (can_edit_master user && valid_csrf request session)) [
        | inl e ↦ rw e (h w valid)
        | inr e ↦ rw e valid
      ]

  with_token-Safe :
      (session : Session) (act : M Response) → Safe act → Safe (with_token request session act)
  with_token-Safe session act h w valid = elim (Bool-cases (valid_csrf request session)) [
    | inl e ↦ rw e (h w valid)
    | inr e ↦ rw e valid
  ]

  pub workflow-Safe : (key : String) (action : Action) → Safe (workflow key action request)
  workflow-Safe key action w valid = elim (workflow-guarded key action request w) [
    | inl same ↦ subst Inv (sym same) valid
    | inr (user, session, v, from, same, moved) ↦ subst Inv (sym moved) (
        transition_by_id-Safe [] (actor_of user) request.path_id action
          (trim_space (request.form_value "reason")) v (subst Inv (sym same) valid))
  ]

with_draft-Safe :
    (form : NewPassData) (act : Draft → M (Unit {0}))
    → ((draft : Draft) → Safe (act draft))
    → Safe (with_draft form act)
with_draft-Safe form act h w valid = elim (Result-cases (draft_from_form w.parse_float form)) [
  | inl (draft, e) ↦ rw e (h draft w valid)
  | inr (failure, e) ↦ rw e valid
]

module _ (order : List Field) (request : Request) where
  submit_after-Safe : (actor : Actor) (id : String) → Safe (submit_after request actor id)
  submit_after-Safe actor id w valid =
      elim (Bool-cases (request.form_value "submit_after_save" == "true")) [
        | inl e ↦ rw e (transition_by_id-Safe order actor id Action.submit "" w valid)
        | inr e ↦ rw e valid
      ]

  save_draft-Safe :
      (actor : Actor) (revision_of : String) (draft : Draft)
      → Safe (save_draft order request actor revision_of draft)
  save_draft-Safe actor revision_of draft w valid = elim (Bool-cases (revision_of == "")) [
    | inl e ↦ rw e (
        bind-Safe (create_draft order actor draft) (submit_after request actor)
          (create_draft-Safe order actor draft) (submit_after-Safe actor) w valid)
    | inr e ↦ rw e (
        bind-Safe (create_revision order actor revision_of draft) (λ _. pure tt)
          (create_revision-Safe order actor revision_of draft) (λ _ w valid. valid) w valid)
  ]

  pub create_gate_pass_for-Safe :
      (user : User) (session : Session) → Safe (create_gate_pass_for order request user session)
  create_gate_pass_for-Safe user session =
      let form =
        pass_data_from_request request (page_of "Create gate pass" "create" user session) in
      let saving = save_draft order request (actor_of user) form.revision_of in
      with_token-Safe request session (save_form order request user form) (
        bind-Safe (attempt (with_draft form saving)) (λ result. pure (created form result))
          (with_draft-Safe form saving (save_draft-Safe (actor_of user) form.revision_of))
          λ _ w valid. valid)

  pub update_gate_pass_for-Safe :
      (user : User) (session : Session) → Safe (update_gate_pass_for order request user session)
  update_gate_pass_for-Safe user session =
      let form = pass_data_from_request request (page_of "Edit gate pass" "passes" user session) in
      let saving = update_draft order (actor_of user) request.path_id in
      with_token-Safe request session _ (
        bind-Safe (attempt (with_draft form saving))
          (λ result. pure (updated request.path_id result))
          (with_draft-Safe form saving (update_draft-Safe order (actor_of user) request.path_id))
          λ _ w valid. valid)

  pub create_revision_for-Safe :
      (user : User) (session : Session) → Safe (create_revision_for order request user session)
  create_revision_for-Safe user session =
      let form = pass_data_from_request request (page_of "Create revision" "passes" user session) in
      let id = trim_space request.path_id in
      let revising =
        λ (found : Result PassDetail). revise order (actor_of user) (number_or id found) in
      with_token-Safe request session _ (
        bind-Safe (attempt (find_pass_by_id id)) (revise_found order request user session)
          (same-Safe (attempt (find_pass_by_id id)) (find_detail-db (is_pass id)))
          λ found.
            bind-Safe (attempt (with_draft form (revising found)))
              (λ result. pure (revised (number_or id found) result))
              (with_draft-Safe form (revising found) λ draft.
                bind-Safe (create_revision order (actor_of user) (number_or id found) draft)
                  (λ _. pure tt)
                  (create_revision-Safe order (actor_of user) (number_or id found) draft)
                  λ _ w valid. valid)
              λ _ w valid. valid)
