-- ===== src/Http/Passes.antt =====
-- internal/http/server.go: the handlers that make, change and print a pass.
pub mod Rejected
pub mod Blank
use Prim.Native.String.{◌++◌}
use mgp.Base.{
  Bool, not, ◌&&◌, String, List, ◌==◌, text_equality, if◌then◌else◌, Result, ok, err, error_text,
}
use mgp.Base.Text.{trim_space}
use mgp.Rbac.{Role, Action, Actor, role_equality}
use mgp.Database.{M, pure, throw, ◌>>=◌}
use mgp.Auth.Users.{User}
use mgp.Sessions.{Session}
use mgp.Gatepass.Domain.{Field, Draft}
use mgp.Gatepass.Detail.{PassDetail, find_pass_by_id}
use mgp.Gatepass.Store.{create_draft, create_revision, update_draft, transition_by_id}
use mgp.Documents.{generate_pass_pdf}
use mgp.View.{NewPassData, Page}
use mgp.Http.{
  Request, Response, attempt, current_user, valid_csrf, or_login, or_unauthenticated, page_of,
}
use mgp.Http.Workflow.{actor_of, url_query}
use mgp.Http.Pages.{is_released_text}
use mgp.Http.Forms.{draft_from_form, pass_data_from_request, with_error}

-- `if err == nil` after `draftFromForm`.
abbrev pub with_draft : NewPassData → (Draft → M (Unit {0})) → M (Unit {0})
with_draft form act w = given (draft_from_form w.parse_float form) act w
  where
    given : Result Draft → (Draft → M (Unit {0})) → M (Unit {0})
    given (err e) act = throw e
    given (ok draft) act = act draft

abbrev pub submit_after : Request → Actor → String → M (Unit {0})
submit_after request actor id =
    if request.form_value "submit_after_save" == "true"
    then transition_by_id actor id Action.submit ""
    else pure tt

abbrev pub save_draft : List Field → Request → Actor → String → Draft → M (Unit {0})
save_draft order request actor revision_of draft =
    if revision_of == ""
    then create_draft order actor draft >>= submit_after request actor
    else (create_revision order actor revision_of draft >>= λ _. pure tt)

abbrev pub created : NewPassData → Result (Unit {0}) → Response
created form (err e) = Response.page (Page.new_gate_pass (with_error form (error_text e)))
created form (ok _) = Response.redirect "/gate-passes?notice=Draft+created"

abbrev pub save_form : List Field → Request → User → NewPassData → M Response
save_form order request user form = do
  result ← attempt (with_draft form (save_draft order request (actor_of user) form.revision_of))
  pure (created form result)

-- `!validCSRF(r, session)` and its early return.
abbrev pub with_token : Request → Session → M Response → M Response
with_token request session act =
    if valid_csrf request session then act else pure (Response.failure 403 "invalid request")

abbrev pub create_gate_pass_for : List Field → Request → User → Session → M Response
create_gate_pass_for order request user session = with_token request session (
    save_form order request user
      (pass_data_from_request request (page_of "Create gate pass" "create" user session)))

-- `createGatePass`.
unfoldable pub create_gate_pass : List Field → String → Request → M Response
create_gate_pass order key request =
    attempt (current_user key request) >>= or_login (create_gate_pass_for order request)

abbrev pub updated : String → Result (Unit {0}) → Response
updated id (err e) = Response.failure 400 (error_text e)
updated id (ok _) = Response.redirect ("/gate-passes/" ++ (id ++ "?notice=Draft+updated"))

abbrev pub update_gate_pass_for : List Field → Request → User → Session → M Response
update_gate_pass_for order request user session = with_token request session do
  result ← attempt (
      with_draft (pass_data_from_request request (page_of "Edit gate pass" "passes" user session))
        (update_draft order (actor_of user) request.path_id))
  pure (updated request.path_id result)

-- `updateGatePass`.
unfoldable pub update_gate_pass : List Field → String → Request → M Response
update_gate_pass order key request =
    attempt (current_user key request) >>= or_unauthenticated (update_gate_pass_for order request)

-- The number of the pass with the key of the path, or else that text.
abbrev pub number_or : String → Result PassDetail → String
number_or original (err e) = original
number_or original (ok detail) = detail.pass_no

abbrev pub revised : String → Result (Unit {0}) → Response
revised original (err e) =
    Response.redirect ("/gate-passes/" ++ (original ++ ("?error=" ++ url_query (error_text e))))
revised original (ok _) = Response.redirect "/gate-passes?notice=Revision+created"

abbrev pub revise : List Field → Actor → String → Draft → M (Unit {0})
revise order actor original draft = create_revision order actor original draft >>= λ _. pure tt

-- From `draftFromForm` on.
abbrev pub revise_found : List Field → Request → User → Session → Result PassDetail → M Response
revise_found order request user session found = do
  result ← attempt (
      with_draft (pass_data_from_request request (page_of "Create revision" "passes" user session))
        (revise order (actor_of user) (number_or (trim_space request.path_id) found)))
  pure (revised (number_or (trim_space request.path_id) found) result)

abbrev pub create_revision_for : List Field → Request → User → Session → M Response
create_revision_for order request user session = with_token request session (
    attempt (find_pass_by_id (trim_space request.path_id))
    >>= revise_found order request user session)

-- `createRevision`, the handler.
unfoldable pub revise_gate_pass : List Field → String → Request → M Response
revise_gate_pass order key request =
    attempt (current_user key request) >>= or_login (create_revision_for order request)

abbrev pub document_answer : String → Result (String × String) → Response
document_answer name (err e) = Response.failure 500 "could not generate document"
document_answer name (ok (path, sha256)) = Response.document name path

abbrev pub print_pass : String → User → Bool → PassDetail → M Response
print_pass root user draft detail =
    if not draft && not (is_released_text detail.status)
    then pure (Response.failure 403 "official PDF is available only after approval")
    else if user.role == Role.security && not (is_released_text detail.status)
    then pure (Response.failure 403 "forbidden")
    else (attempt (generate_pass_pdf root detail (actor_of user) draft) >>= λ result.
        pure (document_answer (detail.pass_no ++ (if draft then "-draft.pdf" else ".pdf")) result))

abbrev pub print_found : String → User → Bool → Result PassDetail → M Response
print_found root user draft (err e) = pure (Response.failure 404 "404 page not found")
print_found root user draft (ok detail) = print_pass root user draft detail

abbrev pub pass_pdf_for : String → Request → User → Session → M Response
pass_pdf_for root request user session =
    attempt (find_pass_by_id request.path_id)
    >>= print_found root user (request.query_value "draft" == "true")

-- `passPDF`; `root` is the directory of the documents.
unfoldable pub pass_pdf : String → String → Request → M Response
pass_pdf root key request =
    attempt (current_user key request) >>= or_login (pass_pdf_for root request)
