-- ===== src/Http/Workflow.antt =====
-- internal/http/server.go: the handlers that take a pass through its workflow.
pub mod Guarded
use Prim.Native.String.{◌++◌, [], ◌∷◌}
use mgp.Base.{
  Bool, true, false, Char, code, String, ◌==◌, nat_equality, if◌then◌else◌, Result, ok, err,
  Failure, error_text,
}
use mgp.Base.Text.{trim_space}
use mgp.Rbac.{Action, Actor}
use mgp.Database.{World, M, pure, ◌>>=◌}
use mgp.Auth.Users.{User}
use mgp.Sessions.{Session}
use mgp.Gatepass.Detail.{PassDetail, find_pass_by_id}
use mgp.Gatepass.Store.{transition_by_id}
use mgp.Http.{Request, Response, attempt, current_user, valid_csrf}

abbrev escaped : Char → String → String
escaped c rest =
    if code c == b'%'
    then "%25" ++ rest
    else if code c == b' '
    then "+" ++ rest
    else if code c == b'?'
    then "%3F" ++ rest
    else if code c == b'&'
    then "%26" ++ rest
    else c ∷ rest

-- `urlQuery`.
pub url_query : String → String
url_query [] = ""
url_query (c ∷ s) = escaped c (url_query s)

abbrev pub actor_of : User → Actor
actor_of user = record { id = user.id; role = user.role }

abbrev workflow_answer : String → Result (Unit {0}) → Response
workflow_answer id (ok _) =
    Response.redirect ("/gate-passes/" ++ (id ++ "?notice=Workflow+action+recorded"))
workflow_answer id (err e) =
    Response.redirect ("/gate-passes/" ++ (id ++ ("?error=" ++ url_query (error_text e))))

-- From `FindByID` on.
abbrev pub workflow_found : User → Request → Action → Result PassDetail → M Response
workflow_found user request action (err e) = pure (Response.failure 404 "404 page not found")
workflow_found user request action (ok _) = do
  result ← attempt (
      transition_by_id (actor_of user) request.path_id action
        (trim_space (request.form_value "reason")))
  pure (workflow_answer request.path_id result)

-- From `validCSRF` on.
abbrev pub workflow_as : Request → Action → Result (User × Session) → M Response
workflow_as request action (err e) = pure (Response.redirect "/login")
workflow_as request action (ok (user, session)) =
    if valid_csrf request session
    then attempt (find_pass_by_id request.path_id) >>= workflow_found user request action
    else pure (Response.failure 403 "invalid request")

-- `workflow`.
unfoldable pub workflow : String → Action → Request → M Response
workflow key action request = attempt (current_user key request) >>= workflow_as request action

abbrev pub submit_gate_pass : String → Request → M Response
submit_gate_pass key = workflow key Action.submit

abbrev pub approve_gate_pass : String → Request → M Response
approve_gate_pass key = workflow key Action.approve

abbrev pub reject_gate_pass : String → Request → M Response
reject_gate_pass key = workflow key Action.reject

abbrev pub pass_out_gate_pass : String → Request → M Response
pass_out_gate_pass key = workflow key Action.pass_out

abbrev pub return_gate_pass : String → Request → M Response
return_gate_pass key = workflow key Action.return
