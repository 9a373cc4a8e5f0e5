-- ===== src/Http/Router/Steps.antt =====
-- internal/http/server.go: what the five routes of the workflow do to a pass.
use mgp.Base.{◌≡◌, ◌⊎◌, refl, String}
use mgp.Base.Text.{trim_space}
use mgp.Rbac.{Action}
use mgp.Database.{World}
use mgp.Database.Tables.{Db}
use mgp.Auth.Users.{User}
use mgp.Sessions.{Session}
use mgp.Gatepass.Store.{transition_by_id}
use mgp.Http.{Server, Request}
use mgp.Http.Workflow.{actor_of}
use mgp.Http.Workflow.Guarded.{From, workflow-guarded}
use mgp.Http.Router.{Route, pattern_of, handle}

-- The actions that stand at the end of a path, by the route contract of workflow.md.
pub data Names : String → Action → Type 0 where
  submit : Names "/gate-passes/{id}/submit" Action.submit
  approve : Names "/gate-passes/{id}/approve" Action.approve
  reject : Names "/gate-passes/{id}/reject" Action.reject
  pass_out : Names "/gate-passes/{id}/pass-out" Action.pass_out
  return : Names "/gate-passes/{id}/return" Action.return

-- The routes of the workflow.
pub data IsStep : Route → Type 0 where
  submit : IsStep Route.submit
  approve : IsStep Route.approve
  reject : IsStep Route.reject
  pass_out : IsStep Route.pass_out
  return : IsStep Route.return

module _ (server : Server) (request : Request) (w : World) where
  -- The tables are the old ones, or those that a transition of the store leads to, by the given
  -- action, of the pass of the request, by its user, who is active and sent their session's token.
  abbrev pub Stepped : Action → Db → Type 0
  Stepped action db =
      (db ≡ w.db)
      ⊎ ((user : User) × (session : Session) × (v : World) × From server.key request w user session
          × (v.db ≡ w.db)
          × (db
              ≡ (transition_by_id (actor_of user) request.path_id action
                  (trim_space (request.form_value "reason")) v).1.db))

-- A request by a route of the workflow, which is a POST to a path that ends in an action, changes
-- nothing, or an active user, signed in by the request's cookie, sent their session's token with it,
-- and the tables become those that a transition of the store by this user leads to, of the pass that
-- the path names, by the action that the path ends in, with the trimmed reason of the form.
pub handle-Stepped :
    (server : Server) (route : Route) (request : Request) (w : World)
    → IsStep route
    → (path : String) × (action : Action) × (pattern_of route ≡ ("POST", path))
      × Names path action
      × Stepped server request w action (handle server route request w).1.db
unfolding handle
handle-Stepped server _ request w IsStep.submit =
    (_, _, refl, Names.submit, workflow-guarded server.key Action.submit request w)
handle-Stepped server _ request w IsStep.approve =
    (_, _, refl, Names.approve, workflow-guarded server.key Action.approve request w)
handle-Stepped server _ request w IsStep.reject =
    (_, _, refl, Names.reject, workflow-guarded server.key Action.reject request w)
handle-Stepped server _ request w IsStep.pass_out =
    (_, _, refl, Names.pass_out, workflow-guarded server.key Action.pass_out request w)
handle-Stepped server _ request w IsStep.return =
    (_, _, refl, Names.return, workflow-guarded server.key Action.return request w)
