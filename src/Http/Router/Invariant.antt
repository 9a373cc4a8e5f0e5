-- ===== src/Http/Router/Invariant.antt =====
-- internal/http/server.go: the invariant of gate passes under any request.
use mgp.Base.{
  ◌≡◌, refl, subst, Bool-cases, inl, inr, String, Option-cases, List, any, Result, ok, err,
  text_equality,
}
use mgp.Rbac.{Action, Actor, role_equality}
use mgp.Database.{World, M, continue, pure, ◌>>=◌, statement}
use mgp.Gatepass.Domain.{Field, Draft}
use mgp.Gatepass.Rows.{is_user}
use mgp.Gatepass.Store.{create_draft, create_revision, update_draft, transition_by_id}
use mgp.Gatepass.Calls.{Call, run}
use mgp.Gatepass.Invariant.{Inv, replay}
use mgp.Gatepass.Invariant.Reachable.{run-Inv}
use mgp.Auth.Users.{User}
use mgp.Http.Accounts.{record_account_audit}
use mgp.Http.Router.Ledger.{Near, Near-Inv, Same-Near, Quiet}

-- A call that keeps the invariant.
abbrev pub Safe : {A : Type 0} → M A → Type 0
Safe m = (w : World) → Inv w.db → Inv (m w).1.db

pub Quiet-Safe : {A : Type 0} (m : M A) → Quiet m → Safe m
Quiet-Safe m h w valid = Near-Inv w.db (m w).1.db (Same-Near w.db (m w).1.db (h w)) valid

continue-Inv :
    {A B : Type 0} (f : A → M B)
    → ((a : A) → Safe (f a))
    → (r : Result A × World) → Inv r.1.db
    → Inv (continue r f).1.db
continue-Inv f hf (ok a, w) h = hf a w h
continue-Inv f hf (err e, w) h = h

pub bind-Safe :
    {A B : Type 0} (m : M A) (f : A → M B) → Safe m → ((a : A) → Safe (f a)) → Safe (m >>= f)
bind-Safe m f hm hf w valid = continue-Inv f hf (m w) (hm w valid)

record_account_audit-Near :
    (target action : String) (actor : User) (detail : String) (w : World)
    → Near w.db (record_account_audit target action actor detail w).1.db
unfolding record_account_audit statement replay
record_account_audit-Near target action actor detail w = elim (Option-cases (w.fault w.calls)) [
  | inr (text, e) ↦ rw e (refl, λ id. refl)
  | inl e ↦ elim (Bool-cases (any (is_user actor.id) w.db.users)) [
    | inl d ↦ rw (e, d) (refl, λ id. refl)
    | inr d ↦ rw (e, d) (refl, λ id. refl)
  ]
]

pub record_account_audit-Safe :
    (target action : String) (actor : User) (detail : String)
    → Safe (record_account_audit target action actor detail)
record_account_audit-Safe target action actor detail w valid =
    Near-Inv w.db _ (record_account_audit-Near target action actor detail w) valid

-- A call of the store, whose result is not looked at.
dropped : {A : Type 0} (r : Result A × World) → (continue r λ _. pure {A = Unit {0}} tt).1 ≡ r.1
dropped (ok a, w) = refl
dropped (err e, w) = refl

module _ (order : List Field) (actor : Actor) where
  pub create_draft-Safe : (draft : Draft) → Safe (create_draft order actor draft)
  unfolding run
  create_draft-Safe draft w valid =
      subst (λ u. Inv u.db) (dropped (create_draft order actor draft w))
        (run-Inv order actor w valid (Call.create draft))

  pub create_revision-Safe :
      (pass_no : String) (draft : Draft) → Safe (create_revision order actor pass_no draft)
  unfolding run
  create_revision-Safe pass_no draft w valid =
      subst (λ u. Inv u.db) (dropped (create_revision order actor pass_no draft w))
        (run-Inv order actor w valid (Call.revise pass_no draft))

  pub update_draft-Safe : (id : String) (draft : Draft) → Safe (update_draft order actor id draft)
  unfolding run
  update_draft-Safe id draft w valid = run-Inv order actor w valid (Call.edit id draft)

  pub transition_by_id-Safe :
      (id : String) (action : Action) (reason : String)
      → Safe (transition_by_id actor id action reason)
  unfolding run
  transition_by_id-Safe id action reason w valid =
      run-Inv order actor w valid (Call.act_by_id id action reason)
