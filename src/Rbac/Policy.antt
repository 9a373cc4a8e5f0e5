-- ===== src/Rbac/Policy.antt =====
-- The policy of internal/rbac/policy.go against the role matrix of workflow.md.
use mgp.Base.{true, ◌≡◌, ◌≢◌, ◌↔◌, ◌⊎◌, arith, eq_iff}
use mgp.Rbac.{Role, Status, PassType, Action, Actor, PassContext, has_operational_stage, allows}

-- The actor has a part in the life of the pass already.
abbrev pub TookPart : Actor → PassContext → Type 0
TookPart actor pass =
    (actor.id ≢ "")
    × ((actor.id ≡ pass.created_by)
        ⊎ (actor.id ≡ pass.approved_by)
        ⊎ (actor.id ≡ pass.security_officer_id)
        ⊎ (actor.id ≡ pass.returned_by))

-- An administrator may act, and an inventory officer on a pass of their own.
abbrev pub Owns : Actor → PassContext → Type 0
Owns actor pass =
    (actor.role ≡ Role.admin) ⊎ ((actor.role ≡ Role.inventory) × (pass.created_by ≡ actor.id))

-- The table of the role matrix of workflow.md, one row for each action, with the sentence that a
-- creator cannot approve or reject their own pass.
abbrev pub Permitted : Actor → Action → PassContext → Type 0
Permitted actor Action.create_draft pass = (actor.role ≡ Role.admin) ⊎ (actor.role ≡ Role.inventory)
Permitted actor Action.edit_draft pass = (pass.status ≡ Status.draft) × Owns actor pass
Permitted actor Action.submit pass = (pass.status ≡ Status.draft) × Owns actor pass
Permitted actor Action.approve pass =
    (pass.status ≡ Status.submitted)
    × (pass.created_by ≢ actor.id)
    × ((actor.role ≡ Role.admin) ⊎ (actor.role ≡ Role.issuing))
Permitted actor Action.reject pass =
    (pass.status ≡ Status.submitted)
    × (pass.created_by ≢ actor.id)
    × ((actor.role ≡ Role.admin) ⊎ (actor.role ≡ Role.issuing))
Permitted actor Action.pass_out pass =
    (pass.status ≡ Status.approved) × ((actor.role ≡ Role.admin) ⊎ (actor.role ≡ Role.security))
Permitted actor Action.return pass =
    (pass.status ≡ Status.passed_out)
    × (pass.pass_type ≡ PassType.returnable)
    × ((actor.role ≡ Role.admin) ⊎ (actor.role ≡ Role.security))
Permitted actor Action.revision pass = (pass.status ≡ Status.not_approved) × Owns actor pass
Permitted actor (Action.other _) pass = ⊥

-- The sentence under the table: who took part in an earlier stage cannot perform the next
-- independent one.
abbrev pub IsSeparated : Actor → Action → PassContext → Type 0
IsSeparated actor Action.approve pass = ¬ (TookPart actor pass)
IsSeparated actor Action.reject pass = ¬ (TookPart actor pass)
IsSeparated actor Action.pass_out pass = ¬ (TookPart actor pass)
IsSeparated actor Action.return pass = ¬ (TookPart actor pass)
IsSeparated actor _ pass = Unit

has_operational_stage_iff :
    (actor : Actor) (pass : PassContext)
    → (has_operational_stage actor pass ≡ true) ↔ TookPart actor pass
unfolding has_operational_stage
has_operational_stage_iff actor pass = ground (
  arith,
  eq_iff actor.id "",
  eq_iff actor.id pass.created_by,
  eq_iff actor.id pass.approved_by,
  eq_iff actor.id pass.security_officer_id,
  eq_iff actor.id pass.returned_by,
)

-- The policy grants an action on a pass to an actor exactly when the table of the role matrix does
-- and the actor is not an administrator or meets the rule of separate stages. So the rule binds
-- administrators only: an issuing authority who did not create the pass, and a security officer, may
-- act whatever part they had in an earlier stage, against workflow.md, which states the rule for
-- every actor.
pub allows_iff :
    (actor : Actor) (action : Action) (pass : PassContext)
    → (allows actor action pass ≡ true)
      ↔ (Permitted actor action pass × ((actor.role ≢ Role.admin) ⊎ IsSeparated actor action pass))
unfolding allows
allows_iff actor Action.create_draft pass = ground arith
allows_iff actor (Action.other _) pass = ground arith
allows_iff actor _ pass =
    ground (arith, eq_iff pass.created_by actor.id, has_operational_stage_iff actor pass)
