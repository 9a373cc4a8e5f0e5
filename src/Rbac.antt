-- ===== src/Rbac.antt =====
-- internal/rbac/policy.go: who may do what to a gate pass. Each string type of the source that has
-- named constants is a data type with these constants and `other` for any other text; the
-- constants of internal/gatepass are spelled alike, and the two packages share the types here.
pub mod Policy
use mgp.Base.{Bool, true, false, not, ◌&&◌, ◌||◌, String, Eq, ◌==◌, text_equality, if◌then◌else◌}

pub data Role : Type 0 where
  admin inventory issuing security viewer : Role
  other : String → Role

pub data Status : Type 0 where
  draft submitted approved not_approved passed_out returned : Status
  other : String → Status

pub data PassType : Type 0 where
  returnable non_returnable : PassType
  other : String → PassType

pub data Action : Type 0 where
  create_draft edit_draft submit approve reject pass_out return revision : Action
  other : String → Action

-- The text of a role, and the role that a text stands for.
abbrev pub role_text : Role → String
role_text Role.admin = "ADMIN"
role_text Role.inventory = "INVENTORY"
role_text Role.issuing = "ISSUING"
role_text Role.security = "SECURITY"
role_text Role.viewer = "VIEWER"
role_text (Role.other s) = s

abbrev pub role_of : String → Role
role_of s =
    if s == "ADMIN"
    then Role.admin
    else if s == "INVENTORY"
    then Role.inventory
    else if s == "ISSUING"
    then Role.issuing
    else if s == "SECURITY"
    then Role.security
    else if s == "VIEWER"
    then Role.viewer
    else Role.other s

abbrev pub pass_type_of : String → PassType
pass_type_of s =
    if s == "RETURNABLE"
    then PassType.returnable
    else if s == "NON_RETURNABLE"
    then PassType.non_returnable
    else PassType.other s

abbrev role_eq : Role → Role → Bool
role_eq Role.admin Role.admin = true
role_eq Role.inventory Role.inventory = true
role_eq Role.issuing Role.issuing = true
role_eq Role.security Role.security = true
role_eq Role.viewer Role.viewer = true
role_eq (Role.other s) (Role.other t) = s == t
role_eq _ _ = false

abbrev status_eq : Status → Status → Bool
status_eq Status.draft Status.draft = true
status_eq Status.submitted Status.submitted = true
status_eq Status.approved Status.approved = true
status_eq Status.not_approved Status.not_approved = true
status_eq Status.passed_out Status.passed_out = true
status_eq Status.returned Status.returned = true
status_eq (Status.other s) (Status.other t) = s == t
status_eq _ _ = false

abbrev pass_type_eq : PassType → PassType → Bool
pass_type_eq PassType.returnable PassType.returnable = true
pass_type_eq PassType.non_returnable PassType.non_returnable = true
pass_type_eq (PassType.other s) (PassType.other t) = s == t
pass_type_eq _ _ = false

instance abbrev pub role_equality : Eq Role
role_equality = record { beq = role_eq }

instance abbrev pub status_equality : Eq Status
status_equality = record { beq = status_eq }

instance abbrev pub pass_type_equality : Eq PassType
pass_type_equality = record { beq = pass_type_eq }

pub record Actor : Type 0 where
  pub id : String
  pub role : Role

pub record PassContext : Type 0 where
  pub id : String
  pub status : Status
  pub pass_type : PassType
  pub created_by : String
  pub approved_by : String
  pub security_officer_id : String
  pub returned_by : String

pub has_operational_stage : Actor → PassContext → Bool
has_operational_stage actor pass =
    not (actor.id == "")
    && (actor.id == pass.created_by
        || actor.id == pass.approved_by
        || actor.id == pass.security_officer_id
        || actor.id == pass.returned_by)

-- `actor.Role != RoleAdmin || !hasOperationalStage(actor, pass)`.
abbrev pub is_independent : Actor → PassContext → Bool
is_independent actor pass = not (actor.role == Role.admin) || not (has_operational_stage actor pass)

-- `actor.Role == RoleAdmin || (actor.Role == RoleInventory && pass.CreatedBy == actor.ID)`.
abbrev pub is_owner : Actor → PassContext → Bool
is_owner actor pass =
    actor.role == Role.admin || (actor.role == Role.inventory && pass.created_by == actor.id)

allows_decision : Actor → PassContext → Bool
allows_decision actor pass =
    if not (pass.status == Status.submitted) || pass.created_by == actor.id
    then false
    else if not (actor.role == Role.issuing) && not (actor.role == Role.admin)
    then false
    else is_independent actor pass

allows_pass_out : Actor → PassContext → Bool
allows_pass_out actor pass =
    if not (pass.status == Status.approved)
      || (not (actor.role == Role.security) && not (actor.role == Role.admin))
    then false
    else is_independent actor pass

allows_return : Actor → PassContext → Bool
allows_return actor pass =
    if not (pass.status == Status.passed_out)
      || not (pass.pass_type == PassType.returnable)
      || (not (actor.role == Role.security) && not (actor.role == Role.admin))
    then false
    else is_independent actor pass

unfoldable pub allows : Actor → Action → PassContext → Bool
unfolding allows_decision allows_pass_out allows_return
allows actor Action.create_draft pass = actor.role == Role.admin || actor.role == Role.inventory
allows actor Action.edit_draft pass = pass.status == Status.draft && is_owner actor pass
allows actor Action.submit pass = pass.status == Status.draft && is_owner actor pass
allows actor Action.approve pass = allows_decision actor pass
allows actor Action.reject pass = allows_decision actor pass
allows actor Action.pass_out pass = allows_pass_out actor pass
allows actor Action.return pass = allows_return actor pass
allows actor Action.revision pass = pass.status == Status.not_approved && is_owner actor pass
allows actor (Action.other _) pass = false
