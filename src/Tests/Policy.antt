-- ===== src/Tests/Policy.antt =====
-- The policy and the workflow as pure functions.
use mathlib.Core.List.{Memᴰ}
use mgp.Base.{◌≡◌, ◌≢◌, ◌⊎◌, refl, true, false, ◌↔◌, none, [], ok}
use mgp.Rbac.{Role, Status, PassType, Action, PassContext, allows}
use mgp.Rbac.Policy.{Permitted, IsSeparated, allows_iff}
use mgp.Gatepass.Domain
use mgp.Gatepass.Domain.{Field, Pass, validate_draft, transition}
use mgp.Gatepass.Domain.Validation.{Covers, IsValidDraft, validate_draft_iff}
use mgp.Gatepass.Domain.Workflow.{Edge, Keeps, transition_iff}
use mgp.Tests.Data.{order, draft, keeper, issuer}

abbrev submitted : PassContext
submitted = record {
  id = "p0";
  status = Status.submitted;
  pass_type = PassType.returnable;
  created_by = "ina";
  approved_by = "";
  security_officer_id = "";
  returned_by = "";
}

issuer_approves : allows issuer Action.approve submitted ≡ true
unfolding allows
issuer_approves = refl

keeper_cannot : allows keeper Action.approve submitted ≡ false
unfolding allows
keeper_cannot = refl

allows_iff_example : (allows issuer Action.approve submitted ≡ true) ↔ (
    Permitted issuer Action.approve submitted
    × ((issuer.role ≢ Role.admin) ⊎ IsSeparated issuer Action.approve submitted))
allows_iff_example = allows_iff issuer Action.approve submitted

order-Covers : Covers order
order-Covers Field.directorate = Memᴰ.head refl
order-Covers Field.project = Memᴰ.tail (Memᴰ.head refl)
order-Covers Field.consignee = Memᴰ.tail (Memᴰ.tail (Memᴰ.head refl))
order-Covers Field.purpose = Memᴰ.tail (Memᴰ.tail (Memᴰ.tail (Memᴰ.head refl)))
order-Covers Field.authority = Memᴰ.tail (Memᴰ.tail (Memᴰ.tail (Memᴰ.tail (Memᴰ.head refl))))

draft_accepted : validate_draft order draft ≡ none
unfolding validate_draft
draft_accepted = refl

validate_draft_iff_example : (validate_draft order draft ≡ none) ↔ IsValidDraft draft
validate_draft_iff_example = validate_draft_iff order draft order-Covers

abbrev pass : Status → Pass
pass status = record {
  id = "p0";
  pass_type = PassType.returnable;
  status = status;
  created_by = "ina";
  approved_by = "";
  items = [];
}

transition_iff_example :
    (transition (pass Status.passed_out) Domain.Action.return "sec" ≡ ok (pass Status.returned)) ↔ (
      Edge PassType.returnable Domain.Action.return Status.passed_out Status.returned
      × Keeps Domain.Action.return "sec" (pass Status.passed_out) (pass Status.returned))
transition_iff_example =
    transition_iff (pass Status.passed_out) (pass Status.returned) Domain.Action.return "sec"
