-- ===== src/Gatepass/Domain/Workflow.antt =====
-- `Transition` against the state machine of workflow.md.
use mgp.Base.{◌≡◌, refl, ◌≢◌, ◌↔◌, ◌⊎◌, String, arith, ok}
use mgp.Rbac.{Status, PassType}
use mgp.Gatepass.Domain.{Action, Pass, transition}

-- The edges of the diagram, by the action that takes them, for a pass of a type.
pub data Edge (type : PassType) : Action → Status → Status → Type 0 where
  submit : Edge type Action.submit Status.draft Status.submitted
  approve : Edge type Action.approve Status.submitted Status.approved
  reject : Edge type Action.reject Status.submitted Status.not_approved
  pass_out : Edge type Action.pass_out Status.approved Status.passed_out
  return : type ≡ PassType.returnable → Edge type Action.return Status.passed_out Status.returned

-- What a transition leaves alone: all but the status, and the approver unless it approves.
pub record Keeps (action : Action) (actor_id : String) (pass next : Pass) : Type 0 where
  pub id : next.id ≡ pass.id
  pub pass_type : next.pass_type ≡ pass.pass_type
  pub created_by : next.created_by ≡ pass.created_by
  pub items : next.items ≡ pass.items
  pub approver :
      ((action ≡ Action.approve) × (next.approved_by ≡ actor_id))
      ⊎ ((action ≢ Action.approve) × (next.approved_by ≡ pass.approved_by))

transition_sound :
    (pass next : Pass) (action : Action) (actor_id : String)
    → transition pass action actor_id ≡ ok next
    → Edge pass.pass_type action pass.status next.status × Keeps action actor_id pass next
unfolding transition
transition_sound pass next action actor_id e = (
  grind (arith, Edge.submit, Edge.approve, Edge.reject, Edge.pass_out, Edge.return),
  ground arith,
)

transition_complete :
    (pass next : Pass) (action : Action) (actor_id : String) {from to : Status}
    → Edge pass.pass_type action from to
    → pass.status ≡ from
    → next.status ≡ to
    → Keeps action actor_id pass next
    → transition pass action actor_id ≡ ok next
unfolding transition
transition_complete pass next action actor_id Edge.submit p q k = ground arith
transition_complete pass next action actor_id Edge.approve p q k = ground arith
transition_complete pass next action actor_id Edge.reject p q k = ground arith
transition_complete pass next action actor_id Edge.pass_out p q k = ground arith
transition_complete pass next action actor_id (Edge.return r) p q k = ground arith

-- A transition succeeds with a pass exactly when the action takes an edge of the state machine
-- from the old status to the new one, where only a returnable pass can be returned, and the new
-- pass keeps the identity, the type, the creator and the items, with the actor as the approver
-- after an approval and the old approver otherwise.
pub transition_iff :
    (pass next : Pass) (action : Action) (actor_id : String)
    → (transition pass action actor_id ≡ ok next)
      ↔ (Edge pass.pass_type action pass.status next.status × Keeps action actor_id pass next)
transition_iff pass next action actor_id = (
  transition_sound pass next action actor_id,
  λ h. transition_complete pass next action actor_id h.0 refl refl h.1,
)
