-- ===== src/Gatepass/Store/Refines.antt =====
-- internal/gatepass/store.go: `transition` against the pure workflow of internal/gatepass/domain.go.
use mgp.Base.{◌≡◌, ◌∙◌, eq_refl, Bool, find, true, String, some, List, or_empty, ok, arith, ap}
use mgp.Base.Keys.{Distinct, find-key, find-update_self}
use mgp.Rbac
use mgp.Rbac.{Status, PassType, Actor, allows}
use mgp.Database.{World}
use mgp.Database.Tables.{PassRow}
use mgp.Gatepass.Domain
use mgp.Gatepass.Domain.{Item, Pass}
use mgp.Gatepass.Rows.{is_pass}
use mgp.Gatepass.Store.{context, next_status, advance, Stamp, stamp, transition_where}
use mgp.Gatepass.Store.Effects.{transition_where-ok}

-- The constants of the two packages with the same text.
abbrev pub domain_action : Rbac.Action → Domain.Action
domain_action Rbac.Action.submit = Domain.Action.submit
domain_action Rbac.Action.approve = Domain.Action.approve
domain_action Rbac.Action.reject = Domain.Action.reject
domain_action Rbac.Action.pass_out = Domain.Action.pass_out
domain_action Rbac.Action.return = Domain.Action.return
domain_action Rbac.Action.create_draft = Domain.Action.other "CREATE_DRAFT"
domain_action Rbac.Action.edit_draft = Domain.Action.other "EDIT_DRAFT"
domain_action Rbac.Action.revision = Domain.Action.other "CREATE_REVISION"
domain_action (Rbac.Action.other s) = Domain.Action.other s

-- The row as the domain sees it.
abbrev pub pass_of : List Item → PassRow → Pass
pass_of items row = record {
  id = row.id;
  pass_type = row.pass_type;
  status = row.status;
  created_by = row.created_by;
  approved_by = or_empty row.approved_by;
  items = items;
}

advance_refines :
    (row : PassRow) (actor : Actor) (action : Rbac.Action) (next : Status) (reason : String)
    (at : Stamp) (items : List Item)
    → allows actor action (context row) ≡ true
    → next_status action ≡ some next
    → Domain.transition (pass_of items row) (domain_action action) actor.id
      ≡ ok (pass_of items (advance action next actor reason at row))
unfolding allows Domain.transition advance
advance_refines row actor action next reason at items granted leads = ground arith

advance-id :
    (row : PassRow) (actor : Actor) (action : Rbac.Action) (next : Status) (reason : String)
    (at : Stamp)
    → (advance action next actor reason at row).id ≡ row.id
unfolding advance
advance-id row actor action next reason at = ground arith

-- Where keys are unique, whenever a transition of the store succeeds it found a row, the pure
-- workflow of the domain takes that row by the same action and actor too, and what the domain makes
-- of it is the row that the table now has under its key.
pub transition_where-refines :
    (picks : PassRow → Bool) (actor : Actor) (action : Rbac.Action) (reason : String)
    (items : List Item) (w w' : World)
    → Distinct (λ r. r.id) w.db.passes
    → transition_where picks actor action reason w ≡ (ok tt, w')
    → (row row' : PassRow) × (find picks w.db.passes ≡ some row)
      × (find (is_pass row.id) w'.db.passes ≡ some row')
      × (Domain.transition (pass_of items row) (domain_action action) actor.id
          ≡ ok (pass_of items row'))
transition_where-refines picks actor action reason items w w' distinct h =
    let a = transition_where-ok picks actor action reason w h in
    let f = advance action a.next actor reason (stamp w) in
    let found = find-key (λ r. r.id) picks w.db.passes a.row distinct a.found in
    let same = advance-id a.row actor action a.next reason (stamp w) in
    (
      a.row,
      f a.row,
      a.found,
      ap (λ db. find (is_pass a.row.id) db.passes) a.effect
          ∙ find-update_self (is_pass a.row.id) f w.db.passes a.row found
              (rw same (eq_refl a.row.id)),
      advance_refines a.row actor action a.next reason (stamp w) items a.granted a.leads,
    )
