-- ===== src/Gatepass/Store/Succeeds.antt =====
-- internal/gatepass/store.go: when the operations of the store succeed.
use mgp.Base.{
  ℕ, ◌+◌, ◌≡◌, ◌↔◌, refl, ap, ◌∙◌, Bool, true, false, not, ◌&&◌, String, none, some, List, find,
  any, ok, arith, ◌==◌, ◌||◌, eq_refl,
}
use mgp.Base.Text.{is_blank}
use mgp.Base.Keys.{find-first}
use mgp.Gatepass.Domain.{Field, Draft}
use mgp.Gatepass.Store.Operations.{create_draft-ok}
use mgp.Rbac.{Role, role_equality, Status, Action, Actor, allows}
use mgp.Database.{World, statement, transaction, tick}
use mgp.Database.Tables.{PassRow, Db}
use mgp.Gatepass.Rows.{
  is_user, is_pass, has_number, columns_hold, pass_holds, new_pass, columns_of, append_audit,
}
use mgp.Gatepass.Store.{
  context, next_status, is_reject, update_status, transition_where, transition_row,
  write_transition, create_draft, transition_by_id,
}
use mgp.Gatepass.Store.Effects.{advanced, transition_where-ok}

module _ (row : PassRow) (actor : Actor) (action : Action) (reason : String) (w : World)
    (calm : (n : ℕ) → w.fault n ≡ none) (known : any (is_user actor.id) w.db.users ≡ true) where
  write_transition-runs :
      (next : Status)
      → write_transition row action next actor reason w ≡ (
        ok tt,
        record w { db = advanced row action next actor reason w; calls = w.calls + 1 + 1 },
      )
  unfolding write_transition statement update_status append_audit
  write_transition-runs next =
      let first = calm w.calls in let second = calm (w.calls + 1) in ground arith

  transition_row-runs :
      (next : Status)
      → allows actor action (context row) ≡ true
      → (is_reject action && is_blank reason) ≡ false
      → next_status action ≡ some next
      → transition_row row actor action reason w ≡ (
        ok tt,
        record w { db = advanced row action next actor reason w; calls = w.calls + 1 + 1 },
      )
  unfolding transition_row
  transition_row-runs next granted reasoned leads =
      rw (granted, reasoned, leads) (write_transition-runs next)

-- Where the driver refuses no call and the actor is a user, a transition of the store succeeds
-- exactly when there is such a pass, the policy grants the action on it, a rejection has a reason,
-- and the action is one of the workflow. No other action needs a reason: a release, whose reason is
-- stored as the security control number, succeeds with a blank one, against workflow.md, which
-- requires that number.
pub transition_where_iff :
    (picks : PassRow → Bool) (actor : Actor) (action : Action) (reason : String) (w : World)
    → ((n : ℕ) → w.fault n ≡ none)
    → any (is_user actor.id) w.db.users ≡ true
    → ((transition_where picks actor action reason w).0 ≡ ok tt) ↔ (
        (row : PassRow) × (next : Status) × (find picks w.db.passes ≡ some row)
        × (allows actor action (context row) ≡ true)
        × ((is_reject action && is_blank reason) ≡ false)
        × (next_status action ≡ some next))
unfolding transition_where transaction statement
transition_where_iff picks actor action reason w calm known = (
  λ h.
      let a =
        transition_where-ok picks actor action reason w
          (ap (λ r. (r, (transition_where picks actor action reason w).1)) h) in
      (a.row, a.next, a.found, a.granted, a.reasoned, a.leads),
  λ (row, next, found, granted, reasoned, leads).
      rw (calm w.calls, calm (w.calls + 1), found)
        (rw
          (transition_row-runs row actor action reason (tick (tick w)) calm known next granted
            reasoned leads)
          (rw (calm (w.calls + 1 + 1 + 1 + 1)) refl)),
)

and_split : (a b c d : Bool) → (a && b && c && d) ≡ true → d ≡ true
and_split a b c d h = ground arith

pass_holds-user :
    (row : PassRow) (db : Db)
    → pass_holds row db ≡ true
    → any (is_user row.created_by) db.users ≡ true
pass_holds-user row db h =
    (and_split (columns_hold row.columns) (not (any (is_pass row.id) db.passes))
      (not (any (has_number row.pass_no) db.passes)) (any (is_user row.created_by) db.users) h)

submits_own :
    (actor : Actor) (row : PassRow)
    → (actor.role == Role.admin || actor.role == Role.inventory) ≡ true
    → row.status ≡ Status.draft
    → row.created_by ≡ actor.id
    → allows actor Action.submit (context row) ≡ true
unfolding allows
submits_own actor row role status own =
    rw (status, own) (let self = eq_refl actor.id in ground arith)

-- Where the driver refuses no call, whoever has created a draft can submit it at once: the second
-- of the two calls that the form for a new pass makes succeeds whenever the first one did.
pub create_draft-submit :
    (order : List Field) (actor : Actor) (draft : Draft) (id : String) (w w' : World)
    → ((n : ℕ) → w'.fault n ≡ none)
    → create_draft order actor draft w ≡ (ok id, w')
    → (transition_by_id actor id Action.submit "" w').0 ≡ ok tt
create_draft-submit order actor draft id w w' calm made =
    let (valid, role, p) = create_draft-ok order actor draft w w' id made in
    let row = new_pass id p.pass_no none 0 (columns_of w.upper draft) actor.id w.now in
    let found : find (is_pass id) w'.db.passes ≡ some row =
      ap (λ db. find (is_pass id) db.passes) p.effect
      ∙ find-first (is_pass id) row w.db.passes (eq_refl id) in
    (transition_where_iff (is_pass id) actor Action.submit "" w' calm
        (ap (λ db. any (is_user actor.id) db.users) p.effect ∙ pass_holds-user row w.db p.holds)).1
      (row, Status.submitted, found, submits_own actor row role refl refl, refl, refl)
