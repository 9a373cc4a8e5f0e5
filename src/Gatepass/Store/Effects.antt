-- ===== src/Gatepass/Store/Effects.antt =====
-- internal/gatepass/store.go: the effect of `transition`.
use mgp.Base.{
  ◌≡◌, Bool, true, false, ap, ◌∙◌, Option-cases, inl, inr, ◌&&◌, String, some, ◌∷◌, find, update,
  ok, arith,
}
use mgp.Base.Text.{is_blank}
use mgp.Rbac.{Status, Action, Actor, allows}
use mgp.Database.{World, statement, tick}
use mgp.Database.Laws.{read_row-ok, transaction-ok}
use mgp.Database.Tables.{PassRow, Db}
use mgp.Gatepass.Domain.{status_text}
use mgp.Gatepass.Rows.{is_pass, append_audit, pass_event}
use mgp.Gatepass.Store.{
  context, action_text, next_status, advance, stamp, update_status, is_reject, transition_where,
  write_transition, transition_row,
}

-- The tables after a transition of a row.
abbrev pub advanced : PassRow → Action → Status → Actor → String → World → Db
advanced row action next actor reason w = record w.db {
  passes = update (is_pass row.id) (advance action next actor reason (stamp w)) w.db.passes;
  audit_events =
      pass_event row.id (action_text action) (status_text row.status) (status_text next) actor
        reason row.pass_no w.now
      ∷ w.db.audit_events;
}

module _ (row : PassRow) (actor : Actor) (action : Action) (reason : String) (w w' : World) where
  write_transition-ok :
      (next : Status)
      → write_transition row action next actor reason w ≡ (ok tt, w')
      → w'.db ≡ advanced row action next actor reason w
  unfolding write_transition statement update_status append_audit
  write_transition-ok next h = ground arith

  transition_row-ok :
      transition_row row actor action reason w ≡ (ok tt, w')
      → (next : Status) × (allows actor action (context row) ≡ true)
        × ((is_reject action && is_blank reason) ≡ false)
        × (next_status action ≡ some next)
        × (w'.db ≡ advanced row action next actor reason w)
  unfolding transition_row
  transition_row-ok h = elim (Option-cases (next_status action)) [
    | inl stuck ↦ absurd (ground arith)
    | inr (next, leads) ↦
        (next, ground arith, ground arith, leads, ground (arith, write_transition-ok next))
  ]

-- A transition that succeeds found a row, was granted, and changed the row and the log alone.
pub record Advanced (picks : PassRow → Bool) (actor : Actor) (action : Action) (reason : String)
    (w : World) (db : Db) : Type 0 where
  pub row : PassRow
  pub next : Status
  pub found : find picks w.db.passes ≡ some row
  pub granted : allows actor action (context row) ≡ true
  pub reasoned : (is_reject action && is_blank reason) ≡ false
  pub leads : next_status action ≡ some next
  pub effect : db ≡ advanced row action next actor reason w

pub transition_where-ok :
    (picks : PassRow → Bool) (actor : Actor) (action : Action) (reason : String) (w : World)
    {w' : World}
    → transition_where picks actor action reason w ≡ (ok tt, w')
    → Advanced picks actor action reason w w'.db
unfolding transition_where
transition_where-ok picks actor action reason w {w'} h =
    let (u, ran, done) = transaction-ok w _ h in
    let (row, found, h₁) = read_row-ok (tick w) _ _ ran in
    let (next, granted, reasoned, leads, effect) =
      transition_row-ok row actor action reason (tick (tick w)) u h₁ in
    record {
      row = row;
      next = next;
      found = found;
      granted = granted;
      reasoned = reasoned;
      leads = leads;
      effect = ap (λ x. x.db) done ∙ effect;
    }
