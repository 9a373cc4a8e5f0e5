-- ===== src/Gatepass/Invariant/Preserved.antt =====
-- internal/gatepass/store.go: the invariant under each operation that succeeds.
use mgp.Base.{
  ℕ, ◌≡◌, refl, sym, subst, Bool, true, false, String, Option, some, List, any, find, All-find,
  All-update, arith,
}
use mgp.Base.Keys.{Distinct-update, find-key}
use mgp.Rbac.{Status, Action, Actor}
use mgp.Database.{World}
use mgp.Database.Tables.{PassRow, Db}
use mgp.Gatepass.Domain.{Draft, Field, status_text}
use mgp.Gatepass.Rows.{
  is_pass, has_number, new_pass, columns_of, pass_holds, with_columns, nullif_empty,
}
use mgp.Gatepass.Store.{advance, stamp, Stamp}
use mgp.Gatepass.Store.Effects.{Advanced}
use mgp.Gatepass.Store.Inserts.{Prepared}
use mgp.Gatepass.Store.Operations.{Edited}
use mgp.Gatepass.Invariant.{Shape, Inv, is_creation}
use mgp.Gatepass.Invariant.Shape.{advance-Shape, with_columns-Shape}
use mgp.Gatepass.Invariant.Trail.{replay-update, replay-insert, nullif-status_text}

pub pass_holds-fresh :
    (row : PassRow) (db : Db)
    → pass_holds row db ≡ true
    → (any (is_pass row.id) db.passes ≡ false) × (any (has_number row.pass_no) db.passes ≡ false)
pass_holds-fresh row db h = ground arith

module _ (actor : Actor) (draft : Draft) (w : World) (valid : Inv w.db) where
  -- A stored draft, of either kind.
  pub Prepared-Inv :
      (revision_of : Option String) (revision_no : ℕ) (action from id : String) (db : Db)
      → is_creation action ≡ true
      → Prepared revision_of revision_no actor draft action from w id db
      → Inv db
  Prepared-Inv revision_of revision_no action from id db creates p =
      let row =
        new_pass id p.pass_no revision_of revision_no (columns_of w.upper draft) actor.id w.now in
      let (new_id, new_number) = pass_holds-fresh row w.db p.holds in
      subst Inv (sym p.effect) (record {
        distinct_ids = (new_id, valid.distinct_ids);
        distinct_numbers = (new_number, valid.distinct_numbers);
        shapes = ((refl, refl, refl), valid.shapes);
        trail =
            replay-insert w.db.passes w.db.audit_events _ refl row valid.trail refl creates refl
              new_id;
      })

-- A transition sets the status, and leaves the form, the keys and the creator alone.
pub advance-status :
    (action : Action) (next : Status) (actor : Actor) (reason : String) (at : Stamp) (row : PassRow)
    → ((advance action next actor reason at row).status ≡ next)
      × ((advance action next actor reason at row).id ≡ row.id)
      × ((advance action next actor reason at row).pass_no ≡ row.pass_no)
      × ((advance action next actor reason at row).columns ≡ row.columns)
      × ((advance action next actor reason at row).created_by ≡ row.created_by)
      × ((advance action next actor reason at row).revision_of ≡ row.revision_of)
      × ((advance action next actor reason at row).revision_no ≡ row.revision_no)
unfolding advance
advance-status action next actor reason at row = ground arith

-- A transition.
pub Advanced-Inv :
    (picks : PassRow → Bool) (actor : Actor) (action : Action) (reason : String) (w : World)
    (db : Db)
    → Inv w.db
    → Advanced picks actor action reason w db
    → Inv db
Advanced-Inv picks actor action reason w db valid a =
    let f = advance action a.next actor reason (stamp w) in
    let found : find (is_pass a.row.id) w.db.passes ≡ some a.row =
      find-key (λ r. r.id) picks w.db.passes a.row valid.distinct_ids a.found in
    let shape = All-find Shape picks w.db.passes valid.shapes a.found in
    let shape' =
      advance-Shape a.row actor action a.next reason (stamp w) shape a.granted a.reasoned a.leads in
    let keeps = λ (r : PassRow). advance-status action a.next actor reason (stamp w) r in
    subst Inv (sym a.effect) (record {
      distinct_ids =
          Distinct-update (λ r. r.id) (is_pass a.row.id) f w.db.passes (λ r. (keeps r).1)
            valid.distinct_ids;
      distinct_numbers =
          Distinct-update (λ r. r.pass_no) (is_pass a.row.id) f w.db.passes (λ r. (keeps r).2)
            valid.distinct_numbers;
      shapes = All-update Shape (is_pass a.row.id) f w.db.passes valid.shapes found shape';
      trail =
          replay-update w.db.passes w.db.audit_events _ refl a.row f valid.trail refl
            (nullif-status_text a.row shape)
            (subst (λ s. nullif_empty (status_text s) ≡ some (status_text (f a.row).status))
              (keeps a.row).0 (nullif-status_text (f a.row) shape'))
            found (keeps a.row).1;
    })

-- An edit.
pub Edited-Inv :
    (order : List Field) (actor : Actor) (pass_id : String) (draft : Draft) (w : World) (db : Db)
    → Inv w.db
    → Edited order actor pass_id draft w db
    → Inv db
Edited-Inv order actor pass_id draft w db valid e =
    let f = with_columns (columns_of w.upper draft) w.now in
    let found : find (is_pass e.row.id) w.db.passes ≡ some e.row =
      find-key (λ r. r.id) (is_pass pass_id) w.db.passes e.row valid.distinct_ids e.found in
    let shape = All-find Shape (is_pass pass_id) w.db.passes valid.shapes e.found in
    let shape' = with_columns-Shape e.row actor (columns_of w.upper draft) w.now shape e.granted in
    subst Inv (sym e.effect) (record {
      distinct_ids =
          Distinct-update (λ r. r.id) (is_pass e.row.id) f w.db.passes (λ r. refl)
            valid.distinct_ids;
      distinct_numbers =
          Distinct-update (λ r. r.pass_no) (is_pass e.row.id) f w.db.passes (λ r. refl)
            valid.distinct_numbers;
      shapes = All-update Shape (is_pass e.row.id) f w.db.passes valid.shapes found shape';
      trail =
          replay-update w.db.passes w.db.audit_events _ refl e.row f valid.trail refl
            (nullif-status_text e.row shape) (nullif-status_text e.row shape) found refl;
    })
