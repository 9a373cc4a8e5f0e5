-- ===== src/Gatepass/Invariant/Frozen.antt =====
-- internal/gatepass/store.go: the audit event of a call, and the form of a pass under the calls.
use mgp.Base.{
  ℕ, ◌≡◌, ◌≢◌, ◌⊎◌, inl, inr, Bool, Bool-cases, true, false, refl, sym, subst, ap, ◌∙◌, List, ◌∷◌,
  Result, ok, err, find, update, any, Option, some, none, String, arith, eq_iff, eq_refl, ◌==◌,
  text_equality,
}
use mgp.Base.Keys.{find-update_self, find-update_other, find-key, any_of_find, false-of-ne}
use mathlib.Core.Bool.{false≢true}
use mgp.Gatepass.Store.{advance, stamp, context}
use mgp.Gatepass.Rows.{with_columns, columns_of, new_pass}
use mgp.Gatepass.Calls.Atomic.{run-atomic}
use mgp.Gatepass.Invariant.Preserved.{advance-status, pass_holds-fresh}
use mathlib.Core.Option.{some-injective}
use mgp.Rbac.{Status, Action, allows}
use mgp.Rbac.{Actor}
use mgp.Database.{World, pure}
use mgp.Database.Laws.{>>=-ok, pure-ok}
use mgp.Database.Tables.{AuditRow, PassRow, Db}
use mgp.Gatepass.Domain.{Draft, Field}
use mgp.Gatepass.Rows.{is_pass, has_number}
use mgp.Gatepass.Store.{create_draft, create_revision, action_text}
use mgp.Gatepass.Store.Effects.{Advanced, transition_where-ok}
use mgp.Gatepass.Store.Inserts.{Prepared}
use mgp.Gatepass.Store.Operations.{Edited, create_draft-ok, create_revision-ok, update_draft-ok}
use mgp.Gatepass.Invariant.{Inv}
use mgp.Gatepass.Calls.{Call, run}

-- The action that a call writes to the log.
abbrev pub logged_as : Call → String
logged_as (Call.create _) = "CREATE_DRAFT"
logged_as (Call.revise _ _) = "CREATE_REVISION"
logged_as (Call.edit _ _) = "EDIT_DRAFT"
logged_as (Call.act _ action _) = action_text action
logged_as (Call.act_by_id _ action _) = action_text action

-- An event about a gate pass that names who did what, and when.
abbrev pub Names : Actor → Call → World → AuditRow → Type 0
Names actor c w event =
    (event.entity_type ≡ "gate_pass")
    × (event.action ≡ logged_as c)
    × (event.actor_id ≡ actor.id)
    × (event.actor_role ≡ actor.role)
    × (event.created_at ≡ w.now)

-- A call that succeeds writes exactly one audit event, in front of those that were there, with the
-- call's action, its actor and their role, and the time.
pub run-logs :
    (order : List Field) (actor : Actor) (c : Call) (w w' : World)
    → run order actor c w ≡ (ok tt, w')
    → (event : AuditRow) × (w'.db.audit_events ≡ event ∷ w.db.audit_events) × Names actor c w event
unfolding run
run-logs order actor (Call.create draft) w w' h =
    let (id, u, stored, h₁) = >>=-ok (create_draft order actor draft) (λ _. pure tt) w h in
    let (_, _, p) = create_draft-ok order actor draft w u id stored in
    (
      _,
      ap (λ x. x.db.audit_events) (sym (pure-ok u tt h₁).1) ∙ ap (λ x. x.audit_events) p.effect,
      (refl, refl, refl, refl, refl),
    )
run-logs order actor (Call.revise pass_no draft) w w' h =
    let (id, u, stored, h₁) =
      >>=-ok (create_revision order actor pass_no draft) (λ _. pure tt) w h in
    let r = create_revision-ok order actor pass_no draft w u id stored in
    (
      _,
      ap (λ x. x.db.audit_events) (sym (pure-ok u tt h₁).1)
          ∙ ap (λ x. x.audit_events) r.stored.effect,
      (refl, refl, refl, refl, refl),
    )
run-logs order actor (Call.edit id draft) w w' h =
    let e = update_draft-ok order actor id draft w w' h in
    (_, ap (λ x. x.audit_events) e.effect, (refl, refl, refl, refl, refl))
run-logs order actor (Call.act pass_no action reason) w w' h =
    let a = transition_where-ok (has_number pass_no) actor action reason w h in
    (_, ap (λ x. x.audit_events) a.effect, (refl, refl, refl, refl, refl))
run-logs order actor (Call.act_by_id id action reason) w w' h =
    let a = transition_where-ok (is_pass id) actor action reason w h in
    (_, ap (λ x. x.audit_events) a.effect, (refl, refl, refl, refl, refl))

-- What stays of a row: its form, number, creator and original.
abbrev pub SameForm : PassRow → PassRow → Type 0
SameForm row row' =
    (row'.columns ≡ row.columns)
    × (row'.pass_no ≡ row.pass_no)
    × (row'.created_by ≡ row.created_by)
    × (row'.revision_of ≡ row.revision_of)
    × (row'.revision_no ≡ row.revision_no)

-- A change of one row: another row stays, and the row itself becomes what the change makes of it.
find-change :
    (rows : List PassRow) (changed row : PassRow) (f : PassRow → PassRow) (id : String)
    → find (is_pass changed.id) rows ≡ some changed
    → (f changed).id ≡ changed.id
    → find (is_pass id) rows ≡ some row
    → (find (is_pass id) (update (is_pass changed.id) f rows) ≡ some row)
      ⊎ ((row ≡ changed)
          × (find (is_pass id) (update (is_pass changed.id) f rows) ≡ some (f changed)))
find-change rows changed row f id found keeps read = elim (Bool-cases (changed.id == id)) [
  | inl same ↦
      let here : changed.id ≡ id = (eq_iff _ _).0 same in
      inr (
        some-injective _ _ (sym read ∙ ap (λ k. find (is_pass k) rows) (sym here) ∙ found),
        ap (λ k. find (is_pass k) (update (is_pass changed.id) f rows)) (sym here)
            ∙ find-update_self (is_pass changed.id) f rows changed found
                (rw keeps (eq_refl changed.id)),
      )
  | inr apart ↦ inl (
      find-update_other (is_pass changed.id) (is_pass id) f rows changed found apart
        (rw keeps apart)
      ∙ read)
]

module _ (id : String) (row : PassRow) (w : World) (valid : Inv w.db)
    (read : find (is_pass id) w.db.passes ≡ some row) (sent : row.status ≢ Status.draft) where
  abbrev Kept : Db → Type 0
  Kept db = (row' : PassRow) × (find (is_pass id) db.passes ≡ some row') × SameForm row row'

  unchanged : (db : Db) → find (is_pass id) db.passes ≡ some row → Kept db
  unchanged db e = (row, e, (refl, refl, refl, refl, refl))

  Prepared-Kept :
      (actor : Actor) (draft : Draft) (revision_of : Option String) (revision_no : ℕ)
      (action from new_id : String) (db : Db)
      → Prepared revision_of revision_no actor draft action from w new_id db
      → Kept db
  Prepared-Kept actor draft revision_of revision_no action from new_id db p =
      let (new, _) =
        pass_holds-fresh
          (new_pass new_id p.pass_no revision_of revision_no (columns_of w.upper draft) actor.id
            w.now)
          w.db p.holds in
      let other : (new_id == id) ≡ false = false-of-ne new_id id (λ same. false≢true (
        sym new
        ∙ ap (λ k. any (is_pass k) w.db.passes) same
        ∙ any_of_find (is_pass id) w.db.passes read)) in
      unchanged db (ap (λ x. find (is_pass id) x.passes) p.effect ∙ rw other read)

  Advanced-Kept :
      (picks : PassRow → Bool) (actor : Actor) (action : Action) (reason : String) (db : Db)
      → Advanced picks actor action reason w db
      → Kept db
  Advanced-Kept picks actor action reason db a =
      let f = advance action a.next actor reason (stamp w) in
      let (_, id_kept, number, columns, creator, original, count) =
        advance-status action a.next actor reason (stamp w) a.row in
      let found = find-key (λ r. r.id) picks w.db.passes a.row valid.distinct_ids a.found in
      elim (find-change w.db.passes a.row row f id found id_kept read) [
        | inl same ↦ unchanged db (ap (λ x. find (is_pass id) x.passes) a.effect ∙ same)
        | inr (it, e) ↦ (
          f a.row,
          ap (λ x. find (is_pass id) x.passes) a.effect ∙ e,
          (
            columns ∙ ap (λ r. r.columns) (sym it),
            number ∙ ap (λ r. r.pass_no) (sym it),
            creator ∙ ap (λ r. r.created_by) (sym it),
            original ∙ ap (λ r. r.revision_of) (sym it),
            count ∙ ap (λ r. r.revision_no) (sym it),
          ),
        )
      ]

  edits_drafts :
      (actor : Actor) (r : PassRow)
      → allows actor Action.edit_draft (context r) ≡ true
      → r.status ≡ Status.draft
  unfolding allows
  edits_drafts actor r h = ground arith

  Edited-Kept :
      (order : List Field) (actor : Actor) (pass_id : String) (draft : Draft) (db : Db)
      → Edited order actor pass_id draft w db
      → Kept db
  Edited-Kept order actor pass_id draft db e =
      let f = with_columns (columns_of w.upper draft) w.now in
      let found =
        find-key (λ r. r.id) (is_pass pass_id) w.db.passes e.row valid.distinct_ids e.found in
      elim (find-change w.db.passes e.row row f id found refl read) [
        | inl same ↦ unchanged db (ap (λ x. find (is_pass id) x.passes) e.effect ∙ same)
        | inr (it, _) ↦ absurd (sent (ap (λ r. r.status) it ∙ edits_drafts actor e.row e.granted))
      ]

  ok-Kept :
      (order : List Field) (actor : Actor) (c : Call) (w' : World)
      → run order actor c w ≡ (ok tt, w')
      → Kept w'.db
  unfolding run
  ok-Kept order actor (Call.create draft) w' h =
      let (new_id, u, stored, h₁) = >>=-ok (create_draft order actor draft) (λ _. pure tt) w h in
      let (_, _, p) = create_draft-ok order actor draft w u new_id stored in
      subst (λ x. Kept x.db) (pure-ok u tt h₁).1
        (Prepared-Kept actor draft none 0 "CREATE_DRAFT" "" new_id u.db p)
  ok-Kept order actor (Call.revise pass_no draft) w' h =
      let (new_id, u, stored, h₁) =
        >>=-ok (create_revision order actor pass_no draft) (λ _. pure tt) w h in
      let r = create_revision-ok order actor pass_no draft w u new_id stored in
      subst (λ x. Kept x.db) (pure-ok u tt h₁).1
        (Prepared-Kept actor draft _ _ "CREATE_REVISION" "NOT_APPROVED" new_id u.db r.stored)
  ok-Kept order actor (Call.edit pass_id draft) w' h =
      Edited-Kept order actor pass_id draft w'.db (update_draft-ok order actor pass_id draft w w' h)
  ok-Kept order actor (Call.act pass_no action reason) w' h =
      Advanced-Kept (has_number pass_no) actor action reason w'.db
        (transition_where-ok (has_number pass_no) actor action reason w h)
  ok-Kept order actor (Call.act_by_id pass_id action reason) w' h =
      Advanced-Kept (is_pass pass_id) actor action reason w'.db
        (transition_where-ok (is_pass pass_id) actor action reason w h)

  result-Kept :
      (order : List Field) (actor : Actor) (c : Call) (r : Result (Unit {0}) × World)
      → run order actor c w ≡ r
      → Kept r.1.db
  result-Kept order actor c (ok tt, w') h = ok-Kept order actor c w' h
  result-Kept order actor c (err e, w') h = unchanged w'.db (
      ap (λ x. find (is_pass id) x.passes)
        (sym (ap (λ r. r.1.db) h) ∙ run-atomic order actor c w e (ap (λ r. r.0) h))
      ∙ read)

-- In tables that satisfy the invariant, no call, whether it succeeds or fails, removes a pass that
-- is not a draft, or changes the columns of its form, its number, its creator or its original.
pub run-frozen :
    (id : String) (row : PassRow) (w : World) (order : List Field) (actor : Actor) (c : Call)
    → Inv w.db
    → find (is_pass id) w.db.passes ≡ some row
    → row.status ≢ Status.draft
    → (row' : PassRow) × (find (is_pass id) (run order actor c w).1.db.passes ≡ some row')
      × SameForm row row'
run-frozen id row w order actor c valid read sent =
    result-Kept id row w valid read sent order actor c (run order actor c w) refl
