-- ===== src/Gatepass/Store/Operations.antt =====
-- internal/gatepass/store.go: the effects of `CreateDraft`, `CreateRevision` and `UpdateDraft`.
use mgp.Base.{
  ℕ, ◌+◌, ◌≡◌, ap, ◌∙◌, true, String, Option, none, some, List, ◌∷◌, ◌++◌, ◌==◌, ◌||◌, update,
  length, find, ok, arith,
}
use mgp.Rbac.{role_equality, Role, Action, Actor, allows}
use mgp.Database.{World, tick}
use mgp.Database.Laws.{
  >>=-ok, statement-ok, read_row-ok, change-ok, check-ok, transaction-ok, require-ok,
}
use mgp.Database.Tables.{Columns, PassRow, ItemRow, Db}
use mgp.Gatepass.Domain.{Draft, Field, status_text, validate_draft}
use mgp.Gatepass.Rows.{
  columns_of, is_pass, has_number, pass_event, with_columns, columns_hold, delete_items,
  edit_columns,
}
use mgp.Gatepass.Store.{
  context, revision_context, insert_items, create_draft, revise_row, create_revision, edit_row,
  update_draft,
}
use mgp.Gatepass.Store.Inserts.{
  after, ItemsOf, insert_items-ok, append_audit-ok, Prepared, insert_draft-ok,
}

-- The count of calls is nothing to a stored draft.
recounted :
    (revision_of : Option String) (revision_no : ℕ) (actor : Actor) (draft : Draft)
    (action from : String) (w : World) (calls : ℕ) (id : String) (db db' : Db)
    → Prepared revision_of revision_no actor draft action from (after w w.db calls) id db
    → db' ≡ db
    → Prepared revision_of revision_no actor draft action from w id db'
recounted revision_of revision_no actor draft action from w calls id db db' p e = record {
  pass_no = p.pass_no;
  rows = p.rows;
  numbered = p.numbered;
  fresh = p.fresh;
  holds = p.holds;
  owned = p.owned;
  counted = p.counted;
  effect = e ∙ p.effect;
}

pub create_draft-ok :
    (order : List Field) (actor : Actor) (draft : Draft) (w w' : World) (id : String)
    → create_draft order actor draft w ≡ (ok id, w')
    → (validate_draft order draft ≡ none)
      × ((actor.role == Role.admin || actor.role == Role.inventory) ≡ true)
      × Prepared none 0 actor draft "CREATE_DRAFT" "" w id w'.db
unfolding create_draft
create_draft-ok order actor draft w w' id h =
    let (valid, h₁) = check-ok w (validate_draft order draft) _ h in
    let (may, h₂) =
      require-ok w (actor.role == Role.admin || actor.role == Role.inventory)
        "role cannot create drafts" _ h₁ in
    let (u, ran, done) = transaction-ok w _ h₂ in
    let p = insert_draft-ok none 0 actor draft "CREATE_DRAFT" "" (tick w) u id ran in
    (
      valid,
      may,
      recounted none 0 actor draft "CREATE_DRAFT" "" w (w.calls + 1) id u.db w'.db p
          (ap (λ x. x.db) done),
    )

-- A revision that was stored names a row that the policy let the actor revise.
pub record Revised (order : List Field) (actor : Actor) (original_pass_no : String) (draft : Draft)
    (w : World) (id : String) (db : Db) : Type 0 where
  pub original : PassRow
  pub valid : validate_draft order draft ≡ none
  pub found : find (has_number original_pass_no) w.db.passes ≡ some original
  pub granted : allows actor Action.revision (revision_context original) ≡ true
  pub stored :
      Prepared
        (some original.id)
        (original.revision_no + 1)
        actor
        draft
        "CREATE_REVISION"
        "NOT_APPROVED"
        w
        id
        db

pub create_revision-ok :
    (order : List Field) (actor : Actor) (original_pass_no : String) (draft : Draft) (w w' : World)
    (id : String)
    → create_revision order actor original_pass_no draft w ≡ (ok id, w')
    → Revised order actor original_pass_no draft w id w'.db
unfolding create_revision revise_row
create_revision-ok order actor original_pass_no draft w w' id h =
    let (valid, h₁) = check-ok w (validate_draft order draft) _ h in
    let (u, ran, done) = transaction-ok w _ h₁ in
    let (original, found, h₂) = read_row-ok (tick w) _ _ ran in
    let (granted, h₃) =
      require-ok (tick (tick w)) (allows actor Action.revision (revision_context original))
        "actor cannot revise this pass" _ h₂ in
    record {
      original = original;
      valid = valid;
      found = found;
      granted = granted;
      stored =
          recounted (some original.id) (original.revision_no + 1) actor draft "CREATE_REVISION"
            "NOT_APPROVED" w (w.calls + 1 + 1) id u.db w'.db
            (insert_draft-ok (some original.id) (original.revision_no + 1) actor draft
              "CREATE_REVISION" "NOT_APPROVED" (tick (tick w)) u id h₃)
            (ap (λ x. x.db) done);
    }

-- The tables after an edit of a row.
abbrev pub edited : PassRow → Actor → Draft → World → List ItemRow → Db
edited row actor draft w rows = record w.db {
  passes = update (is_pass row.id) (with_columns (columns_of w.upper draft) w.now) w.db.passes;
  items = rows ++ (delete_items row.id w.db).items;
  audit_events =
      pass_event row.id "EDIT_DRAFT" (status_text row.status) (status_text row.status) actor ""
        row.pass_no w.now
      ∷ w.db.audit_events;
}

edit_columns-ok :
    (id : String) (columns : Columns) (w : World) (db : Db)
    → edit_columns id columns w ≡ ok (tt, db)
    → (columns_hold columns ≡ true)
      × (db ≡ record w.db { passes = update (is_pass id) (with_columns columns w.now) w.db.passes })
unfolding edit_columns
edit_columns-ok id columns w db h = ground arith

edit_row-ok :
    (row : PassRow) (actor : Actor) (draft : Draft) (w w' : World)
    → edit_row row actor draft w ≡ (ok tt, w')
    → (rows : List ItemRow) × (allows actor Action.edit_draft (context row) ≡ true)
      × (columns_hold (columns_of w.upper draft) ≡ true)
      × ItemsOf row.id rows
      × (length rows ≡ length draft.items)
      × (w'.db ≡ edited row actor draft w rows)
unfolding edit_row
edit_row-ok row actor draft w w' h =
    let (granted, h₁) =
      require-ok w (allows actor Action.edit_draft (context row)) "actor cannot edit this pass" _
        h in
    let (_, db₁, changed, h₂) = statement-ok w _ _ h₁ in
    let (holds, e₁) = edit_columns-ok row.id _ w db₁ changed in
    let h₃ = change-ok (record (tick w) { db = db₁ }) _ _ h₂ in
    let (_, w₃, stored, h₄) = >>=-ok (insert_items row.id draft.items) _ _ h₃ in
    let (rows, owned, counted, e₃) = insert_items-ok row.id draft.items _ w₃ stored in
    let e₄ = append_audit-ok _ _ _ _ _ _ _ w₃ w' h₄ in
    (rows, granted, holds, owned, counted, cc (e₁, e₃, e₄))

-- An edit that succeeds found a row that the policy let the actor edit, and replaced the columns of
-- the form and the items.
pub record Edited (order : List Field) (actor : Actor) (pass_id : String) (draft : Draft)
    (w : World) (db : Db) : Type 0 where
  pub row : PassRow
  pub rows : List ItemRow
  pub valid : validate_draft order draft ≡ none
  pub found : find (is_pass pass_id) w.db.passes ≡ some row
  pub granted : allows actor Action.edit_draft (context row) ≡ true
  pub holds : columns_hold (columns_of w.upper draft) ≡ true
  pub owned : ItemsOf row.id rows
  pub counted : length rows ≡ length draft.items
  pub effect : db ≡ edited row actor draft w rows

pub update_draft-ok :
    (order : List Field) (actor : Actor) (pass_id : String) (draft : Draft) (w w' : World)
    → update_draft order actor pass_id draft w ≡ (ok tt, w')
    → Edited order actor pass_id draft w w'.db
unfolding update_draft
update_draft-ok order actor pass_id draft w w' h =
    let (valid, h₁) = check-ok w (validate_draft order draft) _ h in
    let (u, ran, done) = transaction-ok w _ h₁ in
    let (row, found, h₂) = read_row-ok (tick w) _ _ ran in
    let (rows, granted, holds, owned, counted, effect) =
      edit_row-ok row actor draft (tick (tick w)) u h₂ in
    record {
      row = row;
      rows = rows;
      valid = valid;
      found = found;
      granted = granted;
      holds = holds;
      owned = owned;
      counted = counted;
      effect = ap (λ x. x.db) done ∙ effect;
    }
