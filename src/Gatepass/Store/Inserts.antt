-- ===== src/Gatepass/Store/Inserts.antt =====
-- internal/gatepass/store.go: what the inserts of a draft, a revision and an edit do when they succeed.
use mgp.Base.{
  ℕ, ◌+◌, ◌≡◌, refl, subst, ◌∙◌, true, Option-cases, inl, inr, String, Option, List, [], ◌∷◌, ◌++◌,
  All, length, length-append, All-append, ok, arith,
}
use mathlib.Core.List.{append_assoc}
use mgp.Rbac.{role_equality, Status, Actor}
use mgp.Database.{World, statement, tick}
use mgp.Database.Laws.{>>=-ok, statement-ok, pure-ok}
use mgp.Database.Tables.{Columns, ItemRow, Db}
use mgp.Gatepass.Domain.{Item, Draft, status_text}
use mgp.Gatepass.Numbering.{pass_number, current_number, bump, next_pass_number}
use mgp.Gatepass.Rows.{
  columns_of, new_pass, pass_holds, insert_pass, insert_item, item_row, append_audit, pass_event,
}
use mgp.Gatepass.Store.{insert_items, insert_draft}

-- A world whose tables and count of calls alone differ from those of another.
abbrev pub after : World → Db → ℕ → World
after w db calls = record w { db = db; calls = calls }

abbrev pub ItemsOf : String → List ItemRow → Type 0
ItemsOf id rows = All (λ row. row.gate_pass_id ≡ id) rows

pub insert_item-ok :
    (id : String) (item : Item) (w w' : World)
    → insert_item id item w ≡ (ok tt, w')
    → (row : ItemRow) × (row.gate_pass_id ≡ id)
      × (w' ≡ after w (record w.db { items = row ∷ w.db.items }) (w.calls + 1))
unfolding insert_item statement
insert_item-ok id item w w' h = elim (Option-cases (w.numeric item.quantity)) [
  | inl refused ↦ absurd (ground arith)
  | inr (quantity, stored) ↦ (item_row id quantity item, refl, ground arith)
]

grow :
    (rows : List ItemRow) (row : ItemRow) (w u w' : World)
    → u ≡ after w (record w.db { items = row ∷ w.db.items }) (w.calls + 1)
    → w' ≡ after u (record u.db { items = rows ++ u.db.items }) w'.calls
    → w' ≡ after w (record w.db { items = (rows ++ row ∷ []) ++ w.db.items }) w'.calls
grow rows row w u w' e k = rw append_assoc (cc (e, k))

-- The loop over the items stores a row for each.
pub insert_items-ok :
    (id : String) (items : List Item) (w w' : World)
    → insert_items id items w ≡ (ok tt, w')
    → (rows : List ItemRow) × ItemsOf id rows
      × (length rows ≡ length items)
      × (w' ≡ after w (record w.db { items = rows ++ w.db.items }) w'.calls)
unfolding insert_items
insert_items-ok id [] w w' h = ([], tt, refl, ground arith)
insert_items-ok id (item ∷ items) w w' h =
    let (_, u, stored, h₁) = >>=-ok (insert_item id item) (λ _. insert_items id items) w h in
    let (row, owned, e) = insert_item-ok id item w u stored in
    let (rows, all_owned, counted, k) = insert_items-ok id items u w' h₁ in
    (
      rows ++ row ∷ [],
      All-append (λ r. r.gate_pass_id ≡ id) rows (row ∷ []) all_owned (owned, tt),
      length-append rows (row ∷ []) ∙ omega (arith, counted),
      grow rows row w u w' e k,
    )

next_pass_number-ok :
    (directorate project : String) (year : ℕ) (db db' : Db) (pass_no : String)
    → next_pass_number directorate project year db ≡ ok (pass_no, db')
    → (pass_no
        ≡ pass_number directorate project year
            (current_number directorate project year db.sequences + 1))
      × (db' ≡ record db { sequences = bump directorate project year db.sequences })
unfolding next_pass_number
next_pass_number-ok directorate project year db db' pass_no h = ground arith

insert_pass-ok :
    (pass_no : String) (revision_of : Option String) (revision_no : ℕ) (columns : Columns)
    (created_by id : String) (w : World) (db : Db)
    → insert_pass pass_no revision_of revision_no columns created_by w ≡ ok (id, db)
    → let row = new_pass id pass_no revision_of revision_no columns created_by w.now in
      (id ≡ w.fresh w.db.ids)
      × (pass_holds row w.db ≡ true)
      × (db ≡ record w.db { passes = row ∷ w.db.passes; ids = w.db.ids + 1 })
unfolding insert_pass
insert_pass-ok pass_no revision_of revision_no columns created_by id w db h = ground arith

pub append_audit-ok :
    (pass_id action from to : String) (actor : Actor) (reason pass_no : String) (w w' : World)
    → append_audit pass_id action from to actor reason pass_no w ≡ (ok tt, w')
    → w'.db ≡ record w.db {
      audit_events =
          pass_event pass_id action from to actor reason pass_no w.now ∷ w.db.audit_events;
    }
unfolding append_audit statement
append_audit-ok pass_id action from to actor reason pass_no w w' h = ground arith

module _ (revision_of : Option String) (revision_no : ℕ) (actor : Actor) (draft : Draft)
    (action from : String) (w : World) where
  -- The tables after the inserts of a draft, by the key and the items that it was given.
  abbrev pub prepared : String → String → List ItemRow → Db
  prepared id pass_no rows = record w.db {
    sequences = bump draft.directorate draft.project draft.pass_date.year w.db.sequences;
    passes =
        new_pass id pass_no revision_of revision_no (columns_of w.upper draft) actor.id w.now
        ∷ w.db.passes;
    items = rows ++ w.db.items;
    audit_events =
        pass_event id action from (status_text Status.draft) actor "" pass_no w.now
        ∷ w.db.audit_events;
    ids = w.db.ids + 1;
  }

  -- A draft that was stored has the next number of its counter and a new key, and keeps the
  -- constraints of the table.
  pub record Prepared (id : String) (db : Db) : Type 0 where
    pub pass_no : String
    pub rows : List ItemRow
    pub numbered :
        pass_no
        ≡ pass_number draft.directorate draft.project draft.pass_date.year
            (current_number draft.directorate draft.project draft.pass_date.year w.db.sequences + 1)
    pub fresh : id ≡ w.fresh w.db.ids
    pub holds :
        pass_holds
          (new_pass id pass_no revision_of revision_no (columns_of w.upper draft) actor.id w.now)
          w.db
        ≡ true
    pub owned : ItemsOf id rows
    pub counted : length rows ≡ length draft.items
    pub effect : db ≡ prepared id pass_no rows

  assemble :
      (id id' pass_no : String) (rows : List ItemRow) (db₁ db₂ : Db) (w₃ w₄ w' : World)
      → pass_no
        ≡ pass_number draft.directorate draft.project draft.pass_date.year
            (current_number draft.directorate draft.project draft.pass_date.year w.db.sequences + 1)
      → db₁ ≡ record w.db {
        sequences = bump draft.directorate draft.project draft.pass_date.year w.db.sequences;
      }
      → (id' ≡ w.fresh db₁.ids)
        × (pass_holds
              (new_pass id' pass_no revision_of revision_no
                (columns_of w.upper draft)
                actor.id
                w.now)
              db₁
            ≡ true)
        × (db₂ ≡ record db₁ {
          passes =
              new_pass id' pass_no revision_of revision_no (columns_of w.upper draft) actor.id w.now
              ∷ db₁.passes;
          ids = db₁.ids + 1;
        })
      → ItemsOf id' rows
        × (length rows ≡ length draft.items)
        × (w₃ ≡ after w (record db₂ { items = rows ++ db₂.items }) w₃.calls)
      → w₄.db ≡ record w₃.db {
        audit_events =
            pass_event id' action from (status_text Status.draft) actor "" pass_no w₃.now
            ∷ w₃.db.audit_events;
      }
      → (id' ≡ id) × (w₄ ≡ w')
      → Prepared id w'.db
  assemble id id' pass_no rows db₁ db₂ w₃ w₄ w' numbered e₁ (fresh, holds, e₂) (owned, counted, e₃)
        e₄ (same, ends) =
      record {
        pass_no = pass_no;
        rows = rows;
        numbered = numbered;
        fresh = cc (e₁, fresh, same);
        holds = ground arith;
        owned = subst (λ x. ItemsOf x rows) same owned;
        counted = counted;
        effect = cc (e₁, e₂, e₃, e₄, same, ends);
      }

  pub insert_draft-ok :
      (w' : World) (id : String)
      → insert_draft revision_of revision_no actor draft action from w ≡ (ok id, w')
      → Prepared id w'.db
  unfolding insert_draft
  insert_draft-ok w' id h =
      let (pass_no, db₁, taken, h₁) = statement-ok w _ _ h in
      let (numbered, e₁) = next_pass_number-ok _ _ _ w.db db₁ pass_no taken in
      let (id', db₂, inserted, h₂) = statement-ok (record (tick w) { db = db₁ }) _ _ h₁ in
      let (fresh, holds, e₂) =
        insert_pass-ok pass_no revision_of revision_no _ _ id' (record (tick w) { db = db₁ }) db₂
          inserted in
      let (_, w₃, stored, h₃) = >>=-ok (insert_items id' draft.items) _ _ h₂ in
      let (rows, owned, counted, e₃) = insert_items-ok id' draft.items _ w₃ stored in
      let (_, w₄, logged, h₄) =
        >>=-ok (append_audit id' action from (status_text Status.draft) actor "" pass_no) _ w₃ h₃ in
      let e₄ = append_audit-ok _ _ _ _ _ _ _ w₃ w₄ logged in
      assemble id id' pass_no rows db₁ db₂ w₃ w₄ w' numbered e₁ (fresh, holds, e₂)
        (owned, counted, e₃) e₄ (pure-ok w₄ id' h₄)
