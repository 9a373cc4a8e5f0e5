-- ===== src/Masterdata/Unique.antt =====
-- internal/masterdata/store.go: the identities of the active items, and imports.
use mgp.Base.{
  ℕ, ◌+◌, ◌≡◌, refl, ap, ◌∙◌, sym, Bool-cases, false, ◌&&◌, inl, inr, Option-cases, some, String,
  List, [], ◌∷◌, any, update, length, Result, ok, err, Failure, arith, subst,
}
use mgp.Database.{World, statement, tick, conclude}
use mgp.Database.Laws.{transaction-err, transaction-ok, statement-ok, require-ok, pure-ok}
use mgp.Database.Tables.{InventoryRow, Db}
use mgp.Masterdata.{
  InventoryItem, is_active, same_item, is_active_item, insert_inventory, insert_rows,
  import_inventory, create_inventory, archive_inventory, is_named, new_item, has_rows, all_named,
}

-- No two active rows have the same code, serial number and batch.
abbrev pub Unique : List InventoryRow → Type 0
Unique [] = Unit
Unique (row ∷ rows) =
    ((is_active row.archived_at && any (same_item row) rows) ≡ false) × Unique rows

abbrev archived : ℕ → InventoryRow → InventoryRow
archived now row = record row { archived_at = some now }

any-archived :
    (new : InventoryRow) (id : String) (now : ℕ) (rows : List InventoryRow)
    → any (same_item new) rows ≡ false
    → any (same_item new) (update (is_active_item id) (archived now) rows) ≡ false
any-archived new id now [] h = refl
any-archived new id now (row ∷ rows) h = elim (Bool-cases (is_active_item id row)) [
  | inl e ↦ rw e (ground arith)
  | inr e ↦ rw e (let rest = any-archived new id now rows in ground arith)
]

Unique-archived :
    (id : String) (now : ℕ) (rows : List InventoryRow)
    → Unique rows
    → Unique (update (is_active_item id) (archived now) rows)
Unique-archived id now [] u = tt
Unique-archived id now (row ∷ rows) u = elim (Bool-cases (is_active_item id row)) [
  | inl e ↦ rw e (refl, u.1)
  | inr e ↦ rw e (
    let rest = any-archived row id now rows in let first = u.0 in ground arith,
    Unique-archived id now rows u.1,
  )
]

-- What an insert does when it succeeds.
insert_inventory-ok :
    (item : InventoryItem) (w : World) (id : String) (db : Db)
    → insert_inventory item w ≡ ok (id, db)
    → (row : InventoryRow) × (any (same_item row) w.db.inventory ≡ false)
      × (db.inventory ≡ row ∷ w.db.inventory)
unfolding insert_inventory
insert_inventory-ok item w id db h = elim (Option-cases (w.numeric_text item.quantity)) [
  | inl e ↦ absurd (ground arith)
  | inr (quantity, e) ↦ (new_item (w.fresh w.db.ids) quantity item, ground arith, ground arith)
]

-- The loop stores a row for each item and keeps the identities apart.
insert_rows-ok :
    (items : List InventoryItem) (w w' : World)
    → insert_rows items w ≡ (ok tt, w')
    → Unique w.db.inventory
    → Unique w'.db.inventory × (length w'.db.inventory ≡ length items + length w.db.inventory)
unfolding insert_rows
insert_rows-ok [] w w' h u =
    let (_, e) = pure-ok w tt h in (subst (λ x. Unique x.db.inventory) e u, rw e (omega arith))
insert_rows-ok (item ∷ items) w w' h u =
    let (id, db, stored, h₁) = statement-ok w (insert_inventory item) _ h in
    let (row, apart, e) = insert_inventory-ok item w id db stored in
    let (kept, counted) =
      insert_rows-ok items (record (tick w) { db = db }) w' h₁
        (subst Unique (sym e) (ground arith, u)) in
    (kept, counted ∙ rw e (omega arith))

-- An import that fails leaves every table as it was; one that succeeds adds a row for each of its
-- items and keeps the identities apart.
abbrev pub Imported : List InventoryItem → Db → Result (Unit {0}) × World → Type 0
Imported items before (err e, w) = w.db ≡ before
Imported items before (ok tt, w) =
    Unique w.db.inventory × (length w.db.inventory ≡ length items + length before.inventory)

import_inventory-err :
    (items : List InventoryItem) (w w' : World) (e : Failure)
    → import_inventory items w ≡ (err e, w')
    → w'.db ≡ w.db
unfolding import_inventory
import_inventory-err items w w' e h = elim (Bool-cases (has_rows items)) [
  | inl rows ↦ elim (Bool-cases (all_named items)) [
    | inl named ↦
        let k = rw (rows, named) at h in
        sym (ap (λ r. r.1.db) k) ∙ transaction-err (insert_rows items) w (ap (λ r. r.0) k)
    | inr unnamed ↦ let k = rw (rows, unnamed) at h in ground arith
  ]
  | inr empty ↦ let k = rw empty at h in ground arith
]

import_inventory-ok :
    (items : List InventoryItem) (w w' : World)
    → import_inventory items w ≡ (ok tt, w')
    → Unique w.db.inventory
    → Unique w'.db.inventory × (length w'.db.inventory ≡ length items + length w.db.inventory)
unfolding import_inventory
import_inventory-ok items w w' h u =
    let (_, h₁) = require-ok w (has_rows items) _ _ h in
    let (_, h₂) = require-ok w (all_named items) _ _ h₁ in
    let (v, ran, done) = transaction-ok w _ h₂ in
    let (kept, counted) = insert_rows-ok items (tick w) v ran u in
    (
      subst (λ x. Unique x.db.inventory) (sym done) kept,
      ap (λ x. length x.db.inventory) done ∙ counted,
    )

imported :
    (items : List InventoryItem) (w : World) (r : Result (Unit {0}) × World)
    → import_inventory items w ≡ r
    → Unique w.db.inventory
    → Imported items w.db r
imported items w (err e, w') h u = import_inventory-err items w w' e h
imported items w (ok tt, w') h u = import_inventory-ok items w w' h u

-- From an inventory whose active items have different identities, an import stores all of its rows
-- or changes nothing: if it fails, every table stays; if it succeeds, there is one more row for each
-- of its items, and the active items still have different identities.
pub import_inventory-Imported :
    (items : List InventoryItem) (w : World)
    → Unique w.db.inventory
    → Imported items w.db (import_inventory items w)
import_inventory-Imported items w u = imported items w (import_inventory items w) refl u

inserted-Unique :
    (item : InventoryItem) (w : World) (r : Result (String × Db))
    → insert_inventory item w ≡ r
    → Unique w.db.inventory
    → Unique (conclude r w).1.db.inventory
inserted-Unique item w (err e) h u = u
inserted-Unique item w (ok (id, db)) h u =
    let (row, apart, e) = insert_inventory-ok item w id db h in
    subst Unique (sym e) (ground arith, u)

-- Creating an item and archiving one, whether they succeed or fail, keep the identities of the
-- active items different.
pub create_archive-Unique :
    (item : InventoryItem) (id : String) (w : World)
    → Unique w.db.inventory
    → Unique (create_inventory item w).1.db.inventory
      × Unique (archive_inventory id w).1.db.inventory
unfolding create_inventory archive_inventory statement
create_archive-Unique item id w u = elim (Option-cases (w.fault w.calls)) [
  | inl calm ↦ (
    elim (Bool-cases (is_named item)) [
      | inl named ↦ rw (named, calm) (inserted-Unique item w (insert_inventory item w) refl u)
      | inr unnamed ↦ rw unnamed u
    ],
    rw calm (Unique-archived id w.now w.db.inventory u),
  )
  | inr (text, refused) ↦ (
    elim (Bool-cases (is_named item)) [
      | inl named ↦ rw (named, refused) u
      | inr unnamed ↦ rw unnamed u
    ],
    rw refused u,
  )
]
