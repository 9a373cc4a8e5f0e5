-- ===== src/Masterdata.antt =====
-- internal/masterdata/store.go: the master data of inventory and consignees.
pub mod Unique
use mgp.Base.{
  ℕ, ◌+◌, Bool, true, false, not, ◌&&◌, ◌||◌, String, Option, none, some, List, [], ◌∷◌, ◌==◌,
  text_equality, nat_equality, ltb, any, update, map, sort_by, if◌then◌else◌, Failure, message,
  driver, Result, ok, err,
}
use mgp.Base.Text.{trim_space, is_blank}
use mgp.Database.{World, M, pure, ◌>>=◌, ◌>>◌, require, statement, read_only, change, transaction}
use mgp.Database.Tables.{InventoryRow, ConsigneeRow, Db}

pub record InventoryItem : Type 0 where
  pub id : String
  pub code : String
  pub name : String
  pub category : String
  pub serial_no : String
  pub batch_no : String
  pub unit : String
  pub holder : String
  pub description : String
  pub status : String
  pub quantity : String

pub record Consignee : Type 0 where
  pub id : String
  pub name : String
  pub address : String
  pub contact : String
  pub status : String

abbrev pub is_active : Option ℕ → Bool
is_active none = true
is_active (some _) = false

-- The unique index on the identity of the active items.
abbrev pub same_item : InventoryRow → InventoryRow → Bool
same_item new row =
    is_active row.archived_at
    && row.item_code == new.item_code
    && row.serial_no == new.serial_no
    && row.batch_no == new.batch_no

abbrev pub is_item : String → InventoryRow → Bool
is_item id row = row.id == id

abbrev pub new_item : String → String → InventoryItem → InventoryRow
new_item id quantity item = record {
  id = id;
  item_code = trim_space item.code;
  item_name = trim_space item.name;
  category = item.category;
  serial_no = item.serial_no;
  batch_no = item.batch_no;
  unit_of_measure = item.unit;
  quantity = quantity;
  holder = item.holder;
  description = item.description;
  archived_at = none;
}

abbrev pub add_row : InventoryRow → Db → Result (String × Db)
add_row row db =
    if any (is_item row.id) db.inventory || any (same_item row) db.inventory
    then err (driver "inventory_items: a unique key is violated")
    else ok (row.id, record db { inventory = row ∷ db.inventory; ids = db.ids + 1 })

abbrev pub add_inventory : Option String → InventoryItem → World → Result (String × Db)
add_inventory none item w = err (driver "inventory_items: quantity")
add_inventory (some quantity) item w = add_row (new_item (w.fresh w.db.ids) quantity item) w.db

-- `INSERT INTO inventory_items … RETURNING id`.
unfoldable pub insert_inventory : InventoryItem → World → Result (String × Db)
insert_inventory item w = add_inventory (w.numeric_text item.quantity) item w

abbrev pub is_named : InventoryItem → Bool
is_named item = not (is_blank item.code || is_blank item.name)

-- The loop that checks every row before any is stored.
pub all_named : List InventoryItem → Bool
all_named [] = true
all_named (item ∷ items) = if is_named item then all_named items else false

-- The loop that stores the rows.
unfoldable pub insert_rows : List InventoryItem → M (Unit {0})
insert_rows [] = pure tt
insert_rows (item ∷ items) = statement (insert_inventory item) >>= λ _. insert_rows items

abbrev pub has_rows : List InventoryItem → Bool
has_rows [] = false
has_rows (_ ∷ _) = true

-- `ImportInventory`.
unfoldable pub import_inventory : List InventoryItem → M (Unit {0})
unfolding all_named
import_inventory items = do
  require (has_rows items) "CSV contains no inventory rows"
  require (all_named items) "every row needs an item code and name"
  transaction (insert_rows items)

-- `CreateInventory`.
unfoldable pub create_inventory : InventoryItem → M String
create_inventory item = do
  require (is_named item) "item code and name are required"
  statement (insert_inventory item)

abbrev pub is_active_item : String → InventoryRow → Bool
is_active_item id row = row.id == id && is_active row.archived_at

-- `ArchiveInventory`.
unfoldable pub archive_inventory : String → M (Unit {0})
archive_inventory id = statement (
    change λ w. record w.db {
      inventory =
          update (is_active_item id) (λ row. record row { archived_at = some w.now })
            w.db.inventory;
    })

-- The unique index on the names of the active consignees.
abbrev pub same_consignee : (String → String) → ConsigneeRow → ConsigneeRow → Bool
same_consignee lower new row = is_active row.archived_at && lower row.name == lower new.name

abbrev pub is_consignee : String → ConsigneeRow → Bool
is_consignee id row = row.id == id

abbrev new_consignee : String → Consignee → ConsigneeRow
new_consignee id item = record {
  id = id;
  name = trim_space item.name;
  address = item.address;
  contact = item.contact;
  archived_at = none;
}

-- `INSERT INTO consignees … RETURNING id`.
unfoldable pub insert_consignee : Consignee → World → Result (String × Db)
insert_consignee item w =
    let row = new_consignee (w.fresh w.db.ids) item in
    if any (is_consignee row.id) w.db.consignees
      || any (same_consignee w.sql_lower row) w.db.consignees
    then err (driver "consignees: a unique key is violated")
    else ok (row.id, record w.db { consignees = row ∷ w.db.consignees; ids = w.db.ids + 1 })

-- `CreateConsignee`.
unfoldable pub create_consignee : Consignee → M String
create_consignee item = do
  require (not (is_blank item.name)) "consignee name is required"
  statement (insert_consignee item)

abbrev is_active_consignee : String → ConsigneeRow → Bool
is_active_consignee id row = row.id == id && is_active row.archived_at

-- `ArchiveConsignee`.
unfoldable pub archive_consignee : String → M (Unit {0})
archive_consignee id = statement (
    change λ w. record w.db {
      consignees =
          update (is_active_consignee id) (λ row. record row { archived_at = some w.now })
            w.db.consignees;
    })

abbrev status_of : Option ℕ → String
status_of none = "active"
status_of (some _) = "archived"

abbrev item_of_row : InventoryRow → InventoryItem
item_of_row row = record {
  id = row.id;
  code = row.item_code;
  name = row.item_name;
  category = row.category;
  serial_no = row.serial_no;
  batch_no = row.batch_no;
  unit = row.unit_of_measure;
  holder = row.holder;
  description = row.description;
  status = status_of row.archived_at;
  quantity = row.quantity;
}

abbrev consignee_of_row : ConsigneeRow → Consignee
consignee_of_row row = record {
  id = row.id;
  name = row.name;
  address = row.address;
  contact = row.contact;
  status = status_of row.archived_at;
}

-- The order of `archived_at NULLS FIRST`, and then of a name.
abbrev pub archived_before : (String → String → Bool) → Option ℕ × String → Option ℕ × String → Bool
archived_before collates (none, a) (none, b) = collates a b
archived_before collates (none, a) (some _, b) = true
archived_before collates (some _, a) (none, b) = false
archived_before collates (some m, a) (some n, b) = ltb m n || (m == n && collates a b)

-- `Inventory`.
unfoldable pub list_inventory : M (List InventoryItem)
list_inventory = statement (
    read_only λ w. map item_of_row (
      sort_by
        (λ a b.
          archived_before w.collates (a.archived_at, a.item_name) (b.archived_at, b.item_name))
        w.db.inventory))

-- `Consignees`.
unfoldable pub list_consignees : M (List Consignee)
list_consignees = statement (
    read_only λ w. map consignee_of_row (
      sort_by (λ a b. archived_before w.collates (a.archived_at, a.name) (b.archived_at, b.name))
        w.db.consignees))
