-- ===== src/Gatepass/Rows.antt =====
-- The statements of internal/gatepass/store.go, as changes of the tables that keep the constraints
-- of db/migrations. A `uuid` key is a text here; one that PostgreSQL cannot read as a `uuid` fits
-- no row. Which of several broken constraints the driver names is not modelled.
use mgp.Base.{
  ℕ, ◌+◌, Bool, true, false, not, ◌&&◌, ◌||◌, Char, String, Option, none, some, ◌∷◌, ◌==◌,
  text_equality, leb, any, update, discard, if◌then◌else◌, ℤ, pos, negsuc, Date, is_zero, Result,
  ok, err, driver,
}
use mgp.Base.Text.{trim_space, to_upper}
use mgp.Rbac.{Status, PassType, Actor, status_equality, pass_type_equality}
use mgp.Database.{World, M, statement}
use mgp.Database.Tables.{Columns, PassRow, ItemRow, AuditRow, UserRow, Db}
use mgp.Gatepass.Domain.{Item, Draft}

-- `normalizedCopyType`; `other` is Unicode's upper case beyond ASCII.
unfoldable pub normalized_copy_type : (Char → Char) → String → String
normalized_copy_type other value =
    let value' = to_upper other (trim_space value) in
    if value' == "DUPLICATE" || value' == "TRIPLICATE" then value' else "ORIGINAL"

-- `expected`: a zero date is stored as NULL.
abbrev pub expected_date : Date → Option Date
expected_date d = if is_zero d then none else some d

-- The arguments that `CreateDraft`, `CreateRevision` and `UpdateDraft` pass on from a draft.
unfoldable pub columns_of : (Char → Char) → Draft → Columns
columns_of other draft = record {
  pass_type = draft.pass_type;
  pass_date = draft.pass_date;
  expected_return_date = expected_date draft.expected_return_date;
  directorate = draft.directorate;
  project = draft.project;
  consignee_name = draft.consignee_name;
  consignee_address = draft.consignee_address;
  reference_no = draft.reference_no;
  packages = draft.packages;
  purpose = draft.purpose;
  authority = draft.authority;
  inventory_no = draft.inventory_no;
  inventory_holder = draft.inventory_holder;
  vehicle_no = draft.vehicle_no;
  loaded_in_presence_of = draft.loaded_in_presence_of;
  carrier_name = draft.carrier_name;
  carrier_designation = draft.carrier_designation;
  remarks = draft.remarks;
  copy_type = normalized_copy_type other draft.copy_type;
}

abbrev pub is_pass : String → PassRow → Bool
is_pass id row = row.id == id

abbrev pub has_number : String → PassRow → Bool
has_number pass_no row = row.pass_no == pass_no

abbrev pub is_user : String → UserRow → Bool
is_user id row = row.id == id

-- `integer NOT NULL CHECK (packages > 0)`.
abbrev pub packages_hold : ℤ → Bool
packages_hold (pos n) = leb 1 n && leb n 2147483647
packages_hold (negsuc _) = false

-- A returnable pass needs a date of return, and there is no third type.
abbrev pub return_holds : PassType → Option Date → Bool
return_holds PassType.returnable (some _) = true
return_holds PassType.non_returnable _ = true
return_holds _ _ = false

-- The checks on the columns of the form.
abbrev pub columns_hold : Columns → Bool
columns_hold c =
    packages_hold c.packages
    && return_holds c.pass_type c.expected_return_date
    && (c.copy_type == "ORIGINAL" || c.copy_type == "DUPLICATE" || c.copy_type == "TRIPLICATE")

-- A new row: `RETURNING id`, and `DEFAULT` for the columns that the statement does not name.
abbrev pub new_pass : String → String → Option String → ℕ → Columns → String → ℕ → PassRow
new_pass id pass_no revision_of revision_no columns created_by now = record {
  id = id;
  pass_no = pass_no;
  status = Status.draft;
  revision_of = revision_of;
  revision_no = revision_no;
  columns = columns;
  actual_return_date = none;
  security_control_no = "";
  rejection_reason = "";
  created_by = created_by;
  approved_by = none;
  security_officer_id = none;
  returned_by = none;
  submitted_at = none;
  approved_at = none;
  passed_out_at = none;
  returned_at = none;
  updated_at = now;
  approval_reference = "";
  record_hash = "";
}

-- Primary key, `UNIQUE` and `REFERENCES`.
abbrev pub pass_holds : PassRow → Db → Bool
pass_holds row db =
    columns_hold row.columns
    && not (any (is_pass row.id) db.passes)
    && not (any (has_number row.pass_no) db.passes)
    && any (is_user row.created_by) db.users

-- `INSERT INTO gate_passes … RETURNING id`.
unfoldable pub insert_pass :
    String → Option String → ℕ → Columns → String → World → Result (String × Db)
insert_pass pass_no revision_of revision_no columns created_by w =
    let id = w.fresh w.db.ids in
    let row = new_pass id pass_no revision_of revision_no columns created_by w.now in
    if pass_holds row w.db
    then ok (id, record w.db { passes = row ∷ w.db.passes; ids = w.db.ids + 1 })
    else err (driver "gate_passes: a constraint is violated")

abbrev pub item_row : String → String → Item → ItemRow
item_row pass_id quantity item = record {
  gate_pass_id = pass_id;
  item_code = item.code;
  item_name = item.name;
  category = item.category;
  serial_no = item.serial_no;
  batch_no = item.batch_no;
  full_part = item.full_part;
  unit_of_measure = item.unit;
  quantity = quantity;
  description = item.description;
}

abbrev add_item : Option String → String → Item → Db → Result (Unit {0} × Db)
add_item none pass_id item db = err (driver "gate_pass_items: quantity")
add_item (some quantity) pass_id item db =
    ok (tt, record db { items = item_row pass_id quantity item ∷ db.items })

-- `insertItem`.
unfoldable pub insert_item : String → Item → M (Unit {0})
insert_item pass_id item = statement (λ w. add_item (w.numeric item.quantity) pass_id item w.db)

-- `NULLIF(text, '')`.
abbrev pub nullif_empty : String → Option String
nullif_empty s = if s == "" then none else some s

abbrev pub pass_event : String → String → String → String → Actor → String → String → ℕ → AuditRow
pass_event pass_id action from to actor reason pass_no now = record {
  entity_type = "gate_pass";
  entity_id = pass_id;
  action = action;
  from_status = nullif_empty from;
  to_status = nullif_empty to;
  actor_id = actor.id;
  actor_role = actor.role;
  reason = nullif_empty reason;
  metadata = ("pass_no", pass_no);
  created_at = now;
}

-- `appendAudit`.
unfoldable pub append_audit :
    String → String → String → String → Actor → String → String → M (Unit {0})
append_audit pass_id action from to actor reason pass_no = statement λ w.
    if any (is_user actor.id) w.db.users
    then ok (
      tt,
      record w.db {
        audit_events =
            pass_event pass_id action from to actor reason pass_no w.now ∷ w.db.audit_events;
      },
    )
    else err (driver "audit_events: actor_id")

-- `UPDATE gate_passes SET … WHERE id=…`: `id` is the primary key, so at most one row has it.
abbrev pub change_pass : String → (PassRow → PassRow) → Db → Db
change_pass id f db = record db { passes = update (is_pass id) f db.passes }

abbrev pub with_columns : Columns → ℕ → PassRow → PassRow
with_columns columns now row = record row { columns = columns; updated_at = now }

-- `UPDATE gate_passes SET pass_type=$1,…,updated_at=now() WHERE id=$20`.
unfoldable pub edit_columns : String → Columns → World → Result (Unit {0} × Db)
edit_columns id columns w =
    if columns_hold columns
    then ok (tt, change_pass id (with_columns columns w.now) w.db)
    else err (driver "gate_passes: a constraint is violated")

abbrev pub is_item_of : String → ItemRow → Bool
is_item_of pass_id row = row.gate_pass_id == pass_id

-- `DELETE FROM gate_pass_items WHERE gate_pass_id=…`.
abbrev pub delete_items : String → Db → Db
delete_items pass_id db = record db { items = discard (is_item_of pass_id) db.items }
