-- ===== src/Gatepass/Detail.antt =====
-- internal/gatepass/store.go: a pass with its items and the names of its actors, as the pages and
-- the documents show it (internal/view/model.go).
use mgp.Base.{
  ℤ, Bool, String, Option, none, some, List, [], ◌∷◌, text_equality, find, select, Date, or_empty,
}
use mgp.Base.Decimal.{iso_date, long_date}
use mgp.Database.{M, pure, ◌>>=◌, statement, read_row, read_only}
use mgp.Database.Tables.{PassRow, ItemRow, UserRow}
use mgp.Gatepass.Domain.{status_text}
use mgp.Gatepass.Rows.{is_pass, has_number, is_user, is_item_of}
use mgp.Gatepass.Store.{pass_type_text}

pub record PassItem : Type 0 where
  pub code : String
  pub name : String
  pub category : String
  pub serial_no : String
  pub batch_no : String
  pub full_part : String
  pub unit : String
  pub quantity : String
  pub description : String

pub record PassDetail : Type 0 where
  pub id : String
  pub pass_no : String
  pub pass_date : String
  pub pass_type : String
  pub status : String
  pub expected_return_date : String
  pub expected_return_date_iso : String
  pub actual_return_date : String
  pub directorate : String
  pub project : String
  pub consignee : String
  pub consignee_address : String
  pub reference_no : String
  pub packages : ℤ
  pub purpose : String
  pub authority : String
  pub inventory_no : String
  pub inventory_holder : String
  pub vehicle_no : String
  pub loaded_in_presence_of : String
  pub carrier_name : String
  pub carrier_designation : String
  pub remarks : String
  pub copy_type : String
  pub rejection_reason : String
  pub security_control_no : String
  pub created_by : String
  pub created_by_name : String
  pub approved_by : String
  pub approved_by_name : String
  pub security_officer : String
  pub security_officer_name : String
  pub returned_by : String
  pub returned_by_name : String
  pub items : List PassItem

-- `formatNullableDate`.
abbrev pub format_nullable_date : Option Date → String
format_nullable_date none = ""
format_nullable_date (some date) = long_date date

abbrev iso_nullable_date : Option Date → String
iso_nullable_date none = ""
iso_nullable_date (some date) = iso_date date

abbrev name_of_row : Option UserRow → String
name_of_row none = ""
name_of_row (some row) = row.name

-- The name that a `LEFT JOIN users` gives to a reference.
abbrev pub joined_name : List UserRow → Option String → String
joined_name users none = ""
joined_name users (some id) = name_of_row (find (is_user id) users)

-- The detail of a row, with no items yet.
abbrev pub detail_of : List UserRow → PassRow → PassDetail
detail_of users row = record {
  id = row.id;
  pass_no = row.pass_no;
  pass_date = long_date row.pass_date;
  pass_type = pass_type_text row.pass_type;
  status = status_text row.status;
  expected_return_date = format_nullable_date row.expected_return_date;
  expected_return_date_iso = iso_nullable_date row.expected_return_date;
  actual_return_date = format_nullable_date row.actual_return_date;
  directorate = row.directorate;
  project = row.project;
  consignee = row.consignee_name;
  consignee_address = row.consignee_address;
  reference_no = row.reference_no;
  packages = row.packages;
  purpose = row.purpose;
  authority = row.authority;
  inventory_no = row.inventory_no;
  inventory_holder = row.inventory_holder;
  vehicle_no = row.vehicle_no;
  loaded_in_presence_of = row.loaded_in_presence_of;
  carrier_name = row.carrier_name;
  carrier_designation = row.carrier_designation;
  remarks = row.remarks;
  copy_type = row.copy_type;
  rejection_reason = row.rejection_reason;
  security_control_no = row.security_control_no;
  created_by = row.created_by;
  created_by_name = joined_name users (some row.created_by);
  approved_by = or_empty row.approved_by;
  approved_by_name = joined_name users row.approved_by;
  security_officer = or_empty row.security_officer_id;
  security_officer_name = joined_name users row.security_officer_id;
  returned_by = or_empty row.returned_by;
  returned_by_name = joined_name users row.returned_by;
  items = [];
}

abbrev pub item_of : ItemRow → PassItem
item_of row = record {
  code = row.item_code;
  name = row.item_name;
  category = row.category;
  serial_no = row.serial_no;
  batch_no = row.batch_no;
  full_part = row.full_part;
  unit = row.unit_of_measure;
  quantity = row.quantity;
  description = row.description;
}

pub items_of : List ItemRow → List PassItem
items_of [] = []
items_of (row ∷ rows) = item_of row ∷ items_of rows

abbrev detail_row : List UserRow → Option PassRow → Option PassDetail
detail_row users none = none
detail_row users (some row) = some (detail_of users row)

-- `findDetail`. The items of a pass are inserted in one transaction, so `ORDER BY created_at` finds
-- their keys equal: `arrange` is the order that PostgreSQL gives to such rows.
unfoldable pub find_detail : (PassRow → Bool) → M PassDetail
unfolding items_of
find_detail picks = do
  detail ← statement (read_row λ w. detail_row w.db.users (find picks w.db.passes))
  items ← statement (read_only λ w. items_of (w.arrange (select (is_item_of detail.id) w.db.items)))
  pure (record detail { items = items })

-- `FindByPassNo`.
abbrev pub find_by_pass_no : String → M PassDetail
find_by_pass_no pass_no = find_detail (has_number pass_no)

-- `FindByID`.
abbrev pub find_pass_by_id : String → M PassDetail
find_pass_by_id id = find_detail (is_pass id)
