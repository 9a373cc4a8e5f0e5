-- ===== src/Http/Forms.antt =====
-- internal/http/server.go: the form of a pass, and the draft that it stands for.
pub mod Drafts
use Prim.Native.String.{◌++◌}
use mgp.Base.{
  ℕ, zero, suc, ◌+◌, Bool, true, false, not, ◌&&◌, ◌||◌, String, Option, none, some, List, [], ◌∷◌,
  ◌==◌, nat_equality, text_equality, length, if◌then◌else◌, Float, is_at_most_zero, Date, zero_date,
  ℤ, Failure, message, Result, ok, err,
}
use mgp.Base.Text.{trim_space, is_blank}
use mgp.Base.Decimal.{decimal}
use mgp.Base.Calendar.{parse_date, atoi}
use mgp.Rbac.{pass_type_of}
use mgp.Gatepass.Domain.{Item, Draft}
use mgp.View.{PageData, PassFormItem, NewPassData}
use mgp.Http.{Request}

infixl 5 ◌>>=◌
abbrev pub ◌>>=◌ : {A B : Type 0} → Result A → (A → Result B) → Result B
err e >>= f = err e
ok a >>= f = f a

abbrev pub or_message : {A : Type 0} → String → Option A → Result A
or_message text none = err (message text)
or_message text (some a) = ok a

abbrev pub has_items : List PassFormItem → Bool
has_items [] = false
has_items (_ ∷ _) = true

-- The date that is zero where the field is blank.
abbrev pub expected_date : String → Result Date
expected_date s =
    if is_blank s
    then ok zero_date
    else or_message "expected return date must be valid" (parse_date s)

abbrev pub quantity_error : ℕ → String
quantity_error row = "item row " ++ (decimal row ++ " quantity must be a positive number")

abbrev pub positive_quantity : ℕ → Option Float → Result Float
positive_quantity row none = err (message (quantity_error row))
positive_quantity row (some quantity) =
    if is_at_most_zero quantity then err (message (quantity_error row)) else ok quantity

abbrev pub item_of_form : PassFormItem → Float → Item
item_of_form form quantity = record {
  code = trim_space form.code;
  name = trim_space form.name;
  category = trim_space form.category;
  serial_no = trim_space form.serial_no;
  batch_no = trim_space form.batch_no;
  full_part = trim_space form.full_part;
  unit = trim_space form.unit;
  quantity = quantity;
  description = trim_space form.description;
}

-- The loop over the items, from a row on.
unfoldable pub items_from_form :
    (String → Option Float) → ℕ → List PassFormItem → Result (List Item)
items_from_form parse_float row [] = ok []
items_from_form parse_float row (form ∷ forms) = do
  quantity ← positive_quantity row (parse_float (trim_space form.quantity))
  items ← items_from_form parse_float (row + 1) forms
  ok (item_of_form form quantity ∷ items)

-- The draft of a form, with what was read of its dates, numbers and items.
abbrev pub draft_of : NewPassData → Date → ℤ → Date → List Item → Draft
draft_of form pass_date packages expected items = record {
  pass_type = pass_type_of form.pass_type;
  pass_date = pass_date;
  expected_return_date = expected;
  directorate = trim_space form.directorate;
  project = trim_space form.project;
  consignee_name = trim_space form.consignee_name;
  consignee_address = trim_space form.consignee_address;
  reference_no = trim_space form.reference_no;
  packages = packages;
  purpose = trim_space form.purpose;
  authority = trim_space form.authority;
  inventory_no = trim_space form.inventory_no;
  inventory_holder = trim_space form.inventory_holder;
  vehicle_no = trim_space form.vehicle_no;
  loaded_in_presence_of = trim_space form.loaded_in_presence_of;
  carrier_name = trim_space form.carrier_name;
  carrier_designation = trim_space form.carrier_designation;
  remarks = trim_space form.remarks;
  copy_type = form.copy_type;
  items = items;
}

-- `draftFromForm`, with `strconv.ParseFloat`.
unfoldable pub draft_from_form : (String → Option Float) → NewPassData → Result Draft
unfolding items_from_form
draft_from_form parse_float form = do
  pass_date ← or_message "pass date must be valid" (parse_date form.pass_date)
  packages ← or_message "packages must be a whole number" (atoi form.packages)
  expected ← expected_date form.expected_return_date
  _ ← if has_items form.items then ok tt else err (message "at least one item row is required")
  items ← items_from_form parse_float 1 form.items
  ok (draft_of form pass_date packages expected items)

-- `r.Form[key+"[]"]`, or `r.Form[key]` where that is empty.
abbrev pub values_or : List String → List String → List String
values_or [] others = others
values_or (s ∷ ss) others = s ∷ ss

abbrev pub column : Request → String → List String
column request key = values_or (request.form_values (key ++ "[]")) (request.form_values key)

abbrev pub keys : List String
keys =
    "item_code" ∷ "item_name" ∷ "category" ∷ "serial_no" ∷ "batch_no" ∷ "unit" ∷ "full_part"
    ∷ "quantity" ∷ "description" ∷ []

abbrev pub row_count : Request → ℕ
row_count request =
    if length (column request "item_name") == 0
    then length (column request "item_code")
    else length (column request "item_name")

-- The loop that compares the lengths of the columns.
unfoldable pub all_aligned : Request → ℕ → List String → Bool
all_aligned request count [] = true
all_aligned request count (key ∷ others) =
    if length (column request key) == count then all_aligned request count others else false

-- `values[index]`; the index is below the length.
abbrev pub value_at : List String → ℕ → String
value_at [] index = ""
value_at (s ∷ ss) zero = s
value_at (s ∷ ss) (suc index) = value_at ss index

abbrev pub form_item : Request → ℕ → PassFormItem
form_item request index = record {
  code = value_at (column request "item_code") index;
  name = value_at (column request "item_name") index;
  category = value_at (column request "category") index;
  serial_no = value_at (column request "serial_no") index;
  batch_no = value_at (column request "batch_no") index;
  full_part = value_at (column request "full_part") index;
  unit = value_at (column request "unit") index;
  quantity = value_at (column request "quantity") index;
  description = value_at (column request "description") index;
}

-- The loop over the rows, from an index on, for so many rows.
pub form_items : Request → ℕ → ℕ → List PassFormItem
form_items request index zero = []
form_items request index (suc count) =
    form_item request index ∷ form_items request (index + 1) count

-- The fields of the form, with no item.
abbrev pub form_fields : Request → PageData → NewPassData
form_fields request page = record {
  page = page;
  revision_of = request.form_value "revision_of";
  pass_type = request.form_value "pass_type";
  pass_date = request.form_value "pass_date";
  expected_return_date = request.form_value "expected_return_date";
  directorate = request.form_value "directorate";
  project = request.form_value "project";
  consignee_name = request.form_value "consignee_name";
  consignee_address = request.form_value "consignee_address";
  reference_no = request.form_value "reference_no";
  packages = request.form_value "packages";
  purpose = request.form_value "purpose";
  authority = request.form_value "authority";
  inventory_no = request.form_value "inventory_no";
  inventory_holder = request.form_value "inventory_holder";
  vehicle_no = request.form_value "vehicle_no";
  loaded_in_presence_of = request.form_value "loaded_in_presence_of";
  carrier_name = request.form_value "carrier_name";
  carrier_designation = request.form_value "carrier_designation";
  remarks = request.form_value "remarks";
  copy_type = request.form_value "copy_type";
  items = [];
}

-- `data.Error = text`.
abbrev pub with_error : NewPassData → String → NewPassData
with_error form text = record form { page = record form.page { error = text } }

-- `passDataFromRequest`.
unfoldable pub pass_data_from_request : Request → PageData → NewPassData
unfolding all_aligned form_items
pass_data_from_request request page =
    let count = row_count request in
    if all_aligned request count keys
    then record (form_fields request page) { items = form_items request 0 count }
    else with_error (form_fields request page) "all material rows must have aligned fields"
