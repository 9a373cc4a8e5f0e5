-- ===== src/Http/NewPass.antt =====
-- internal/http/server.go: the form for a new pass or a revision.
use mgp.Base.{
  not, ◌&&◌, String, [], ◌∷◌, map, ◌==◌, text_equality, if◌then◌else◌, Result, ok, err, Date,
}
use mgp.Base.{◌++◌ as append}
use mgp.Base.Text.{trim_space}
use mgp.Base.Decimal.{decimal_ℤ, iso_date}
use mgp.Rbac.{Role, role_equality}
use mgp.Database.{M, pure, asks, ◌>>=◌}
use mgp.Auth.Users.{User}
use mgp.Sessions.{Session}
use mgp.Settings.{Organization, get_organization}
use mgp.Gatepass.Detail.{PassItem, PassDetail, find_by_pass_no}
use mgp.View.{PageData, PassFormItem, NewPassData, Page}
use mgp.Http.{Request, Response, attempt, current_user, or_login, page_of}

abbrev pub first_item : PassFormItem
first_item = record {
  code = "";
  name = "";
  category = "";
  serial_no = "";
  batch_no = "";
  full_part = "Full Item";
  unit = "NOS";
  quantity = "1";
  description = "";
}

-- A new form on a day.
abbrev pub new_form : PageData → Date → NewPassData
new_form page today = record {
  page = page;
  revision_of = "";
  pass_type = "RETURNABLE";
  pass_date = iso_date today;
  expected_return_date = "";
  directorate = "";
  project = "";
  consignee_name = "";
  consignee_address = "";
  reference_no = "";
  packages = "1";
  purpose = "";
  authority = "";
  inventory_no = "";
  inventory_holder = "";
  vehicle_no = "";
  loaded_in_presence_of = "";
  carrier_name = "";
  carrier_designation = "";
  remarks = "";
  copy_type = "ORIGINAL";
  items = first_item ∷ [];
}

-- The defaults of the organization, where they can be read.
abbrev pub with_defaults : NewPassData → Result Organization → NewPassData
with_defaults form (err e) = form
with_defaults form (ok o) = record form {
  directorate = o.default_directorate;
  project = o.default_project;
  copy_type = o.default_copy;
}

abbrev pub form_item_of : PassItem → PassFormItem
form_item_of item = record {
  code = item.code;
  name = item.name;
  category = item.category;
  serial_no = item.serial_no;
  batch_no = item.batch_no;
  full_part = item.full_part;
  unit = item.unit;
  quantity = item.quantity;
  description = item.description;
}

-- The form of a revision of a pass.
abbrev pub revised_form : NewPassData → String → PassDetail → NewPassData
revised_form form pass_no detail = record form {
  revision_of = pass_no;
  pass_type = detail.pass_type;
  directorate = detail.directorate;
  project = detail.project;
  consignee_name = detail.consignee;
  consignee_address = detail.consignee_address;
  reference_no = detail.reference_no;
  packages = decimal_ℤ detail.packages;
  purpose = detail.purpose;
  authority = detail.authority;
  inventory_no = detail.inventory_no;
  inventory_holder = detail.inventory_holder;
  vehicle_no = detail.vehicle_no;
  loaded_in_presence_of = detail.loaded_in_presence_of;
  carrier_name = detail.carrier_name;
  carrier_designation = detail.carrier_designation;
  remarks = detail.remarks;
  copy_type = detail.copy_type;
  expected_return_date = detail.expected_return_date_iso;
  items = append form.items (map form_item_of detail.items);
}

abbrev pub with_revision : NewPassData → String → Result PassDetail → NewPassData
with_revision form pass_no (err e) = form
with_revision form pass_no (ok detail) =
    if detail.status == "NOT_APPROVED" then revised_form form pass_no detail else form

abbrev pub prefill : NewPassData → String → M NewPassData
prefill form pass_no =
    if pass_no == ""
    then pure form
    else (attempt (find_by_pass_no pass_no) >>= λ found. pure (with_revision form pass_no found))

abbrev pub show_new_form : Request → User → Session → M Response
show_new_form request user session = do
  today ← asks λ w. w.today
  organization ← attempt get_organization
  form ←
      prefill
        (with_defaults (new_form (page_of "Create gate pass" "create" user session) today)
          organization)
        (trim_space (request.query_value "revision"))
  pure (Response.page (Page.new_gate_pass form))

abbrev pub new_gate_pass_for : Request → User → Session → M Response
new_gate_pass_for request user session =
    if not (user.role == Role.admin) && not (user.role == Role.inventory)
    then pure (Response.failure 403 "forbidden")
    else show_new_form request user session

-- `newGatePass`.
unfoldable pub new_gate_pass : String → Request → M Response
new_gate_pass key request =
    attempt (current_user key request) >>= or_login (new_gate_pass_for request)
