-- ===== src/Tests/Forms.antt =====
-- Forms, dates and files of values on concrete inputs.
use mgp.Base.{
  ◌≡◌, ◌↔◌, refl, [], ◌∷◌, map, String, ◌==◌, text_equality, if◌then◌else◌, ok, none, some, false,
  pos, finite, err, no_rows,
}
use mgp.Base.Decimal.{iso_date}
use mgp.Base.Calendar.{parse_date, atoi}
use mgp.Base.Text.{trim_space}
use mgp.Rbac.{Role}
use mgp.Auth.Users.{User}
use mgp.Gatepass.Domain.{Draft}
use mgp.Masterdata.{InventoryItem}
use mgp.View.{NewPassData, Page, empty_page}
use mgp.Http.{Request, Response}
use mgp.Http.Csv.{Rows, read_rows}
use mgp.Http.Export.{inventory_file}
use mgp.Http.Export.Imported.{imported, inventory_file-read_items}
use mgp.Http.Master.Import.{read_items}
use mgp.Http.Forms.{
  draft_from_form, expected_date, keys, row_count, all_aligned, form_fields, with_error,
  pass_data_from_request,
}
use mgp.Http.Forms.Drafts.{IsReadable, draft_from_form_iff}
use mgp.Http.Passes.{save_form}
use mgp.Http.Passes.Rejected.{save_form-misaligned}
use mgp.Gatepass.Detail.{PassDetail}
use mgp.Http.NewPass.{new_form, with_defaults, with_revision}
use mgp.Tests.Data.{start, order}

iso_date_test :
    parse_date (iso_date record { year = 2028; month = 2; day = 29 })
    ≡ some (record { year = 2028; month = 2; day = 29 })
unfolding parse_date iso_date
iso_date_test = refl

parse_date_test : parse_date "2027-02-29" ≡ none
unfolding parse_date
parse_date_test = refl

atoi_test : atoi "+9223372036854775808" ≡ none
unfolding atoi
atoi_test = refl

read_rows_test :
    read_rows "a,\"b\r\nc\"\r\n\r\nd"
    ≡ Rows.next ("a" ∷ "b\nc" ∷ []) (Rows.next ("d" ∷ []) Rows.done)
unfolding read_rows
read_rows_test = refl

abbrev bolt : InventoryItem
bolt = record {
  id = "p0";
  code = "B-1";
  name = "Bolt, long";
  category = "";
  serial_no = "";
  batch_no = "";
  unit = "NOS";
  holder = "Store";
  description = "";
  status = "active";
  quantity = "4.000";
}

inventory_file-read_items_example :
    read_items (λ c. c) (λ s. some (finite false 4 0)) (inventory_file (bolt ∷ []))
    ≡ ok (map imported (bolt ∷ []))
inventory_file-read_items_example =
    inventory_file-read_items (λ s. some (finite false 4 0)) (λ c. c) (bolt ∷ [])
      (
        (
          (refl, (refl, (refl, (refl, (refl, (refl, (refl, (refl, (refl, (refl, tt)))))))))),
          (finite false 4 0, refl),
        ),
        tt,
      )

abbrev filled : NewPassData
filled = new_form empty_page (record { year = 2026; month = 9; day = 14 })

draft_from_form_iff_example :
    ((draft : Draft) × (draft_from_form (λ s. some (finite false 1 0)) filled ≡ ok draft))
    ↔ IsReadable (λ s. some (finite false 1 0)) filled
draft_from_form_iff_example = draft_from_form_iff (λ s. some (finite false 1 0)) filled

abbrev form : String → String
form key = if key == "pass_date" then "2026-09-14" else if key == "packages" then "2" else ""

-- One name and no other column.
abbrev uneven : Request
uneven = record {
  cookie = none;
  csrf_header = "";
  path_id = "";
  is_malformed = false;
  form_value = form;
  query_value = λ key. "";
  form_values = λ key. if key == "item_name" then "Bolt" ∷ [] else [];
  form_file = λ key. none;
}

abbrev keeper : User
keeper = record {
  id = "ina";
  username = "ina";
  name = "Ina";
  pin_hash = "";
  role = Role.inventory;
  status = "active";
  rank = "";
  phone = "";
  signature_path = "";
  signature_sha256 = "";
}

uneven_rows : all_aligned uneven (row_count uneven) keys ≡ false
unfolding all_aligned
uneven_rows = refl

dated : parse_date "2026-09-14" ≡ some (record { year = 2026; month = 9; day = 14 })
unfolding parse_date
dated = refl

counted : atoi "2" ≡ some (pos 2)
unfolding atoi
counted = refl

due : expected_date "" ≡ ok (record { year = 1; month = 1; day = 1 })
unfolding trim_space
due = refl

save_form-misaligned_example :
    save_form order uneven keeper (pass_data_from_request uneven empty_page) start ≡ (
      ok (
          Response.page (
            Page.new_gate_pass
              (with_error (form_fields uneven empty_page) "at least one item row is required"))),
      start,
    )
save_form-misaligned_example =
    save_form-misaligned uneven empty_page (record { year = 2026; month = 9; day = 14 })
      (record { year = 1; month = 1; day = 1 }) (pos 2) order keeper start uneven_rows dated counted
      due

-- A rejected pass, to be revised.
abbrev rejected : PassDetail
rejected = record {
  id = "";
  pass_no = "MGP/1";
  pass_date = "14 Sep 2026";
  pass_type = "NON_RETURNABLE";
  status = "NOT_APPROVED";
  expected_return_date = "";
  expected_return_date_iso = "";
  actual_return_date = "";
  directorate = "ASTRA";
  project = "SRSAM";
  consignee = "Depot";
  consignee_address = "";
  reference_no = "";
  packages = pos 1;
  purpose = "Test";
  authority = "Order 1";
  inventory_no = "";
  inventory_holder = "";
  vehicle_no = "";
  loaded_in_presence_of = "";
  carrier_name = "";
  carrier_designation = "";
  remarks = "";
  copy_type = "";
  rejection_reason = "Wrong unit";
  security_control_no = "";
  created_by = "";
  created_by_name = "";
  approved_by = "";
  approved_by_name = "";
  security_officer = "";
  security_officer_name = "";
  returned_by = "";
  returned_by_name = "";
  items = [];
}

abbrev shown_form : NewPassData
shown_form =
    with_revision
      (with_defaults (new_form empty_page (record { year = 2026; month = 9; day = 14 }))
        (err no_rows))
      "MGP/1" (ok rejected)
