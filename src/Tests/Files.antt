-- ===== src/Tests/Files.antt =====
-- Documents, forms, files of values and the audit log on concrete inputs.
use mgp.Base.{◌≡◌, refl, ℕ, ◌≤◌, List, [], ◌∷◌, ok, none, some, false, length, pos}
use mgp.Rbac.{Role}
use mgp.Database.{World, File}
use mgp.Database.Tables.{AuditRow}
use mgp.Gatepass.Detail.{PassDetail}
use mgp.Audit.{Event, recent_limit, recent_events}
use mgp.Audit.Recent.{Fills, Falls, recent_events-Bounded}
use mgp.Documents.{safe_filename, generate_pass_pdf}
use mgp.Documents.Filed.{file_at, generate_pass_pdf-file_at}
use mgp.Tests.Data.{start, empty, world_of, keeper}

abbrev event : ℕ → AuditRow
event time = record {
  entity_type = "user";
  entity_id = "ina";
  action = "RESET_PIN";
  from_status = none;
  to_status = none;
  actor_id = "adm";
  actor_role = Role.admin;
  reason = none;
  metadata = ("target_user_id", "ina");
  created_at = time;
}

abbrev with_events : World
with_events = world_of (record empty { audit_events = event 3 ∷ event 9 ∷ event 5 ∷ [] })

recent_events-Bounded_example :
    (events : List Event) × ((recent_events (pos 1000) with_events).0 ≡ ok events)
    × (length events ≤ 500)
    × (1 ≤ recent_limit (pos 1000))
    × Fills (pos 1000) with_events events
    × Falls events
recent_events-Bounded_example = recent_events-Bounded (pos 1000) with_events λ n. refl

safe_filename_test : safe_filename "A/../B C...d" ≡ "A---B_C-.d"
unfolding safe_filename
safe_filename_test = refl

abbrev detail : PassDetail
detail = record {
  id = "p0";
  pass_no = "ASTRA/SRSAM/0001/2026";
  pass_date = "14 Sep 2026";
  pass_type = "RETURNABLE";
  status = "APPROVED";
  expected_return_date = "20 Sep 2026";
  expected_return_date_iso = "2026-09-20";
  actual_return_date = "";
  directorate = "ASTRA";
  project = "SRSAM";
  consignee = "Consignee";
  consignee_address = "";
  reference_no = "";
  packages = pos 1;
  purpose = "Movement";
  authority = "Supervisor";
  inventory_no = "";
  inventory_holder = "";
  vehicle_no = "";
  loaded_in_presence_of = "";
  carrier_name = "";
  carrier_designation = "";
  remarks = "";
  copy_type = "ORIGINAL";
  rejection_reason = "";
  security_control_no = "";
  created_by = "ina";
  created_by_name = "Ina";
  approved_by = "iva";
  approved_by_name = "Iva";
  security_officer = "";
  security_officer_name = "";
  returned_by = "";
  returned_by_name = "";
  items = [];
}

abbrev filed : File
filed = record { path = "documents/gate-passes/ASTRA-SRSAM-0001-2026.pdf"; content = "old" }

abbrev with_file : World
with_file = record start { files = filed ∷ [] }

generate_pass_pdf-file_at_example :
    file_at "documents/gate-passes/ASTRA-SRSAM-0001-2026.pdf"
      (generate_pass_pdf "documents" detail keeper false with_file).1
    ≡ some filed
generate_pass_pdf-file_at_example =
    generate_pass_pdf-file_at "documents" detail keeper false with_file
      "documents/gate-passes/ASTRA-SRSAM-0001-2026.pdf" filed refl
