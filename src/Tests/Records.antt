-- ===== src/Tests/Records.antt =====
-- Settings, master data and the command of the administrator on concrete inputs.
use mgp.Base.{◌≡◌, refl, ok, some, [], ◌∷◌}
use mgp.Database.{World}
use mgp.Database.Tables.{SettingsRow}
use Prim.Native.String.{String, ◌++◌}
use mgp.Base.{true, false, ◌↔◌, ◌==◌, text_equality, if◌then◌else◌}
use mgp.Config.{config_of, load}
use mgp.Config.Loads.{IsLoaded, load_iff}
use mgp.Settings.{
  Organization, get_organization, update_organization, update_organization-get_organization,
}
use mgp.Masterdata.{InventoryItem, create_inventory, archive_inventory, import_inventory}
use mgp.Masterdata.Unique.{Unique, Imported, import_inventory-Imported, create_archive-Unique}
use mgp.Base.Text.{to_lower, trim_space}
use mgp.Base.Base64.{encode}
use mgp.Database.{statement}
use mgp.Auth.Pin.{validate_username, normalize_username, hash_pin, validate_pin, encoded_hash}
use mgp.Auth.Users.{find_by_username, create_account, insert_user}
use mgp.Admin.{Flags, run_admin}
use mgp.Admin.Accounts.{AccountsKept}
use mgp.Admin.Kept.{run_admin-AccountsKept}
use mgp.Tests.Data.{start, empty, world_of}

abbrev stored : SettingsRow
stored = record {
  app_title = some "Gate";
  name = some "Depot";
  address = some "";
  default_directorate = some "ASTRA";
  default_project = some "SRSAM";
  default_copy = some "ORIGINAL";
  allow_manual_pass_no = some "no";
  session_minutes = some "20";
  logo = some "";
}

abbrev organization : Organization
organization = record {
  application_name = "Gate";
  name = "Depot 2";
  address = "Road";
  default_directorate = "ASTRA";
  default_project = "SRSAM";
  default_copy = "ORIGINAL";
  allow_manual_pass_no = "no";
  session_minutes = "20";
  logo = "";
}

abbrev configured : World
configured = world_of (record empty { settings = some stored })

update_organization-get_organization_example :
    (get_organization (update_organization organization configured).1).0 ≡ ok organization
update_organization-get_organization_example =
    update_organization-get_organization organization configured stored (λ n. refl) refl

abbrev bolt : InventoryItem
bolt = record {
  id = "";
  code = "B-1";
  name = "Bolt";
  category = "";
  serial_no = "";
  batch_no = "";
  unit = "NOS";
  holder = "";
  description = "";
  status = "";
  quantity = "5";
}

import_inventory-Imported_example : Imported (bolt ∷ []) empty (import_inventory (bolt ∷ []) start)
import_inventory-Imported_example = import_inventory-Imported (bolt ∷ []) start tt

create_archive-Unique_example :
    Unique (create_inventory bolt start).1.db.inventory
    × Unique (archive_inventory "p0" start).1.db.inventory
create_archive-Unique_example = create_archive-Unique bolt "p0" start tt

abbrev environment : String → String
environment name =
    if name == "MGP_DATABASE_URL"
    then "postgres://mgp"
    else if name == "MGP_SESSION_KEY"
    then "0123456789abcdef0123456789abcdef"
    else ""

load_iff_example :
    (load environment ≡ ok (config_of environment true false))
    ↔ IsLoaded environment (config_of environment true false)
load_iff_example = load_iff environment (config_of environment true false)

abbrev new_keeper : Flags
new_keeper = record { username = "newkeeper"; name = "Keeper"; pin = "123456"; role = "INVENTORY" }

abbrev quoted : String → String
quoted text = "\"" ++ (text ++ "\"")

-- The command makes the account.
new_keeper_made :
    (run_admin quoted environment new_keeper start).0
    ≡ ok ("created INVENTORY account newkeeper (" ++ (start.fresh start.db.ids ++ ")\n"))
unfolding run_admin validate_username normalize_username to_lower trim_space load hash_pin
    validate_pin find_by_username statement create_account encoded_hash encode insert_user
new_keeper_made = refl

run_admin-AccountsKept_example :
    AccountsKept start.db.users (run_admin quoted environment new_keeper start).1.db.users
run_admin-AccountsKept_example = run_admin-AccountsKept quoted environment new_keeper start
