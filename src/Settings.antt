-- ===== src/Settings.antt =====
-- internal/config/organization.go: the settings of the organization.
use mgp.Base.{◌≡◌, refl, ℕ, ◌+◌, String, Option, none, some, ok}
use mgp.Database.{World, M, statement, read_row, change}
use mgp.Database.Tables.{SettingsRow}

pub record Organization : Type 0 where
  pub application_name : String
  pub name : String
  pub address : String
  pub default_directorate : String
  pub default_project : String
  pub default_copy : String
  pub allow_manual_pass_no : String
  pub session_minutes : String
  pub logo : String

-- `COALESCE(value->>key, default)`.
abbrev coalesce : Option String → String → String
coalesce none default = default
coalesce (some s) default = s

abbrev organization_of : SettingsRow → Organization
organization_of row = record {
  application_name = coalesce row.app_title "Material Gate Pass System";
  name = coalesce row.name "";
  address = coalesce row.address "";
  default_directorate = coalesce row.default_directorate "";
  default_project = coalesce row.default_project "";
  default_copy = coalesce row.default_copy "ORIGINAL";
  allow_manual_pass_no = coalesce row.allow_manual_pass_no "no";
  session_minutes = coalesce row.session_minutes "20";
  logo = coalesce row.logo "";
}

abbrev find_organization : Option SettingsRow → Option Organization
find_organization none = none
find_organization (some row) = some (organization_of row)

-- `Get`.
unfoldable pub get_organization : M Organization
get_organization = statement (read_row λ w. find_organization w.db.settings)

-- `jsonb_build_object`.
abbrev settings_of : Organization → SettingsRow
settings_of o = record {
  app_title = some o.application_name;
  name = some o.name;
  address = some o.address;
  default_directorate = some o.default_directorate;
  default_project = some o.default_project;
  default_copy = some o.default_copy;
  allow_manual_pass_no = some o.allow_manual_pass_no;
  session_minutes = some o.session_minutes;
  logo = some o.logo;
}

-- `UPDATE … WHERE key='organization'`: nothing where the row is missing.
abbrev replace_settings : Organization → Option SettingsRow → Option SettingsRow
replace_settings o none = none
replace_settings o (some _) = some (settings_of o)

-- `Update`.
unfoldable pub update_organization : Organization → M (Unit {0})
update_organization o =
    statement (change λ w. record w.db { settings = replace_settings o w.db.settings })

-- Where the driver refuses no call and the row is there, as the migrations leave it, settings that
-- were stored are read back.
pub update_organization-get_organization :
    (o : Organization) (w : World) (row : SettingsRow)
    → ((n : ℕ) → w.fault n ≡ none)
    → w.db.settings ≡ some row
    → (get_organization (update_organization o w).1).0 ≡ ok o
unfolding get_organization update_organization statement
update_organization-get_organization o w row calm stored =
    rw (calm w.calls, calm (w.calls + 1), stored) refl
