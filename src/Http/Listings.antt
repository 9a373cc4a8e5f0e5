-- ===== src/Http/Listings.antt =====
-- internal/http/server.go: the handlers that show accounts, events, settings and master data.
use mgp.Base.{◌==◌, text_equality, String, ℕ, List, [], map, if◌then◌else◌, pos, Result, ok}
use mgp.Rbac.{Role, role_text, role_equality}
use mgp.Database.{World, M, pure, ◌>>=◌}
use mgp.Auth.Users.{User, list_users}
use mgp.Sessions.{Session}
use mgp.Audit.{Event, recent_events}
use mgp.Masterdata.{InventoryItem, Consignee, list_inventory, list_consignees}
use mgp.Settings.{Organization, get_organization}
use mgp.View.{
  PageData, AccountRow, MasterInventoryRow, MasterConsigneeRow, EventRow, SettingsData, Page,
}
use mgp.Http.{Request, Response, attempt, current_user, or_login, or_failure, page_of, noted_page}

-- `user.Role != rbac.RoleAdmin` and its early return.
abbrev pub for_admin : User → M Response → M Response
for_admin user act =
    if user.role == Role.admin then act else pure (Response.failure 403 "forbidden")

abbrev pub account_row : User → AccountRow
account_row account = record {
  id = account.id;
  username = account.username;
  name = account.name;
  role = role_text account.role;
  status = account.status;
  rank = account.rank;
  phone = account.phone;
  signature_path = account.signature_path;
}

abbrev pub show_users : Request → User → Session → M Response
show_users request user session = for_admin user (
    attempt list_users
    >>= or_failure "could not load users" λ accounts. pure (
        Response.page (
          Page.users record {
            page = noted_page "User master" "users" request user session;
            users = map account_row accounts;
          })))

-- `users`.
unfoldable pub users : String → Request → M Response
users key request = attempt (current_user key request) >>= or_login (show_users request)

abbrev pub event_row : (String → ℕ → String) → Event → EventRow
event_row time_text event = record {
  created_at = time_text "02 Jan 2006 15:04" event.created_at;
  entity_type = event.entity_type;
  action = event.action;
  actor_role = event.actor_role;
  reason = event.reason;
  metadata = event.metadata;
}

abbrev pub audit_page : User → Session → List Event → World → Result Response × World
audit_page user session events w = (
  ok (
      Response.page (
        Page.audit record {
          page = page_of "Audit history" "audit" user session;
          events = map (event_row w.time_text) events;
        })),
  w,
)

abbrev pub show_audit : User → Session → M Response
show_audit user session =
    attempt (recent_events (pos 200))
    >>= or_failure "could not load audit history" (audit_page user session)

-- `auditLog`.
unfoldable pub audit_log : String → Request → M Response
audit_log key request = attempt (current_user key request) >>= or_login show_audit

abbrev pub settings_page : PageData → Organization → SettingsData
settings_page page o = record {
  page = page;
  application_name = o.application_name;
  organization_name = o.name;
  organization_address = o.address;
  default_directorate = o.default_directorate;
  default_project = o.default_project;
  default_copy = o.default_copy;
  allow_manual_pass_no = o.allow_manual_pass_no;
  session_minutes = o.session_minutes;
  logo = o.logo;
}

abbrev pub show_settings : Request → User → Session → M Response
show_settings request user session = for_admin user (
    attempt get_organization
    >>= or_failure "could not load settings" λ o. pure (
        Response.page (
          Page.settings (
            settings_page (noted_page "Organization settings" "settings" request user session) o))))

-- `settings`.
unfoldable pub settings : String → Request → M Response
settings key request = attempt (current_user key request) >>= or_login (show_settings request)

abbrev pub inventory_row : InventoryItem → MasterInventoryRow
inventory_row item = record {
  id = item.id;
  code = item.code;
  name = item.name;
  category = item.category;
  serial_no = item.serial_no;
  batch_no = item.batch_no;
  unit = item.unit;
  quantity = item.quantity;
  holder = item.holder;
  description = item.description;
  status = item.status;
}

abbrev pub show_inventory : Request → User → Session → M Response
show_inventory request user session =
    attempt list_inventory
    >>= or_failure "could not load inventory" λ items. pure (
        Response.page (
          Page.inventory record {
            page = noted_page "Inventory master" "inventory" request user session;
            inventory = map inventory_row items;
            consignees = [];
          }))

-- `inventory`.
unfoldable pub inventory : String → Request → M Response
inventory key request = attempt (current_user key request) >>= or_login (show_inventory request)

abbrev pub consignee_row : Consignee → MasterConsigneeRow
consignee_row item = record {
  id = item.id;
  name = item.name;
  address = item.address;
  contact = item.contact;
  status = item.status;
}

abbrev pub show_consignees : Request → User → Session → M Response
show_consignees request user session =
    attempt list_consignees
    >>= or_failure "could not load consignees" λ items. pure (
        Response.page (
          Page.consignees record {
            page = noted_page "Consignee master" "consignees" request user session;
            inventory = [];
            consignees = map consignee_row items;
          }))

-- `consignees`.
unfoldable pub consignees : String → Request → M Response
consignees key request = attempt (current_user key request) >>= or_login (show_consignees request)
