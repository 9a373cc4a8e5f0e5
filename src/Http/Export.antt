-- ===== src/Http/Export.antt =====
-- internal/http/server.go: the handlers that give a file of comma-separated values.
pub mod Imported
use mgp.Base.{ℕ, Bool, true, false, ◌||◌, String, List, [], ◌∷◌, map, ◌==◌, pos, Result, ok}
use mgp.Rbac.{Role, role_equality}
use mgp.Database.{World, M, pure, ◌>>=◌}
use mgp.Auth.Users.{User}
use mgp.Sessions.{Session}
use mgp.Audit.{Event, recent_events}
use mgp.Masterdata.{InventoryItem, Consignee, list_inventory, list_consignees}
use mgp.Http.{Request, Response, attempt, current_user, or_unauthenticated, or_failure}
use mgp.Http.Master.{can_edit_master}
use mgp.Http.Csv.{write_rows}

abbrev pub inventory_header : List String
inventory_header =
    "item_code" ∷ "item_name" ∷ "category" ∷ "serial_no" ∷ "batch_no" ∷ "unit" ∷ "quantity"
    ∷ "holder" ∷ "description" ∷ "status" ∷ []

abbrev pub inventory_fields : InventoryItem → List String
inventory_fields item =
    item.code ∷ item.name ∷ item.category ∷ item.serial_no ∷ item.batch_no ∷ item.unit
    ∷ item.quantity ∷ item.holder ∷ item.description ∷ item.status ∷ []

-- The file of the inventory.
unfoldable pub inventory_file : List InventoryItem → String
inventory_file items = write_rows (inventory_header ∷ map inventory_fields items)

-- A role that may not export, and its early return.
abbrev pub for_exporter : Bool → M Response → M Response
for_exporter true act = act
for_exporter false act = pure (Response.failure 403 "forbidden")

abbrev pub give_inventory : User → Session → M Response
give_inventory user session = for_exporter (can_edit_master user) (
    attempt list_inventory
    >>= or_failure "could not export inventory"
        λ items. pure (Response.csv_file "inventory.csv" (inventory_file items)))

-- `exportInventory`.
unfoldable pub export_inventory : String → Request → M Response
export_inventory key request =
    attempt (current_user key request) >>= or_unauthenticated give_inventory

abbrev pub consignee_fields : Consignee → List String
consignee_fields item = item.name ∷ item.address ∷ item.contact ∷ item.status ∷ []

abbrev pub give_consignees : User → Session → M Response
give_consignees user session = for_exporter (can_edit_master user) (
    attempt list_consignees
    >>= or_failure "could not export consignees" λ items. pure (
        Response.csv_file "consignees.csv" (
          write_rows
            (("name" ∷ "address" ∷ "contact" ∷ "status" ∷ []) ∷ map consignee_fields items))))

-- `exportConsignees`.
unfoldable pub export_consignees : String → Request → M Response
export_consignees key request =
    attempt (current_user key request) >>= or_unauthenticated give_consignees

abbrev pub event_fields : (String → ℕ → String) → Event → List String
event_fields time_text event =
    time_text "2006-01-02T15:04:05Z07:00" event.created_at
    ∷ event.entity_type
    ∷ event.action
    ∷ event.actor_role
    ∷ event.reason
    ∷ event.metadata
    ∷ []

abbrev pub audit_file : List Event → World → Result Response × World
audit_file events w = (
  ok (
      Response.csv_file "audit.csv" (
        write_rows (
          ("created_at" ∷ "entity_type" ∷ "action" ∷ "actor_role" ∷ "reason" ∷ "metadata" ∷ [])
          ∷ map (event_fields w.time_text) events))),
  w,
)

abbrev pub give_audit : User → Session → M Response
give_audit user session =
    for_exporter (user.role == Role.admin || user.role == Role.issuing)
      (attempt (recent_events (pos 1000)) >>= or_failure "could not export audit" audit_file)

-- `exportAudit`.
unfoldable pub export_audit : String → Request → M Response
export_audit key request = attempt (current_user key request) >>= or_unauthenticated give_audit
