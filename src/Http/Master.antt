-- ===== src/Http/Master.antt =====
-- internal/http/server.go: the handlers that change master data.
pub mod Import
use Prim.Native.String.{◌++◌}
use mgp.Base.{
  Bool, true, false, not, ◌&&◌, ◌||◌, String, Option, none, some, List, ◌==◌, text_equality,
  if◌then◌else◌, Result, ok, err, error_text,
}
use mgp.Rbac.{Role, role_equality}
use mgp.Database.{World, M, pure, ◌>>=◌}
use mgp.Auth.Users.{User}
use mgp.Sessions.{Session}
use mgp.Masterdata.{
  InventoryItem, Consignee, create_inventory, import_inventory, archive_inventory, create_consignee,
  archive_consignee,
}
use mgp.Http.{Request, Response, Upload, attempt, current_user, valid_csrf, or_login}
use mgp.Http.Workflow.{url_query}
use mgp.Http.Master.Import.{read_items}

-- `canEditMaster`.
abbrev pub can_edit_master : User → Bool
can_edit_master user = user.role == Role.admin || user.role == Role.inventory

-- `!canEditMaster(user) || !validCSRF(r, session)` and its early return.
abbrev pub as_editor : Request → M Response → User → Session → M Response
as_editor request act user session =
    if can_edit_master user && valid_csrf request session
    then act
    else pure (Response.failure 403 "forbidden")

-- Back to a list, with the error or with a notice.
abbrev pub listed : {A : Type 0} → String → String → Result A → M Response
listed path notice (err e) =
    pure (Response.redirect (path ++ ("?error=" ++ url_query (error_text e))))
listed path notice (ok _) = pure (Response.redirect (path ++ ("?notice=" ++ notice)))

abbrev pub item_of_request : Request → InventoryItem
item_of_request request = record {
  id = "";
  code = request.form_value "item_code";
  name = request.form_value "item_name";
  category = request.form_value "category";
  serial_no = request.form_value "serial_no";
  batch_no = request.form_value "batch_no";
  unit = request.form_value "unit";
  holder = request.form_value "holder";
  description = request.form_value "description";
  status = "";
  quantity = request.form_value "quantity";
}

-- `createInventory`.
unfoldable pub create_inventory_item : String → Request → M Response
create_inventory_item key request =
    attempt (current_user key request)
    >>= or_login (
        as_editor request (
          attempt (create_inventory (item_of_request request))
          >>= listed "/inventory" "Inventory+item+created"))

-- The rest of the import, with the items of the file or the error of a row.
abbrev pub import_read : Result (List InventoryItem) → M Response
import_read (err e) = pure (Response.redirect ("/inventory?error=" ++ url_query (error_text e)))
import_read (ok items) =
    attempt (import_inventory items) >>= listed "/inventory" "CSV+validated+and+imported"

abbrev pub import_content : Upload → M Response
import_content file w = import_read (read_items w.lower w.parse_float file.content) w

abbrev pub import_file : Option Upload → M Response
import_file none = pure (Response.redirect "/inventory?error=CSV+file+is+required")
import_file (some file) = import_content file

-- `importInventory`; the form is read before its size is limited, so the limit has no effect.
unfoldable pub import_inventory_file : String → Request → M Response
import_inventory_file key request =
    attempt (current_user key request)
    >>= or_login (as_editor request (import_file (request.form_file "csv")))

-- `archiveInventory`.
unfoldable pub archive_inventory_item : String → Request → M Response
archive_inventory_item key request =
    attempt (current_user key request)
    >>= or_login (
        as_editor request (
          attempt (archive_inventory request.path_id)
          >>= listed "/inventory" "Inventory+item+archived"))

abbrev pub consignee_of_request : Request → Consignee
consignee_of_request request = record {
  id = "";
  name = request.form_value "name";
  address = request.form_value "address";
  contact = request.form_value "contact";
  status = "";
}

-- `createConsignee`.
unfoldable pub create_consignee_entry : String → Request → M Response
create_consignee_entry key request =
    attempt (current_user key request)
    >>= or_login (
        as_editor request (
          attempt (create_consignee (consignee_of_request request))
          >>= listed "/consignees" "Consignee+created"))

-- `archiveConsignee`.
unfoldable pub archive_consignee_entry : String → Request → M Response
archive_consignee_entry key request =
    attempt (current_user key request)
    >>= or_login (
        as_editor request (
          attempt (archive_consignee request.path_id)
          >>= listed "/consignees" "Consignee+archived"))
