-- ===== src/View.antt =====
-- internal/view/model.go: what the pages show. The rows of the register and the detail of a pass
-- stand with the store that fills them.
use mgp.Base.{ℕ, Bool, false, String, List, []}
use mgp.Gatepass.Detail.{PassDetail}
use mgp.Gatepass.Register.{RegisterRow}

pub record PageData : Type 0 where
  pub title : String
  pub active : String
  pub user_name : String
  pub role : String
  pub csrf_token : String
  pub notice : String
  pub error : String
  pub search : String
  pub status_filter : String
  pub type_filter : String
  pub passes : List RegisterRow
  pub visible : ℕ
  pub pending : ℕ
  pub passed_out : ℕ
  pub overdue : ℕ
  pub notifications : ℕ
  pub test_credentials : Bool

pub record PassFormItem : Type 0 where
  pub code : String
  pub name : String
  pub category : String
  pub serial_no : String
  pub batch_no : String
  pub full_part : String
  pub unit : String
  pub quantity : String
  pub description : String

-- The embedded `PageData` is the field `page`.
pub record NewPassData : Type 0 where
  pub page : PageData
  pub revision_of : String
  pub pass_type : String
  pub pass_date : String
  pub expected_return_date : String
  pub directorate : String
  pub project : String
  pub consignee_name : String
  pub consignee_address : String
  pub reference_no : String
  pub packages : String
  pub purpose : String
  pub authority : String
  pub inventory_no : String
  pub inventory_holder : String
  pub vehicle_no : String
  pub loaded_in_presence_of : String
  pub carrier_name : String
  pub carrier_designation : String
  pub remarks : String
  pub copy_type : String
  pub items : List PassFormItem

pub record DetailData : Type 0 where
  pub page : PageData
  pub pass : PassDetail

pub record AccountRow : Type 0 where
  pub id : String
  pub username : String
  pub name : String
  pub role : String
  pub status : String
  pub rank : String
  pub phone : String
  pub signature_path : String

pub record UsersData : Type 0 where
  pub page : PageData
  pub users : List AccountRow

pub record MasterInventoryRow : Type 0 where
  pub id : String
  pub code : String
  pub name : String
  pub category : String
  pub serial_no : String
  pub batch_no : String
  pub unit : String
  pub quantity : String
  pub holder : String
  pub description : String
  pub status : String

pub record MasterConsigneeRow : Type 0 where
  pub id : String
  pub name : String
  pub address : String
  pub contact : String
  pub status : String

pub record MasterData : Type 0 where
  pub page : PageData
  pub inventory : List MasterInventoryRow
  pub consignees : List MasterConsigneeRow

pub record EventRow : Type 0 where
  pub created_at : String
  pub entity_type : String
  pub action : String
  pub actor_role : String
  pub reason : String
  pub metadata : String

pub record AuditData : Type 0 where
  pub page : PageData
  pub events : List EventRow

pub record SettingsData : Type 0 where
  pub page : PageData
  pub application_name : String
  pub organization_name : String
  pub organization_address : String
  pub default_directorate : String
  pub default_project : String
  pub default_copy : String
  pub allow_manual_pass_no : String
  pub session_minutes : String
  pub logo : String

-- The zero value of `PageData`.
abbrev pub empty_page : PageData
empty_page = record {
  title = "";
  active = "";
  user_name = "";
  role = "";
  csrf_token = "";
  notice = "";
  error = "";
  search = "";
  status_filter = "";
  type_filter = "";
  passes = [];
  visible = 0;
  pending = 0;
  passed_out = 0;
  overdue = 0;
  notifications = 0;
  test_credentials = false;
}

-- The components of the package pages that the handlers render.
pub data Page : Type 0 where
  login dashboard gate_passes reports : PageData → Page
  new_gate_pass : NewPassData → Page
  gate_pass_detail : DetailData → Page
  users : UsersData → Page
  inventory consignees : MasterData → Page
  audit : AuditData → Page
  settings : SettingsData → Page
