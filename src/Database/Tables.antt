-- ===== src/Database/Tables.antt =====
-- The tables of db/migrations, newest row first. A nullable column is an `Option`; the columns of
-- a gate pass that its form fills are a record of their own.
use mgp.Base.{ℕ, String, Option, List, ℤ, Date}
use mgp.Rbac.{Role, Status, PassType}

pub record UserRow : Type 0 where
  pub id : String
  pub username : Option String
  pub name : String
  pub pin_hash : Option String
  pub role : Role
  pub status : String
  pub rank : String
  pub phone : String
  pub signature_path : String
  pub signature_sha256 : String
  pub updated_at : ℕ

pub record SessionRow : Type 0 where
  pub id : String
  pub user_id : String
  pub csrf_token : String
  pub expires_at : ℕ

pub record SequenceRow : Type 0 where
  pub directorate : String
  pub project : String
  pub year : ℕ
  pub current_number : ℕ

pub record Columns : Type 0 where
  pub pass_type : PassType
  pub pass_date : Date
  pub expected_return_date : Option Date
  pub directorate : String
  pub project : String
  pub consignee_name : String
  pub consignee_address : String
  pub reference_no : String
  pub packages : ℤ
  pub purpose : String
  pub authority : String
  pub inventory_no : String
  pub inventory_holder : String
  pub vehicle_no : String
  pub loaded_in_presence_of : String
  pub carrier_name : String
  pub carrier_designation : String
  pub remarks : String
  pub copy_type : String

pub record PassRow : Type 0 where
  pub id : String
  pub pass_no : String
  pub status : Status
  pub revision_of : Option String
  pub revision_no : ℕ
  pub columns : Columns
  pub open columns use *
  pub actual_return_date : Option Date
  pub security_control_no : String
  pub rejection_reason : String
  pub created_by : String
  pub approved_by : Option String
  pub security_officer_id : Option String
  pub returned_by : Option String
  pub submitted_at : Option ℕ
  pub approved_at : Option ℕ
  pub passed_out_at : Option ℕ
  pub returned_at : Option ℕ
  pub updated_at : ℕ
  pub approval_reference : String
  pub record_hash : String

pub record ItemRow : Type 0 where
  pub gate_pass_id : String
  pub item_code : String
  pub item_name : String
  pub category : String
  pub serial_no : String
  pub batch_no : String
  pub full_part : String
  pub unit_of_measure : String
  pub quantity : String
  pub description : String

pub record AuditRow : Type 0 where
  pub entity_type : String
  pub entity_id : String
  pub action : String
  pub from_status : Option String
  pub to_status : Option String
  pub actor_id : String
  pub actor_role : Role
  pub reason : Option String
  pub metadata : String × String
  pub created_at : ℕ

pub record AttemptRow : Type 0 where
  pub username : String
  pub failed_attempts : ℕ
  pub locked_until : Option ℕ
  pub updated_at : ℕ

pub record DocumentRow : Type 0 where
  pub gate_pass_id : String
  pub document_type : String
  pub path : String
  pub sha256 : String
  pub created_by : String

pub record InventoryRow : Type 0 where
  pub id : String
  pub item_code : String
  pub item_name : String
  pub category : String
  pub serial_no : String
  pub batch_no : String
  pub unit_of_measure : String
  pub quantity : String
  pub holder : String
  pub description : String
  pub archived_at : Option ℕ

pub record ConsigneeRow : Type 0 where
  pub id : String
  pub name : String
  pub address : String
  pub contact : String
  pub archived_at : Option ℕ

-- The members of the JSON value under the key `organization`; one that is missing is `none`.
pub record SettingsRow : Type 0 where
  pub app_title : Option String
  pub name : Option String
  pub address : Option String
  pub default_directorate : Option String
  pub default_project : Option String
  pub default_copy : Option String
  pub allow_manual_pass_no : Option String
  pub session_minutes : Option String
  pub logo : Option String

-- `ids` counts the calls of `gen_random_uuid`.
pub record Db : Type 0 where
  pub users : List UserRow
  pub sessions : List SessionRow
  pub sequences : List SequenceRow
  pub passes : List PassRow
  pub items : List ItemRow
  pub audit_events : List AuditRow
  pub attempts : List AttemptRow
  pub documents : List DocumentRow
  pub inventory : List InventoryRow
  pub consignees : List ConsigneeRow
  pub settings : Option SettingsRow
  pub ids : ℕ
