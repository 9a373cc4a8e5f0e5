-- ===== src/Tests/Data.antt =====
-- Users, drafts and tables for the tests.
use Prim.Native.String.{◌++◌}
use mgp.Base.{ok, zero, suc, String, none, some, List, [], ◌∷◌, true, false, pos, finite}
use mgp.Rbac.{Role, PassType, Actor}
use mgp.Database.{Platform, World}
use mgp.Database.Tables.{UserRow, Db}
use mgp.Gatepass.Domain.{Item, Draft, Field}

abbrev pub platform : Platform
platform = record {
  fresh = λ n. elim n [ zero ↦ "p0" | suc k ↦ elim k [ zero ↦ "p1" | _ ↦ "p2" ] ];
  numeric = λ q. some "1.000";
  numeric_text = λ s. some s;
  render_pdf = λ now calls. ok "%PDF";
  parse_float = λ s. some (finite false 1 0);
  digest = λ s. s;
  json_text = λ member. member.1;
  time_text = λ layout now. layout;
  file_digest = λ s. s;
  join_path = λ s t. s ++ ("/" ++ t);
  ilike = λ s t. true;
  arrange = λ rows. rows;
  collates = λ s t. false;
  sql_lower = λ s. s;
  lower = λ c. c;
  upper = λ c. c;
  argon2 = λ pin salt. salt;
  hmac = λ key s. 0 ∷ [];
  random = λ n. n ∷ [];
}

abbrev pub user : String → Role → UserRow
user id role = record {
  id = id;
  username = some id;
  name = id;
  pin_hash = none;
  role = role;
  status = "active";
  rank = "";
  phone = "";
  signature_path = "";
  signature_sha256 = "";
  updated_at = 0;
}

abbrev pub empty : Db
empty = record {
  users =
      user "ina" Role.inventory
      ∷ user "iva" Role.issuing
      ∷ user "sec" Role.security
      ∷ user "adm" Role.admin
      ∷ [];
  sessions = [];
  sequences = [];
  passes = [];
  items = [];
  audit_events = [];
  attempts = [];
  documents = [];
  inventory = [];
  consignees = [];
  settings = none;
  ids = 0;
}

abbrev pub world_of : Db → World
world_of db = record {
  db = db;
  now = 1000;
  today = record { year = 2026; month = 9; day = 14 };
  calls = 0;
  reads = 0;
  fault = λ _. none;
  files = [];
  disk_calls = 0;
  disk_fault = λ _. none;
  platform = platform;
}

abbrev pub start : World
start = world_of empty

-- The third call of the driver is refused.
abbrev pub faulty : World
faulty = record start {
  fault = λ n. elim n [ zero ↦ none | suc k ↦ elim k [ zero ↦ none | suc _ ↦ some "down" ] ];
}

abbrev pub order : List Field
order = Field.directorate ∷ Field.project ∷ Field.consignee ∷ Field.purpose ∷ Field.authority ∷ []

abbrev pub item : Item
item = record {
  code = "";
  name = "Material";
  category = "";
  serial_no = "";
  batch_no = "";
  full_part = "Full Item";
  quantity = finite false 1 0;
  unit = "NOS";
  description = "";
}

abbrev pub draft : Draft
draft = record {
  pass_type = PassType.returnable;
  pass_date = record { year = 2026; month = 9; day = 14 };
  expected_return_date = record { year = 2026; month = 9; day = 20 };
  directorate = "ASTRA";
  project = "SRSAM";
  consignee_name = "Consignee";
  consignee_address = "";
  reference_no = "";
  packages = pos 1;
  purpose = "Movement";
  authority = "Supervisor";
  inventory_no = "";
  inventory_holder = "";
  vehicle_no = "";
  loaded_in_presence_of = "";
  carrier_name = "";
  carrier_designation = "";
  remarks = "";
  copy_type = " triplicate";
  items = item ∷ [];
}

abbrev pub keeper : Actor
keeper = record { id = "ina"; role = Role.inventory }

abbrev pub issuer : Actor
issuer = record { id = "iva"; role = Role.issuing }

abbrev pub guard : Actor
guard = record { id = "sec"; role = Role.security }
