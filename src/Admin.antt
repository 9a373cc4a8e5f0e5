-- ===== src/Admin.antt =====
-- cmd/mgp-admin/main.go: the command that makes an account or sets its PIN, between the opening of
-- the database with its migrations and the end. An error that ends the command is an error here.
pub mod Accounts
pub mod Kept
use Prim.Native.String.{◌++◌}
use mgp.Base.{
  Bool, true, false, not, ◌||◌, String, Option, none, some, ◌==◌, text_equality, if◌then◌else◌,
  Failure, message, no_rows, Result, ok, err,
}
use mgp.Rbac.{Role, role_text, role_of, role_equality}
use mgp.Config.{Config, load}
use mgp.Database.{M, pure, throw, ◌>>=◌, ◌>>◌, require, check, asks}
use mgp.Auth.Pin.{normalize_username, validate_username, hash_pin}
use mgp.Auth.Users.{User, find_by_username, reset_pin, create_account, role_holds}
use mgp.Http.{attempt}

pub record Flags : Type 0 where
  pub username : String
  pub name : String
  pub pin : String
  pub role : String

-- What the command asks of its flags.
abbrev pub check_flags : Flags → M (Unit {0})
check_flags flags = do
  require (not (flags.username == "" || flags.pin == "")) "-username and -pin are required"
  lower ← asks λ w. w.lower
  check (validate_username lower flags.username)
  require (role_holds (role_of flags.role)) "invalid role"

abbrev report : String → Role → Flags → String → M String
report start role flags id = do
  username ← asks λ w. normalize_username w.lower flags.username
  pure (start ++ (role_text role ++ (" account " ++ (username ++ (" (" ++ (id ++ ")\n"))))))

abbrev account_of_flags : Flags → Role → String → User
account_of_flags flags role hash = record {
  id = "";
  username = flags.username;
  name = flags.name;
  pin_hash = hash;
  role = role;
  status = "";
  rank = "";
  phone = "";
  signature_path = "";
  signature_sha256 = "";
}

abbrev pub set_pin : (String → String) → Flags → Role → String → User → M String
set_pin quote flags role hash existing = do
  require (existing.role == role) (
      "existing username "
      ++ (quote flags.username ++ (" belongs to role " ++ role_text existing.role)))
  reset_pin existing.id hash
  report "reset PIN for " role flags existing.id

abbrev pub make_user : Flags → Role → String → M String
make_user flags role hash = do
  require (not (flags.name == "")) "-name is required when creating a new account"
  id ← create_account (account_of_flags flags role hash)
  report "created " role flags id

abbrev pub give_account : (String → String) → Flags → Role → String → Result User → M String
give_account quote flags role hash (ok existing) = set_pin quote flags role hash existing
give_account quote flags role hash (err no_rows) = make_user flags role hash
give_account quote flags role hash (err e) = throw e

abbrev pub administer : (String → String) → Flags → Role → M String
administer quote flags role = do
  hash ← hash_pin flags.pin
  found ← attempt (find_by_username flags.username)
  give_account quote flags role hash found

abbrev require_config : Result Config → M (Unit {0})
require_config (ok config) = pure tt
require_config (err e) = throw e

-- `main` under an environment; `quote` is `%q` of the package fmt. It gives what is printed.
unfoldable pub run_admin : (String → String) → (String → String) → Flags → M String
run_admin quote env flags = do
  check_flags flags
  require_config (load env)
  administer quote flags (role_of flags.role)
