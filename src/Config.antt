-- ===== src/Config.antt =====
-- internal/config/config.go: the configuration from the environment, a function from the name of a
-- variable to its value, which is empty where the variable is not set.
pub mod Loads
use Prim.Native.String.{◌++◌, len}
use mgp.Base.{
  Bool, true, false, not, ◌||◌, String, Option, none, some, ◌==◌, text_equality, ltb, if◌then◌else◌,
  Failure, message, Result, ok, err,
}

pub record Config : Type 0 where
  pub addr : String
  pub database_url : String
  pub session_key : String
  pub document_dir : String
  pub secure_cookie : Bool
  pub show_test_credentials : Bool

-- `strconv.ParseBool`.
abbrev pub parse_bool : String → Option Bool
parse_bool s =
    if s == "1" || s == "t" || s == "T" || s == "true" || s == "TRUE" || s == "True"
    then some true
    else if s == "0" || s == "f" || s == "F" || s == "false" || s == "FALSE" || s == "False"
    then some false
    else none

abbrev or_default : String → String → String
or_default value default = if value == "" then default else value

-- A variable that may be missing: the default, its value, or `none` where it cannot be read.
abbrev pub flag : Bool → String → Option Bool
flag default value = if value == "" then some default else parse_bool value

-- The error of `strconv.ParseBool`, with the variable in front.
abbrev bad_flag : String → String → Failure
bad_flag name value =
    message (name ++ (": strconv.ParseBool: parsing \"" ++ (value ++ "\": invalid syntax")))

-- The checks after the flags were read.
abbrev load_checked : Config → Result Config
load_checked c =
    if c.database_url == ""
    then err (message "MGP_DATABASE_URL is required")
    else if ltb (len c.session_key) 32
    then err (message "MGP_SESSION_KEY must be at least 32 characters")
    else ok c

abbrev pub config_of : (String → String) → Bool → Bool → Config
config_of env secure_cookie show_test_credentials = record {
  addr = or_default (env "MGP_ADDR") ":8080";
  database_url = env "MGP_DATABASE_URL";
  session_key = env "MGP_SESSION_KEY";
  document_dir = or_default (env "MGP_DOCUMENT_DIR") "data/documents";
  secure_cookie = secure_cookie;
  show_test_credentials = show_test_credentials;
}

abbrev load_flags : (String → String) → Option Bool → Option Bool → Result Config
load_flags env none shown = err (bad_flag "MGP_SECURE_COOKIE" (env "MGP_SECURE_COOKIE"))
load_flags env (some secure) none =
    err (bad_flag "MGP_SHOW_TEST_CREDENTIALS" (env "MGP_SHOW_TEST_CREDENTIALS"))
load_flags env (some secure) (some shown) = load_checked (config_of env secure shown)

-- `Load`.
unfoldable pub load : (String → String) → Result Config
load env =
    load_flags env (flag true (env "MGP_SECURE_COOKIE"))
      (flag false (env "MGP_SHOW_TEST_CREDENTIALS"))
