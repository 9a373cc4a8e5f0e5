-- ===== src/Auth/Users.antt =====
-- internal/auth/users.go: accounts.
use mgp.Base.{
  ℕ, ◌+◌, Bool, true, false, not, ◌&&◌, ◌||◌, String, Option, none, some, List, [], ◌∷◌, ◌==◌,
  nat_equality, text_equality, any, find, update, length, select, if◌then◌else◌, driver, Result, ok,
  err, or_empty,
}
use mgp.Base.Text.{trim_space, is_blank}
use mgp.Rbac.{Role}
use mgp.Database.{
  World, M, ◌>>=◌, ◌>>◌, require, check, asks, statement, read_row, read_only, change,
}
use mgp.Database.Tables.{UserRow, Db}
use mgp.Gatepass.Rows.{is_user}
use mgp.Auth.Pin.{normalize_username, validate_username}

pub record User : Type 0 where
  pub id : String
  pub username : String
  pub name : String
  pub pin_hash : String
  pub role : Role
  pub status : String
  pub rank : String
  pub phone : String
  pub signature_path : String
  pub signature_sha256 : String

-- The columns of a row as `Scan` stores them.
abbrev pub user_of : UserRow → User
user_of row = record {
  id = row.id;
  username = or_empty row.username;
  name = row.name;
  pin_hash = or_empty row.pin_hash;
  role = row.role;
  status = row.status;
  rank = row.rank;
  phone = row.phone;
  signature_path = row.signature_path;
  signature_sha256 = row.signature_sha256;
}

-- `ORDER BY name`: the row goes in front of the first one that it does not come after.
insert_by_name : (String → String → Bool) → UserRow → List UserRow → List UserRow
insert_by_name before row [] = row ∷ []
insert_by_name before row (other ∷ rows) =
    if before other.name row.name
    then other ∷ insert_by_name before row rows
    else row ∷ other ∷ rows

sort_by_name : (String → String → Bool) → List UserRow → List UserRow
sort_by_name before [] = []
sort_by_name before (row ∷ rows) = insert_by_name before row (sort_by_name before rows)

map_users : List UserRow → List User
map_users [] = []
map_users (row ∷ rows) = user_of row ∷ map_users rows

-- `List`.
unfoldable pub list_users : M (List User)
unfolding insert_by_name sort_by_name map_users
list_users = statement (read_only λ w. map_users (sort_by_name w.collates w.db.users))

-- `RowsAffected` of an `UPDATE … WHERE id=…`, whose change it makes.
abbrev pub update_user : String → (UserRow → UserRow) → World → Result (ℕ × Db)
update_user id f w = ok (
  length (select (is_user id) w.db.users),
  record w.db { users = update (is_user id) f w.db.users },
)

abbrev is_one : ℕ → Bool
is_one count = count == 1

-- `SetStatus`.
unfoldable pub set_status : String → String → M (Unit {0})
set_status id status = do
  require (status == "active" || status == "suspended") "invalid account status"
  count ←
      statement λ w. update_user id (λ row. record row { status = status; updated_at = w.now }) w
  require (is_one count) "user not found"

-- `ResetPIN`.
unfoldable pub reset_pin : String → String → M (Unit {0})
reset_pin id pin_hash = do
  count ←
      statement
        λ w. update_user id (λ row. record row { pin_hash = some pin_hash; updated_at = w.now }) w
  require (is_one count) "user not found"

abbrev find_user : Option UserRow → Option User
find_user none = none
find_user (some row) = some (user_of row)

-- `lower(username)=lower($1)`; NULL is never equal.
abbrev pub has_username : (String → String) → String → UserRow → Bool
has_username lower username row = elim row.username [
  | none ↦ false
  | some name ↦ lower name == lower username
]

-- `FindByUsername`.
unfoldable pub find_by_username : String → M User
find_by_username username = statement (
    read_row λ w.
      find_user (find (has_username w.sql_lower (normalize_username w.lower username)) w.db.users))

-- `FindByID`.
unfoldable pub find_by_id : String → M User
find_by_id id = statement (read_row λ w. find_user (find (is_user id) w.db.users))

-- `CHECK (role IN …)`.
abbrev pub role_holds : Role → Bool
role_holds (Role.other _) = false
role_holds _ = true

abbrev pub new_user : String → String → User → ℕ → UserRow
new_user id username user now = record {
  id = id;
  username = some username;
  name = trim_space user.name;
  pin_hash = some user.pin_hash;
  role = user.role;
  status = "active";
  rank = trim_space user.rank;
  phone = trim_space user.phone;
  signature_path = trim_space user.signature_path;
  signature_sha256 = trim_space user.signature_sha256;
  updated_at = now;
}

-- `INSERT INTO users … RETURNING id`, under the checks and the unique keys.
unfoldable pub insert_user : String → User → World → Result (String × Db)
insert_user username user w =
    let id = w.fresh w.db.ids in
    if role_holds user.role
      && not (any (is_user id) w.db.users)
      && not (any (has_username w.sql_lower username) w.db.users)
    then ok (
      id,
      record w.db { users = new_user id username user w.now ∷ w.db.users; ids = w.db.ids + 1 },
    )
    else err (driver "users: a constraint is violated")

-- `Create`.
unfoldable pub create_account : User → M String
create_account user = do
  username ← asks λ w. normalize_username w.lower user.username
  lower ← asks λ w. w.lower
  check (validate_username lower username)
  require (not (is_blank user.name || user.pin_hash == "")) "username, name, and PIN are required"
  statement λ w. insert_user username user w

-- `UpdateSignature`.
unfoldable pub update_signature : String → String → String → M (Unit {0})
update_signature id path checksum = statement (
    change λ w. record w.db {
      users =
          update (is_user id)
            (λ row. record row {
              signature_path = path;
              signature_sha256 = checksum;
              updated_at = w.now;
            })
            w.db.users;
    })
