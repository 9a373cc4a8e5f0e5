-- ===== src/Admin/Kept.antt =====
-- cmd/mgp-admin/main.go: what the command leaves of the accounts that are there.
use mgp.Base.{
  ◌≡◌, refl, true, false, String, Option, none, some, ◌∷◌, Result, ok, err, update, Bool, subst,
  ◌==◌, text_equality, Result-cases, any, arith, Bool-cases, sym, not, ◌||◌, no_rows, message,
  driver, inl, inr, Failure, Option-cases,
}
use mgp.Database
use mgp.Http.{attempt, caught}
use mgp.Rbac.{Role, role_of, role_equality}
use mgp.Config.{load}
use mgp.Base.Text.{is_blank}
use mgp.Database.{World, M, require, check, statement, ◌>>=◌, ◌>>◌}
use mgp.Database.Tables.{UserRow, Db}
use mgp.Gatepass.Rows.{is_user}
use mgp.Auth.Users.{User, new_user, reset_pin, create_account, insert_user, find_by_username}
use mgp.Auth.Pin.{hash_pin, normalize_username, validate_username}
use mgp.Admin.Accounts.{AccountsKept, kept_refl, kept_trans, find-update, find-fresh}
use mgp.Admin.{
  Flags, run_admin, administer, give_account, set_pin, make_user, check_flags, account_of_flags,
  report, require_config,
}

abbrev Kept : {A : Type 0} → M A → Type 0
Kept m = (w : World) → AccountsKept w.db.users (m w).1.db.users

bind-Kept :
    {A B : Type 0} (m : M A) (f : A → M B) → Kept m → ((a : A) → Kept (f a)) → Kept (m >>= f)
bind-Kept {A} {B} m f km kf w = go (m w) (km w)
  where
    go :
        (r : Result A × World)
        → AccountsKept w.db.users r.1.db.users
        → AccountsKept w.db.users (Database.continue r f).1.db.users
    go (ok a, u) h = kept_trans w.db.users u.db.users (f a u).1.db.users h (kf a u)
    go (err e, u) h = h

attempt-Kept : {A : Type 0} (m : M A) → Kept m → Kept (attempt m)
attempt-Kept {A} m km w = go (m w) (km w)
  where
    go :
        (r : Result A × World)
        → AccountsKept w.db.users r.1.db.users
        → AccountsKept w.db.users (caught r).1.db.users
    go (ok a, u) h = h
    go (err e, u) h = h

require-Kept : (b : Bool) (text : String) → Kept (require b text)
require-Kept true text w = kept_refl w.db.users
require-Kept false text w = kept_refl w.db.users

check-Kept : (o : Option Failure) → Kept (check o)
check-Kept none w = kept_refl w.db.users
check-Kept (some e) w = kept_refl w.db.users

statement-Kept :
    {A : Type 0} (run : World → Result (A × Db))
    → ((w : World) (a : A) (db : Db) → run w ≡ ok (a, db) → AccountsKept w.db.users db.users)
    → Kept (statement run)
unfolding statement
statement-Kept run h w = elim (Option-cases (w.fault w.calls)) [
  | inl calm ↦ elim (Result-cases (run w)) [
    | inl ((a, db), e) ↦ rw (calm, e) (h w a db e)
    | inr (x, e) ↦ rw (calm, e) (kept_refl w.db.users)
  ]
  | inr (text, e) ↦ rw e (kept_refl w.db.users)
]

-- What leaves the tables alone keeps the accounts.
Still-Kept : {A : Type 0} (m : M A) → ((w : World) → (m w).1.db ≡ w.db) → Kept m
Still-Kept m still w =
    subst (λ db. AccountsKept w.db.users db.users) (sym (still w)) (kept_refl w.db.users)

reset_pin-Kept : (id hash : String) → Kept (reset_pin id hash)
unfolding reset_pin statement
reset_pin-Kept id hash w = elim (Option-cases (w.fault w.calls)) [
  | inl calm ↦
      let f : UserRow → UserRow = λ row. record row { pin_hash = some hash; updated_at = w.now } in
      let stored : (reset_pin id hash w).1.db.users ≡ update (is_user id) f w.db.users =
        ground arith in
      rw stored (find-update id f w.db.users λ row. (refl, (refl, refl, refl, refl)))
  | inr (text, e) ↦ rw e (kept_refl w.db.users)
]

insert_user-Kept : (username : String) (user : User) → Kept (statement (insert_user username user))
unfolding insert_user
insert_user-Kept username user = statement-Kept (insert_user username user) λ w a db e.
    let id = w.fresh w.db.ids in
    let new = new_user id username user w.now in
    let unused : any (is_user id) w.db.users ≡ false = ground arith in
    let stored : db.users ≡ new ∷ w.db.users = ground arith in
    subst (AccountsKept w.db.users) (sym stored) (find-fresh new w.db.users unused)

create_account-Kept : (user : User) → Kept (create_account user)
unfolding create_account
create_account-Kept user w =
    let username = normalize_username w.lower user.username in
    elim (Option-cases (validate_username w.lower username)) [
      | inl valid ↦ elim (Bool-cases (not (is_blank user.name || user.pin_hash == ""))) [
        | inl given ↦ rw (valid, given) (insert_user-Kept username user w)
        | inr e ↦ rw (valid, e) (kept_refl w.db.users)
      ]
      | inr (x, e) ↦ rw e (kept_refl w.db.users)
    ]

hash_pin-Kept : (pin : String) → Kept (hash_pin pin)
unfolding hash_pin
hash_pin-Kept pin = Still-Kept (hash_pin pin) λ w. ground arith

find_by_username-Kept : (username : String) → Kept (find_by_username username)
unfolding find_by_username statement
find_by_username-Kept username = Still-Kept (find_by_username username) λ w. ground arith

report-Kept :
    (start : String) (role : Role) (flags : Flags) (id : String) → Kept (report start role flags id)
report-Kept start role flags id w = kept_refl w.db.users

make_user-Kept : (flags : Flags) (role : Role) (hash : String) → Kept (make_user flags role hash)
make_user-Kept flags role hash =
    bind-Kept (require (not (flags.name == "")) "-name is required when creating a new account")
      (λ _. create_account (account_of_flags flags role hash) >>= report "created " role flags)
      (require-Kept (not (flags.name == "")) "-name is required when creating a new account")
      λ _.
        bind-Kept (create_account (account_of_flags flags role hash)) (report "created " role flags)
          (create_account-Kept (account_of_flags flags role hash))
          (report-Kept "created " role flags)

set_pin-Kept :
    (quote : String → String) (flags : Flags) (role : Role) (hash : String) (existing : User)
    → Kept (set_pin quote flags role hash existing)
set_pin-Kept quote flags role hash existing w = elim (Bool-cases (existing.role == role)) [
  | inl e ↦ rw e (
      bind-Kept (reset_pin existing.id hash) (λ _. report "reset PIN for " role flags existing.id)
        (reset_pin-Kept existing.id hash) (λ _. report-Kept "reset PIN for " role flags existing.id)
        w)
  | inr e ↦ rw e (kept_refl w.db.users)
]

give_account-Kept :
    (quote : String → String) (flags : Flags) (role : Role) (hash : String) (r : Result User)
    → Kept (give_account quote flags role hash r)
give_account-Kept quote flags role hash (ok existing) = set_pin-Kept quote flags role hash existing
give_account-Kept quote flags role hash (err no_rows) = make_user-Kept flags role hash
give_account-Kept quote flags role hash (err (message text)) = λ w. kept_refl w.db.users
give_account-Kept quote flags role hash (err (driver text)) = λ w. kept_refl w.db.users

administer-Kept :
    (quote : String → String) (flags : Flags) (role : Role) → Kept (administer quote flags role)
administer-Kept quote flags role =
    bind-Kept (hash_pin flags.pin)
      (λ hash. attempt (find_by_username flags.username) >>= give_account quote flags role hash)
      (hash_pin-Kept flags.pin)
      λ hash.
        bind-Kept (attempt (find_by_username flags.username)) (give_account quote flags role hash)
          (attempt-Kept (find_by_username flags.username) (find_by_username-Kept flags.username))
          (give_account-Kept quote flags role hash)

-- Whatever the command is given, and whether it fails or not, every account that is there stays
-- there with its role, its username, its name and its status.
pub run_admin-AccountsKept :
    (quote env : String → String) (flags : Flags) (w : World)
    → AccountsKept w.db.users (run_admin quote env flags w).1.db.users
unfolding run_admin
run_admin-AccountsKept quote env flags =
    bind-Kept (check_flags flags)
      (λ _. require_config (load env) >> administer quote flags (role_of flags.role))
      (Still-Kept (check_flags flags) λ w. ground arith)
      λ _.
        bind-Kept (require_config (load env)) (λ _. administer quote flags (role_of flags.role))
          (Still-Kept (require_config (load env)) λ w. ground arith)
          λ _. administer-Kept quote flags (role_of flags.role)
