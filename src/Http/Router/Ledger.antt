-- ===== src/Http/Router/Ledger.antt =====
-- internal/http/server.go: which calls leave gate passes and their audit trail alone.
use mgp.Base.{
  ◌≡◌, refl, sym, ap, ◌∙◌, subst, Bool, true, false, Bool-cases, inl, inr, String, some, List, [],
  ◌∷◌, All, Result, ok, err, arith, text_equality,
}
use mgp.Database.{World, M, continue, pure, ◌>>=◌, ◌>>◌, statement, transaction, rolled_back}
use mgp.Database.Tables.{Db}
use mgp.Gatepass.Invariant.{Inv, Shape, replay, status_of}
use mgp.Base.Keys.{Distinct}
use mgp.Auth.Users.{find_by_username, find_by_id}
use mgp.Auth.Limiter.{login_allowed, record_login_failure, clear_login_failures}
use mgp.Sessions.{get_session, create_session, insert_session, delete_session}
use mgp.Http.{current_user}
use mgp.Auth.Users.{User, set_status, reset_pin, create_account, insert_user}
use mgp.Auth.Pin.{hash_pin}
use mgp.Settings.{Organization, update_organization}
use mgp.Masterdata.{
  InventoryItem, Consignee, insert_inventory, has_rows, all_named, insert_rows, import_inventory,
  create_inventory, archive_inventory, insert_consignee, create_consignee, archive_consignee,
}
use mgp.Database.{mark, require}
use mgp.Http.{Request, Response, attempt}
use mgp.Sessions.{Session}
use mgp.Auth.Pin.{normalize_username}
use mgp.Http.Login.{
  valid_login, refuse_login, session_answer, admit_login, login_found, login_checked, login_form,
  login, logout,
}

-- The same passes, and an audit log that tells the same of each.
abbrev pub Near : Db → Db → Type 0
Near old new =
    (new.passes ≡ old.passes)
    × ((id : String) → replay id new.audit_events ≡ replay id old.audit_events)

pub Near-Inv : (old new : Db) → Near old new → Inv old → Inv new
Near-Inv old new (passes, events) valid = record {
  distinct_ids = subst (Distinct (λ row. row.id)) (sym passes) valid.distinct_ids;
  distinct_numbers = subst (Distinct (λ row. row.pass_no)) (sym passes) valid.distinct_numbers;
  shapes = subst (All Shape) (sym passes) valid.shapes;
  trail = λ id. events id ∙ valid.trail id ∙ ap (λ rows. some (status_of id rows)) (sym passes);
}

-- Tables with the same passes and the same log.
abbrev Same : Db → Db → Type 0
Same old new = (new.passes ≡ old.passes) × (new.audit_events ≡ old.audit_events)

pub Same-Near : (old new : Db) → Same old new → Near old new
Same-Near old new (passes, events) = (passes, λ id. ap (replay id) events)

abbrev pub Quiet : {A : Type 0} → M A → Type 0
Quiet m = (w : World) → Same w.db (m w).1.db

pub set_status-Quiet : (id status : String) → Quiet (set_status id status)
unfolding set_status statement
set_status-Quiet id status w = (ground arith, ground arith)

pub reset_pin-Quiet : (id hash : String) → Quiet (reset_pin id hash)
unfolding reset_pin statement
reset_pin-Quiet id hash w = (ground arith, ground arith)

pub update_organization-Quiet : (o : Organization) → Quiet (update_organization o)
unfolding update_organization statement
update_organization-Quiet o w = (ground arith, ground arith)

pub create_inventory-Quiet : (item : InventoryItem) → Quiet (create_inventory item)
unfolding create_inventory insert_inventory statement
create_inventory-Quiet item w = (ground arith, ground arith)

pub archive_inventory-Quiet : (id : String) → Quiet (archive_inventory id)
unfolding archive_inventory statement
archive_inventory-Quiet id w = (ground arith, ground arith)

pub create_consignee-Quiet : (item : Consignee) → Quiet (create_consignee item)
unfolding create_consignee insert_consignee statement
create_consignee-Quiet item w = (ground arith, ground arith)

pub archive_consignee-Quiet : (id : String) → Quiet (archive_consignee id)
unfolding archive_consignee statement
archive_consignee-Quiet id w = (ground arith, ground arith)

pub hash_pin-Quiet : (pin : String) → Quiet (hash_pin pin)
unfolding hash_pin
hash_pin-Quiet pin w = (ground arith, ground arith)

pub create_account-Quiet : (user : User) → Quiet (create_account user)
unfolding create_account insert_user statement
create_account-Quiet user w = (ground arith, ground arith)

Same-trans : (a b c : Db) → Same a b → Same b c → Same a c
Same-trans a b c (p, e) (q, f) = (q ∙ p, f ∙ e)

continue-Same :
    {A B : Type 0} (f : A → M B) (db : Db)
    → ((a : A) → Quiet (f a))
    → (r : Result A × World) → Same db r.1.db
    → Same db (continue r f).1.db
continue-Same f db hf (ok a, w) h = Same-trans db w.db (f a w).1.db h (hf a w)
continue-Same f db hf (err e, w) h = h

pub bind-Quiet :
    {A B : Type 0} (m : M A) (f : A → M B) → Quiet m → ((a : A) → Quiet (f a)) → Quiet (m >>= f)
bind-Quiet m f hm hf w = continue-Same f w.db hf (m w) (hm w)

login_allowed-Quiet : (username : String) → Quiet (login_allowed username)
unfolding login_allowed statement
login_allowed-Quiet username w = (ground arith, ground arith)

find_by_username-Quiet : (username : String) → Quiet (find_by_username username)
unfolding find_by_username statement
find_by_username-Quiet username w = (ground arith, ground arith)

record_login_failure-Quiet : (username : String) → Quiet (record_login_failure username)
unfolding record_login_failure statement
record_login_failure-Quiet username w = (ground arith, ground arith)

clear_login_failures-Quiet : (username : String) → Quiet (clear_login_failures username)
unfolding clear_login_failures statement
clear_login_failures-Quiet username w = (ground arith, ground arith)

create_session-Quiet : (user_id : String) → Quiet (create_session user_id)
unfolding create_session insert_session statement
create_session-Quiet user_id w = (ground arith, ground arith)

refuse_login-Quiet : (username : String) → Quiet (refuse_login username)
refuse_login-Quiet username =
    bind-Quiet (attempt (record_login_failure username))
      (λ _. pure (Response.redirect "/login?error=Invalid+username+or+PIN"))
      (record_login_failure-Quiet username) λ _ w. (refl, refl)

session_answer-Quiet : (key : String) (result : Result Session) → Quiet (session_answer key result)
session_answer-Quiet key (ok session) w = (refl, refl)
session_answer-Quiet key (err e) w = (refl, refl)

admit_login-Quiet :
    (key username : String) (found : Result User) → Quiet (admit_login key username found)
admit_login-Quiet key username (err e) = refuse_login-Quiet username
admit_login-Quiet key username (ok user) =
    bind-Quiet (attempt (clear_login_failures username))
      (λ _. attempt (create_session user.id) >>= session_answer key)
      (clear_login_failures-Quiet username)
      λ _.
        bind-Quiet (attempt (create_session user.id)) (session_answer key)
          (create_session-Quiet user.id) (session_answer-Quiet key)

login_found-Quiet :
    (key username pin : String) (allowed : Bool) (found : Result User)
    → Quiet (login_found key username pin allowed found)
login_found-Quiet key username pin allowed found w =
    elim (Bool-cases (valid_login allowed found pin w)) [
      | inl e ↦ rw e (admit_login-Quiet key username found w)
      | inr e ↦ rw e (refuse_login-Quiet username w)
    ]

login_checked-Quiet :
    (key username pin : String) (allowed : Result Bool)
    → Quiet (login_checked key username pin allowed)
login_checked-Quiet key username pin (err e) = λ w. (refl, refl)
login_checked-Quiet key username pin (ok allowed) =
    bind-Quiet (attempt (find_by_username username)) (login_found key username pin allowed)
      (find_by_username-Quiet username) (login_found-Quiet key username pin allowed)

login_form-Quiet : (key : String) (request : Request) → Quiet (login_form key request)
login_form-Quiet key request w =
    let username = normalize_username w.lower (request.form_value "username") in
    bind-Quiet (attempt (login_allowed username))
      (login_checked key username (request.form_value "pin")) (login_allowed-Quiet username)
      (login_checked-Quiet key username (request.form_value "pin")) w

pub login-Quiet : (key : String) (request : Request) → Quiet (login key request)
unfolding login
login-Quiet key request w = elim (Bool-cases request.is_malformed) [
  | inl e ↦ rw e (refl, refl)
  | inr e ↦ rw e (login_form-Quiet key request w)
]

pub logout-Quiet : (key : String) (request : Request) → Quiet (logout key request)
unfolding logout statement current_user get_session find_by_id delete_session
logout-Quiet key request w = (ground arith, ground arith)

rolled_back-Same :
    {A : Type 0} (db : Db) (r : Result A × World) → Same db r.1.db → Same db (rolled_back db r).1.db
rolled_back-Same db (ok a, w) h = h
rolled_back-Same db (err e, w) h = (refl, refl)

mark-Quiet : Quiet mark
unfolding statement
mark-Quiet w = (ground arith, ground arith)

transaction-Quiet : {A : Type 0} (body : M A) → Quiet body → Quiet (transaction body)
unfolding transaction
transaction-Quiet body h w = rolled_back-Same w.db _ (
    bind-Quiet mark (λ _. body >>= λ a. mark >> pure a) mark-Quiet
      (λ _.
        bind-Quiet body (λ a. mark >> pure a) h
          λ a. bind-Quiet mark (λ _. pure a) mark-Quiet λ _ w. (refl, refl))
      w)

insert_inventory-Quiet : (item : InventoryItem) → Quiet (statement (insert_inventory item))
unfolding insert_inventory statement
insert_inventory-Quiet item w = (ground arith, ground arith)

insert_rows-Quiet : (items : List InventoryItem) → Quiet (insert_rows items)
unfolding insert_rows
insert_rows-Quiet [] w = (refl, refl)
insert_rows-Quiet (item ∷ items) w =
    bind-Quiet (statement (insert_inventory item)) (λ _. insert_rows items)
      (insert_inventory-Quiet item) (λ _. insert_rows-Quiet items) w

require-Quiet : (test : Bool) (text : String) → Quiet (require test text)
require-Quiet true text w = (refl, refl)
require-Quiet false text w = (refl, refl)

pub import_inventory-Quiet : (items : List InventoryItem) → Quiet (import_inventory items)
unfolding import_inventory
import_inventory-Quiet items =
    let named = require (all_named items) "every row needs an item code and name" in
    bind-Quiet (require (has_rows items) "CSV contains no inventory rows")
      (λ _. named >> transaction (insert_rows items))
      (require-Quiet (has_rows items) "CSV contains no inventory rows")
      λ _.
        bind-Quiet named (λ _. transaction (insert_rows items))
          (require-Quiet (all_named items) "every row needs an item code and name")
          λ _. transaction-Quiet (insert_rows items) (insert_rows-Quiet items)
