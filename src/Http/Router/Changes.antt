-- ===== src/Http/Router/Changes.antt =====
-- internal/http/server.go: the handlers of accounts, settings and master data, with the invariant of
-- the tables.
use mgp.Base.{refl, Bool-cases, inl, inr, String, Option, none, some, List, Result, ok, err, arith}
use mgp.Base.Text.{trim_space}
use mgp.Rbac.{Role, role_of, role_text}
use mgp.Database.{M, pure, ◌>>=◌, ◌>>◌, statement, disk}
use mgp.Auth.Users.{User, set_status, reset_pin, create_account, update_signature, role_holds}
use mgp.Auth.Pin.{hash_pin}
use mgp.Settings.{update_organization}
use mgp.Masterdata.{InventoryItem, import_inventory}
use mgp.Http.{Request, Upload, attempt}
use mgp.Http.Accounts.{
  recorded, change_status, new_pin, change_pin, record_account_audit, audit_answer,
}
use mgp.Http.NewAccount.{
  store_signature, account_of_request, make_account, account_made, create_user_as,
}
use mgp.Http.Organization.{organization_of_request, settings_changed, change_settings}
use mgp.Http.Master.Import.{read_items}
use mgp.Http.Master.{listed, import_read, import_file}
use mgp.Http.Passes.{}
use mgp.Http.Router.Ledger.{
  bind-Quiet, Quiet, set_status-Quiet, reset_pin-Quiet, update_organization-Quiet, hash_pin-Quiet,
  create_account-Quiet, import_inventory-Quiet,
}
use mgp.Http.Router.Invariant.{Safe, Quiet-Safe, bind-Safe, record_account_audit-Safe}
use mgp.Http.Router.Serves.{}

recorded-Safe :
    (target action : String) (admin : User) (detail location : String) (r : Result (Unit {0}))
    → Safe (recorded target action admin detail location r)
recorded-Safe target action admin detail location (err e) = λ w valid. valid
recorded-Safe target action admin detail location (ok _) =
    bind-Safe (attempt (record_account_audit target action admin detail))
      (λ result. pure (audit_answer location result))
      (record_account_audit-Safe target action admin detail) λ _ w valid. valid

settings_changed-Safe : (admin : User) (r : Result (Unit {0})) → Safe (settings_changed admin r)
settings_changed-Safe admin (err e) = λ w valid. valid
settings_changed-Safe admin (ok _) =
    bind-Safe (attempt (record_account_audit admin.id "UPDATE_ORGANIZATION" admin ""))
      (λ result. pure (audit_answer "/settings?notice=Organization+settings+saved" result))
      (record_account_audit-Safe admin.id "UPDATE_ORGANIZATION" admin "") λ _ w valid. valid

listed-Safe : {A : Type 0} (path notice : String) (r : Result A) → Safe (listed path notice r)
listed-Safe path notice (err e) = λ w valid. valid
listed-Safe path notice (ok _) = λ w valid. valid

-- A change of master data and its answer.
pub change-Safe :
    {A : Type 0} (m : M A) (path notice : String)
    → Quiet m
    → Safe (attempt m >>= listed path notice)
change-Safe m path notice h =
    bind-Safe (attempt m) (listed path notice) (Quiet-Safe m h) (listed-Safe path notice)

store_signature-Quiet :
    (root id : String) (file : Option Upload) → Quiet (store_signature root id file)
unfolding disk update_signature statement
store_signature-Quiet root id none w = (refl, refl)
store_signature-Quiet root id (some file) w = (ground arith, ground arith)

module _ (request : Request) where
  pub change_status-Safe : (admin : User) → Safe (change_status request admin)
  change_status-Safe admin =
      let id = request.path_id in
      let status = request.form_value "status" in
      let notice : String = "/users?notice=Account+status+updated" in
      bind-Safe (attempt (set_status id status)) (recorded id "SET_STATUS" admin status notice)
        (Quiet-Safe (set_status id status) (set_status-Quiet id status))
        (recorded-Safe id "SET_STATUS" admin status notice)

  new_pin-Quiet : Quiet (new_pin request)
  new_pin-Quiet =
      bind-Quiet (hash_pin (request.form_value "pin")) (reset_pin request.path_id)
        (hash_pin-Quiet (request.form_value "pin")) (reset_pin-Quiet request.path_id)

  pub change_pin-Safe : (admin : User) → Safe (change_pin request admin)
  change_pin-Safe admin =
      let id = request.path_id in
      bind-Safe (attempt (new_pin request))
        (recorded id "RESET_PIN" admin "" "/users?notice=PIN+reset")
        (Quiet-Safe (new_pin request) new_pin-Quiet)
        (recorded-Safe id "RESET_PIN" admin "" "/users?notice=PIN+reset")

  pub change_settings-Safe : (admin : User) → Safe (change_settings request admin)
  change_settings-Safe admin =
      let change = update_organization (organization_of_request request) in
      bind-Safe (attempt change) (settings_changed admin)
        (Quiet-Safe change (update_organization-Quiet (organization_of_request request)))
        (settings_changed-Safe admin)

  make_account-Safe :
      (root : String) (admin : User) (role : Role) → Safe (make_account root request admin role)
  unfolding make_account
  make_account-Safe root admin role =
      let pin = request.form_value "pin" in
      let event = λ (id : String). record_account_audit id "CREATE_USER" admin (role_text role) in
      let sign = λ (id : String). store_signature root id (request.form_file "signature") in
      bind-Safe (hash_pin pin)
        (λ hash.
          create_account (account_of_request request role hash) >>= λ id. sign id >> event id)
        (Quiet-Safe (hash_pin pin) (hash_pin-Quiet pin))
        λ hash.
          let account = account_of_request request role hash in
          bind-Safe (create_account account) (λ id. sign id >> event id)
            (Quiet-Safe (create_account account) (create_account-Quiet account))
            λ id.
              bind-Safe (sign id) (λ _. event id)
                (Quiet-Safe (sign id)
                  (store_signature-Quiet root id (request.form_file "signature")))
                λ _. record_account_audit-Safe id "CREATE_USER" admin (role_text role)

  pub create_user_as-Safe :
      (root : String) (admin : User) → Safe (create_user_as root request admin)
  create_user_as-Safe root admin w valid =
      let role = role_of (trim_space (request.form_value "role")) in
      elim (Bool-cases (role_holds role)) [
        | inl e ↦ rw e (
            bind-Safe (attempt (make_account root request admin role))
              (λ result. pure (account_made result)) (make_account-Safe root admin role)
              (λ _ w valid. valid) w valid)
        | inr e ↦ rw e valid
      ]

  import_read-Safe : (items : Result (List InventoryItem)) → Safe (import_read items)
  import_read-Safe (err e) = λ w valid. valid
  import_read-Safe (ok items) =
      change-Safe (import_inventory items) "/inventory" "CSV+validated+and+imported"
        (import_inventory-Quiet items)

  pub import_file-Safe : (file : Option Upload) → Safe (import_file file)
  import_file-Safe none = λ w valid. valid
  import_file-Safe (some file) =
      λ w valid. import_read-Safe (read_items w.lower w.parse_float file.content) w valid
