-- ===== src/Tests/Requests.antt =====
-- A login and a workflow request on concrete inputs.
use mgp.Base.{
  ◌≡◌, ◌≢◌, refl, false, ok, some, none, [], ◌∷◌, String, ◌==◌, text_equality, if◌then◌else◌,
}
use mgp.Base.Text.{trim_space, to_lower, split}
use mgp.Base.Base64.{encode, decode}
use mgp.Rbac.{Role, Action}
use mgp.Database.{World, statement}
use mgp.Auth.Pin.{normalize_username, validate_pin, verify_pin}
use mgp.Auth.Users.{find_by_username}
use mgp.Auth.Limiter.{login_allowed, clear_login_failures}
use mgp.Sessions.{sign_cookie, insert_session, create_session}
use mgp.Http.{Request, Response}
use mgp.Http.Router.Steps.{Names, IsStep, Stepped, handle-Stepped}
use mgp.Http.Login.{login}
use mgp.Http.Login.Admits.{SignedIn, login-SignedIn}
use mgp.Http.{Server}
use mgp.Http.Router.{Route, handle, pattern_of}
use mgp.Http.Router.Reads.{OnlyDocuments, handle-OnlyDocuments}
use mgp.Http.Router.Guarded.{Permitted, handle-Permitted}
use mgp.Http.Router.Sound.{Served, Served-Inv}
use mgp.Gatepass.Invariant.{Inv, replay}
use mgp.Tests.Data.{empty, user, world_of, order}

-- Argon2id gives the salt back in these tests.
abbrev keeper_hash : String
keeper_hash = "argon2id$v=19$m=65536,t=2,p=2$AA$AA"

abbrev with_pins : World
with_pins = world_of (record empty {
  users = record (user "ina" Role.inventory) { pin_hash = some keeper_hash } ∷ [];
})

abbrev form : String → String
form key =
    if key == "username"
    then " Ina"
    else if key == "pin"
    then "123456"
    else if key == "csrf_token"
    then "AQ"
    else ""

abbrev request : Request
request = record {
  cookie = some "AA.AA";
  csrf_header = "";
  path_id = "p0";
  is_malformed = false;
  form_value = form;
  query_value = λ key. "";
  form_values = λ key. [];
  form_file = λ key. none;
}

login_succeeds :
    (login "key" request with_pins).0 ≡ ok (Response.redirect_with_cookie "/dashboard" "AA.AA")
unfolding login normalize_username to_lower trim_space login_allowed find_by_username statement
    verify_pin validate_pin split decode clear_login_failures create_session insert_session encode
    sign_cookie
login_succeeds = refl

login-SignedIn_example :
    SignedIn "key"
      (normalize_username with_pins.lower (request.form_value "username"))
      (request.form_value "pin")
      "/dashboard"
      "AA.AA"
      with_pins
      (login "key" request with_pins).1.db
login-SignedIn_example = login-SignedIn "key" "/dashboard" "AA.AA" request with_pins login_succeeds

abbrev signed_in : World
signed_in = (login "key" request with_pins).1

abbrev server : Server
server = record {
  key = "key";
  shows_test_credentials = false;
  document_dir = "documents";
  field_order = order;
}

handle-Stepped_example :
    (path : String) × (action : Action) × (pattern_of Route.submit ≡ ("POST", path))
    × Names path action
    × Stepped server request signed_in action (handle server Route.submit request signed_in).1.db
handle-Stepped_example = handle-Stepped server Route.submit request signed_in IsStep.submit

handle-OnlyDocuments_example :
    OnlyDocuments signed_in.db (handle server Route.pass_pdf request signed_in).1.db
handle-OnlyDocuments_example = handle-OnlyDocuments server Route.pass_pdf request signed_in refl

not_login : Route.create_inventory ≢ Route.login
not_login h = cc

handle-Permitted_example :
    Permitted server Route.create_inventory request signed_in
      (handle server Route.create_inventory request signed_in).1.db
handle-Permitted_example =
    handle-Permitted server Route.create_inventory request signed_in refl not_login

valid_start : Inv with_pins.db
unfolding replay
valid_start = record { distinct_ids = tt; distinct_numbers = tt; shapes = tt; trail = λ id. refl }

signed_in-Served : Served with_pins.db signed_in.db
unfolding handle
signed_in-Served = Served.request_served with_pins server Route.login request Served.idle refl

Served-Inv_example : Inv (handle server Route.create_inventory request signed_in).1.db
Served-Inv_example =
    Served-Inv valid_start
      (Served.request_served signed_in server Route.create_inventory request signed_in-Served refl)
