-- ===== src/Http/Passes/Rejected.antt =====
-- internal/http/server.go: what a new pass whose rows do not fit is answered.
use mgp.Base.{◌≡◌, refl, false, some, List, text_equality, ℤ, Date, message, ok, err}
use mgp.Base.Calendar.{parse_date, atoi}
use mgp.Database.{World}
use mgp.Auth.Users.{User}
use mgp.Gatepass.Domain.{Field}
use mgp.View.{PageData, Page}
use mgp.Http.{Request, Response}
use mgp.Http.Forms.{
  expected_date, draft_from_form, keys, row_count, all_aligned, form_fields, with_error,
  pass_data_from_request,
}
use mgp.Http.Passes.{save_form}

module _ (request : Request) (page : PageData) (date expected : Date) (packages : ℤ) where
  no_rows-err :
      (parse_float : _)
      → parse_date (request.form_value "pass_date") ≡ some date
      → atoi (request.form_value "packages") ≡ some packages
      → expected_date (request.form_value "expected_return_date") ≡ ok expected
      → draft_from_form parse_float
          (with_error (form_fields request page) "all material rows must have aligned fields")
        ≡ err (message "at least one item row is required")
  unfolding draft_from_form
  no_rows-err parse_float dated counted due = rw (dated, counted, due) refl

  -- A form whose columns of material have different lengths, but whose dates and number of packages
  -- can be read, gives no pass: no table changes, and the page that comes back says that a row is
  -- missing and has lost all the rows.
  pub save_form-misaligned :
      (order : List Field) (user : User) (w : World)
      → all_aligned request (row_count request) keys ≡ false
      → parse_date (request.form_value "pass_date") ≡ some date
      → atoi (request.form_value "packages") ≡ some packages
      → expected_date (request.form_value "expected_return_date") ≡ ok expected
      → save_form order request user (pass_data_from_request request page) w ≡ (
        ok (
            Response.page (
              Page.new_gate_pass
                (with_error (form_fields request page) "at least one item row is required"))),
        w,
      )
  unfolding pass_data_from_request
  save_form-misaligned order user w apart dated counted due =
      rw (apart, no_rows-err w.parse_float dated counted due) refl
