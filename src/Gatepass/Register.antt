-- ===== src/Gatepass/Register.antt =====
-- internal/gatepass/store.go: the register of passes and its counts.
pub mod Ordered
pub mod Visible
use Prim.Native.String.{◌++◌}
use mgp.Base.{
  ℕ, zero, suc, ◌+◌, Bool, true, false, not, ◌&&◌, ◌||◌, String, Option, none, some, List, [], ◌∷◌,
  ◌==◌, text_equality, leb, ltb, length, select, if◌then◌else◌, ℤ, pos, negsuc, Date,
}
use mgp.Base.Text.{trim_space}
use mgp.Base.Decimal.{long_date}
use mgp.Rbac.{Role, Status, PassType, Actor, role_equality, status_equality, pass_type_equality}
use mgp.Database.{World, M, pure, ◌>>=◌, statement, read_only}
use mgp.Database.Tables.{PassRow, Db}
use mgp.Gatepass.Domain.{status_text}
use mgp.Gatepass.Store.{pass_type_text}

pub record RegisterRow : Type 0 where
  pub id : String
  pub pass_no : String
  pub pass_date : String
  pub consignee : String
  pub pass_type : String
  pub status : String
  pub can_open : Bool
  pub can_submit : Bool
  pub can_approve : Bool
  pub can_pass_out : Bool
  pub can_return : Bool

-- `limit < 1 || limit > 200`.
abbrev pub limit_of : ℤ → ℕ
limit_of (pos n) = if ltb n 1 || ltb 200 n then 50 else n
limit_of (negsuc _) = 50

abbrev pub is_released : Status → Bool
is_released status =
    status == Status.approved || status == Status.passed_out || status == Status.returned

-- The condition on the role.
abbrev pub fits_role : Actor → PassRow → Bool
fits_role actor row = not (actor.role == Role.security) || is_released row.status

-- The condition on the searched text, where there is one.
abbrev pub fits_search : (String → String → Bool) → String → PassRow → Bool
fits_search ilike search row =
    search == ""
    || ilike row.pass_no ("%" ++ (search ++ "%"))
    || ilike row.consignee_name ("%" ++ (search ++ "%"))
    || ilike row.project ("%" ++ (search ++ "%"))

-- A condition that a text is equal to a filter, where there is one.
abbrev pub fits_filter : String → String → Bool
fits_filter filter text = filter == "" || text == filter

abbrev pub fits : (String → String → Bool) → Actor → String → String → String → PassRow → Bool
fits ilike actor search status_filter type_filter row =
    fits_role actor row
    && fits_search ilike search row
    && fits_filter status_filter (status_text row.status)
    && fits_filter type_filter (pass_type_text row.pass_type)

-- `ORDER BY updated_at DESC`; rows of the same second are kept in the order of the table.
pub insert_by_time : PassRow → List PassRow → List PassRow
insert_by_time row [] = row ∷ []
insert_by_time row (other ∷ rows) =
    let rest = insert_by_time row rows in
    if ltb row.updated_at other.updated_at then other ∷ rest else row ∷ other ∷ rows

pub sort_by_time : List PassRow → List PassRow
sort_by_time [] = []
sort_by_time (row ∷ rows) = insert_by_time row (sort_by_time rows)

-- `LIMIT`.
pub first : ℕ → List PassRow → List PassRow
first zero rows = []
first (suc n) [] = []
first (suc n) (row ∷ rows) = row ∷ first n rows

abbrev pub register_row : PassRow → RegisterRow
register_row row = record {
  id = row.id;
  pass_no = row.pass_no;
  pass_date = long_date row.pass_date;
  consignee = row.consignee_name;
  pass_type = pass_type_text row.pass_type;
  status = status_text row.status;
  can_open = true;
  can_submit = false;
  can_approve = false;
  can_pass_out = false;
  can_return = false;
}

pub register_rows : List PassRow → List RegisterRow
register_rows [] = []
register_rows (row ∷ rows) = register_row row ∷ register_rows rows

-- `ListRowsFiltered`.
unfoldable pub list_rows_filtered : Actor → ℤ → String → String → String → M (List RegisterRow)
unfolding register_rows first sort_by_time insert_by_time
list_rows_filtered actor limit search status_filter type_filter = statement (
    read_only λ w. register_rows (
      first (limit_of limit) (
        sort_by_time (
          select
            (fits w.ilike actor (trim_space search) (trim_space status_filter)
              (trim_space type_filter))
            w.db.passes))))

-- `ListRows`.
abbrev pub list_rows : Actor → ℤ → M (List RegisterRow)
list_rows actor limit = list_rows_filtered actor limit "" "" ""

pub record Counts : Type 0 where
  pub visible : ℕ
  pub pending : ℕ
  pub passed_out : ℕ
  pub overdue : ℕ

abbrev has_status : String → RegisterRow → Bool
has_status text row = row.status == text

abbrev is_before : Date → Date → Bool
is_before a b =
    ltb a.year b.year
    || (leb a.year b.year && (ltb a.month b.month || (leb a.month b.month && ltb a.day b.day)))

abbrev is_past : Option Date → Date → Bool
is_past none today = false
is_past (some date) today = is_before date today

abbrev is_overdue : Date → PassRow → Bool
is_overdue today row =
    row.pass_type == PassType.returnable
    && row.status == Status.passed_out
    && is_past row.expected_return_date today

-- `Counts`.
unfoldable pub counts : Actor → M Counts
counts actor = do
  rows ← list_rows actor (pos 200)
  overdue ← statement (read_only λ w. length (select (is_overdue w.today) w.db.passes))
  pure (record {
    visible = length rows;
    pending = length (select (has_status "SUBMITTED") rows);
    passed_out = length (select (has_status "PASSED_OUT") rows);
    overdue = overdue;
  })
