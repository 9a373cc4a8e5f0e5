-- ===== src/Gatepass/Store.antt =====
-- internal/gatepass/store.go: the operations that change gate passes, each a check of its input
-- and one transaction. The errors of `fmt.Errorf` and `errors.New` keep their texts.
pub mod Effects
pub mod Inserts
pub mod Operations
pub mod Refines
pub mod Succeeds
use Prim.Native.String.{◌++◌}
use mgp.Base.{
  ℕ, ◌+◌, Date, Bool, true, false, not, ◌&&◌, ◌||◌, String, Option, none, some, List, [], ◌∷◌, ◌==◌,
  text_equality, any, find, if◌then◌else◌, Result, ok, err, Failure, message, driver, or_empty,
}
use mgp.Base.Text.{trim_space, is_blank}
use mgp.Base.Decimal.{decimal, iso_date}
use mgp.Rbac.{Role, Status, PassType, Action, Actor, PassContext, role_equality, allows}
use mgp.Database.{
  World, M, pure, throw, ◌>>=◌, ◌>>◌, require, check, asks, statement, read_row, change,
  transaction,
}
use mgp.Database.Tables.{PassRow, Db}
use mgp.Gatepass.Domain.{Item, Draft, Field, status_text, validate_draft}
use mgp.Gatepass.Numbering.{next_pass_number}
use mgp.Gatepass.Rows.{
  columns_of, is_pass, has_number, is_user, insert_pass, insert_item, append_audit, change_pass,
  edit_columns, delete_items,
}

abbrev pub pass_type_text : PassType → String
pass_type_text PassType.returnable = "RETURNABLE"
pass_type_text PassType.non_returnable = "NON_RETURNABLE"
pass_type_text (PassType.other s) = s

abbrev pub action_text : Action → String
action_text Action.create_draft = "CREATE_DRAFT"
action_text Action.edit_draft = "EDIT_DRAFT"
action_text Action.submit = "SUBMIT"
action_text Action.approve = "APPROVE"
action_text Action.reject = "REJECT"
action_text Action.pass_out = "PASS_OUT"
action_text Action.return = "RETURN"
action_text Action.revision = "CREATE_REVISION"
action_text (Action.other s) = s

-- The row as the policy sees it: NULL is the empty text.
abbrev pub context : PassRow → PassContext
context row = record {
  id = row.id;
  status = row.status;
  pass_type = row.pass_type;
  created_by = row.created_by;
  approved_by = or_empty row.approved_by;
  security_officer_id = or_empty row.security_officer_id;
  returned_by = or_empty row.returned_by;
}

-- What `CreateRevision` tells the policy.
abbrev pub revision_context : PassRow → PassContext
revision_context row = record {
  id = row.id;
  status = row.status;
  pass_type = PassType.other "";
  created_by = row.created_by;
  approved_by = "";
  security_officer_id = "";
  returned_by = "";
}

-- The loop over the items.
unfoldable pub insert_items : String → List Item → M (Unit {0})
insert_items pass_id [] = pure tt
insert_items pass_id (item ∷ items) = insert_item pass_id item >> insert_items pass_id items

-- The inserts that a new draft and a revision share.
unfoldable pub insert_draft : Option String → ℕ → Actor → Draft → String → String → M String
insert_draft revision_of revision_no actor draft action from = do
  pass_no ←
      statement λ w. next_pass_number draft.directorate draft.project draft.pass_date.year w.db
  id ←
      statement
        λ w. insert_pass pass_no revision_of revision_no (columns_of w.upper draft) actor.id w
  insert_items id draft.items
  append_audit id action from (status_text Status.draft) actor "" pass_no
  pure id

unfoldable pub create_draft : List Field → Actor → Draft → M String
create_draft order actor draft = do
  check (validate_draft order draft)
  require (actor.role == Role.admin || actor.role == Role.inventory) "role cannot create drafts"
  transaction (insert_draft none 0 actor draft "CREATE_DRAFT" "")

-- `CreateRevision` from the policy on, with the row that was read.
unfoldable pub revise_row : PassRow → Actor → Draft → M String
revise_row original actor draft = do
  require (allows actor Action.revision (revision_context original)) "actor cannot revise this pass"
  insert_draft (some original.id) (original.revision_no + 1) actor draft "CREATE_REVISION"
      "NOT_APPROVED"

unfoldable pub create_revision : List Field → Actor → String → Draft → M String
create_revision order actor original_pass_no draft = do
  check (validate_draft order draft)
  transaction do
    original ← statement (read_row λ w. find (has_number original_pass_no) w.db.passes)
    revise_row original actor draft

-- `UpdateDraft` from the policy on, with the row that was read.
unfoldable pub edit_row : PassRow → Actor → Draft → M (Unit {0})
edit_row row actor draft = do
  require (allows actor Action.edit_draft (context row)) "actor cannot edit this pass"
  statement λ w. edit_columns row.id (columns_of w.upper draft) w
  statement (change λ w. delete_items row.id w.db)
  insert_items row.id draft.items
  append_audit row.id "EDIT_DRAFT" (status_text row.status) (status_text row.status) actor ""
      row.pass_no

unfoldable pub update_draft : List Field → Actor → String → Draft → M (Unit {0})
update_draft order actor pass_id draft = do
  check (validate_draft order draft)
  transaction do
    row ← statement (read_row λ w. find (is_pass pass_id) w.db.passes)
    edit_row row actor draft

-- The status that a workflow action leads to; `none` is the error of an action that is none.
abbrev pub next_status : Action → Option Status
next_status Action.submit = some Status.submitted
next_status Action.approve = some Status.approved
next_status Action.reject = some Status.not_approved
next_status Action.pass_out = some Status.passed_out
next_status Action.return = some Status.returned
next_status _ = none

abbrev or_throw : Option Status → Action → M Status
or_throw none action = throw (message ("unsupported transition action " ++ action_text action))
or_throw (some next) action = pure next

-- `concat(pass_no,'|',pass_type,'|',pass_date::text,'|',directorate,'|',project,'|',consignee_name)`.
unfoldable pub hashed_text : PassRow → String
hashed_text row =
    row.pass_no
    ++ ("|"
        ++ (pass_type_text row.pass_type
            ++ ("|"
                ++ (iso_date row.pass_date
                    ++ ("|"
                        ++ (row.directorate
                            ++ ("|" ++ (row.project ++ ("|" ++ row.consignee_name)))))))))

-- `fmt.Sprintf("APR-%s-%d", passNo, time.Now().Unix())`.
unfoldable pub approval_reference : String → ℕ → String
approval_reference pass_no now = "APR-" ++ (pass_no ++ ("-" ++ decimal now))

-- What the database and the clock give to the `UPDATE`.
pub record Stamp : Type 0 where
  pub now : ℕ
  pub today : Date
  pub digest : String → String

abbrev pub stamp : World → Stamp
stamp w = record { now = w.now; today = w.today; digest = w.digest }

-- The columns that the second `switch` adds to `status=$1, updated_at=now()`.
unfoldable pub set_columns : Action → Actor → String → Stamp → PassRow → PassRow
set_columns Action.submit actor reason at row = record row {
  submitted_at = some at.now;
  rejection_reason = "";
}
set_columns Action.approve actor reason at row = record row {
  approved_by = some actor.id;
  approved_at = some at.now;
  approval_reference = approval_reference row.pass_no at.now;
  record_hash = at.digest (hashed_text row);
}
set_columns Action.reject actor reason at row = record row { rejection_reason = trim_space reason }
set_columns Action.pass_out actor reason at row = record row {
  security_officer_id = some actor.id;
  security_control_no = trim_space reason;
  passed_out_at = some at.now;
}
set_columns Action.return actor reason at row = record row {
  returned_by = some actor.id;
  actual_return_date = some at.today;
  returned_at = some at.now;
}
set_columns _ actor reason at row = row

-- The whole `UPDATE`.
unfoldable pub advance : Action → Status → Actor → String → Stamp → PassRow → PassRow
unfolding set_columns
advance action next actor reason at row =
    set_columns action actor reason at (record row { status = next; updated_at = at.now })

-- `approved_by`, `security_officer_id` and `returned_by` reference a user.
abbrev names_actor : Action → Bool
names_actor Action.approve = true
names_actor Action.pass_out = true
names_actor Action.return = true
names_actor _ = false

unfoldable pub update_status :
    String → Action → Status → Actor → String → World → Result (Unit {0} × Db)
update_status id action next actor reason w =
    if not (names_actor action) || any (is_user actor.id) w.db.users
    then ok (tt, change_pass id (advance action next actor reason (stamp w)) w.db)
    else err (driver "gate_passes: users")

abbrev pub is_reject : Action → Bool
is_reject Action.reject = true
is_reject _ = false

-- From the `UPDATE` on.
unfoldable pub write_transition : PassRow → Action → Status → Actor → String → M (Unit {0})
write_transition row action next actor reason = do
  statement λ w. update_status row.id action next actor reason w
  append_audit row.id (action_text action) (status_text row.status) (status_text next) actor reason
      row.pass_no

-- From the policy on, with the row that was read.
unfoldable pub transition_row : PassRow → Actor → Action → String → M (Unit {0})
transition_row row actor action reason = do
  require (allows actor action (context row)) "actor is not allowed to perform this action"
  require (not (is_reject action && is_blank reason)) "rejection reason is required"
  next ← or_throw (next_status action) action
  write_transition row action next actor reason

-- `transition`, on the row that `WHERE pass_no=$1` or `WHERE id=$1` picks.
unfoldable pub transition_where : (PassRow → Bool) → Actor → Action → String → M (Unit {0})
transition_where picks actor action reason = transaction do
  row ← statement (read_row λ w. find picks w.db.passes)
  transition_row row actor action reason

-- `Transition`.
abbrev pub transition : Actor → String → Action → String → M (Unit {0})
transition actor pass_no = transition_where (has_number pass_no) actor

-- `TransitionByID`.
abbrev pub transition_by_id : Actor → String → Action → String → M (Unit {0})
transition_by_id actor id = transition_where (is_pass id) actor
