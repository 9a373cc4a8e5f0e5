-- ===== src/Gatepass/Domain.antt =====
-- internal/gatepass/domain.go: drafts and their validation, and the workflow of a pass as a pure
-- function. `range` over a Go map visits the keys in any order, so the order in which the required
-- fields are checked is an argument.
pub mod Validation
pub mod Workflow
use Prim.Native.String.{◌++◌}
use mgp.Base.{
  Bool, true, false, not, ◌&&◌, ◌||◌, String, Option, none, some, List, [], ◌∷◌, ◌==◌,
  text_equality, if◌then◌else◌, ℤ, is_less_than_one, Float, is_at_most_zero, Date, is_zero, Failure,
  message, Result, ok, err,
}
use mgp.Base.Text.{trim_space, is_blank}
use mgp.Rbac.{Status, PassType, status_equality, pass_type_equality}

pub data Action : Type 0 where
  submit approve reject pass_out return : Action
  other : String → Action

pub record Item : Type 0 where
  pub code : String
  pub name : String
  pub category : String
  pub serial_no : String
  pub batch_no : String
  pub full_part : String
  pub quantity : Float
  pub unit : String
  pub description : String

pub record Draft : Type 0 where
  pub pass_type : PassType
  pub pass_date : Date
  pub expected_return_date : Date
  pub directorate : String
  pub project : String
  pub consignee_name : String
  pub consignee_address : String
  pub reference_no : String
  pub packages : ℤ
  pub purpose : String
  pub authority : String
  pub inventory_no : String
  pub inventory_holder : String
  pub vehicle_no : String
  pub loaded_in_presence_of : String
  pub carrier_name : String
  pub carrier_designation : String
  pub remarks : String
  pub copy_type : String
  pub items : List Item

pub record Pass : Type 0 where
  pub id : String
  pub pass_type : PassType
  pub status : Status
  pub created_by : String
  pub approved_by : String
  pub items : List Item

-- The keys of the map of required fields.
pub data Field : Type 0 where
  directorate project consignee purpose authority : Field

abbrev pub field_name : Field → String
field_name Field.directorate = "directorate"
field_name Field.project = "project"
field_name Field.consignee = "consignee"
field_name Field.purpose = "purpose"
field_name Field.authority = "authority"

abbrev pub field_value : Draft → Field → String
field_value draft Field.directorate = draft.directorate
field_value draft Field.project = draft.project
field_value draft Field.consignee = draft.consignee_name
field_value draft Field.purpose = draft.purpose
field_value draft Field.authority = draft.authority

-- The loop over the required fields.
validate_fields : List Field → Draft → Option Failure
validate_fields [] draft = none
validate_fields (field ∷ fields) draft =
    if is_blank (field_value draft field)
    then some (message (field_name field ++ " is required"))
    else validate_fields fields draft

-- The loop over the items.
validate_items : List Item → Option Failure
validate_items [] = none
validate_items (item ∷ items) =
    if is_blank item.name || is_at_most_zero item.quantity
    then some (message "each item needs a name and positive quantity")
    else validate_items items

abbrev is_empty {ℓ} : {A : Type ℓ} → List A → Bool
is_empty [] = true
is_empty (_ ∷ _) = false

abbrev or_else : Option Failure → Option Failure → Option Failure
or_else none later = later
or_else (some failure) _ = some failure

unfoldable pub validate_draft : List Field → Draft → Option Failure
unfolding validate_fields validate_items mgp.Base.Text.trim_space
validate_draft order draft =
    if not (draft.pass_type == PassType.returnable)
      && not (draft.pass_type == PassType.non_returnable)
    then some (message "pass type is invalid")
    else if is_zero draft.pass_date
    then some (message "pass date is required")
    else if draft.pass_type == PassType.returnable && is_zero draft.expected_return_date
    then some (message "expected return date is required for returnable passes")
    else if is_less_than_one draft.packages
    then some (message "packages must be positive")
    else or_else (validate_fields order draft) (
        if is_empty draft.items
        then some (message "at least one item is required")
        else validate_items draft.items)

abbrev pub status_text : Status → String
status_text Status.draft = "DRAFT"
status_text Status.submitted = "SUBMITTED"
status_text Status.approved = "APPROVED"
status_text Status.not_approved = "NOT_APPROVED"
status_text Status.passed_out = "PASSED_OUT"
status_text Status.returned = "RETURNED"
status_text (Status.other s) = s

-- The text of an unknown action: its name in quotes, as `%q` prints a name with no special
-- characters.
abbrev quoted : String → String
quoted s = "\"" ++ (s ++ "\"")

unfoldable pub transition : Pass → Action → String → Result Pass
transition pass Action.submit actor_id =
    if not (pass.status == Status.draft)
    then err (message ("cannot submit a " ++ (status_text pass.status ++ " pass")))
    else ok (record pass { status = Status.submitted })
transition pass Action.approve actor_id =
    if not (pass.status == Status.submitted)
    then err (message ("cannot approve a " ++ (status_text pass.status ++ " pass")))
    else ok (record pass { status = Status.approved; approved_by = actor_id })
transition pass Action.reject actor_id =
    if not (pass.status == Status.submitted)
    then err (message ("cannot reject a " ++ (status_text pass.status ++ " pass")))
    else ok (record pass { status = Status.not_approved })
transition pass Action.pass_out actor_id =
    if not (pass.status == Status.approved)
    then err (message ("cannot pass out a " ++ (status_text pass.status ++ " pass")))
    else ok (record pass { status = Status.passed_out })
transition pass Action.return actor_id =
    if not (pass.status == Status.passed_out) || not (pass.pass_type == PassType.returnable)
    then err (message "only passed-out returnable passes can be returned")
    else ok (record pass { status = Status.returned })
transition pass (Action.other name) actor_id =
    err (message ("unknown workflow action " ++ quoted name))
