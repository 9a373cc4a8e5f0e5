-- ===== src/Gatepass/Invariant.antt =====
-- What holds of the tables of gate passes between two calls.
pub mod Shape
pub mod Trail
pub mod Preserved
pub mod Reachable
pub mod Frozen
use mgp.Base.{
  ◌≡◌, ◌≢◌, Bool, String, Option, none, some, List, [], ◌∷◌, ◌==◌, ◌&&◌, text_equality, find,
  if◌then◌else◌, All,
}
use mgp.Base.Keys.{Distinct}
use mgp.Rbac.{Status, PassType}
use mgp.Database.Tables.{PassRow, AuditRow, Db}
use mgp.Gatepass.Domain.{status_text}
use mgp.Gatepass.Rows.{is_pass}

-- Nobody has approved, released or taken back the pass.
abbrev pub Untouched : PassRow → Type 0
Untouched row =
    (row.approved_by ≡ none) × (row.security_officer_id ≡ none) × (row.returned_by ≡ none)

-- Somebody else than the creator approved it.
abbrev pub ApprovedByOther : PassRow → Type 0
ApprovedByOther row =
    (approver : String) × (row.approved_by ≡ some approver) × (approver ≢ row.created_by)

-- The columns that a status goes with.
abbrev pub ShapeAt : Status → PassRow → Type 0
ShapeAt Status.draft row = Untouched row
ShapeAt Status.submitted row = Untouched row
ShapeAt Status.approved row =
    ApprovedByOther row × (row.security_officer_id ≡ none) × (row.returned_by ≡ none)
ShapeAt Status.not_approved row = Untouched row × (row.rejection_reason ≢ "")
ShapeAt Status.passed_out row =
    ApprovedByOther row × (row.security_officer_id ≢ none) × (row.returned_by ≡ none)
ShapeAt Status.returned row =
    ApprovedByOther row
    × (row.security_officer_id ≢ none)
    × (row.returned_by ≢ none)
    × (row.pass_type ≡ PassType.returnable)
ShapeAt (Status.other _) row = ⊥

abbrev pub Shape : PassRow → Type 0
Shape row = ShapeAt row.status row

abbrev pub is_event_of : String → AuditRow → Bool
is_event_of id event = event.entity_type == "gate_pass" && event.entity_id == id

abbrev pub is_creation : String → Bool
is_creation action = if action == "CREATE_DRAFT" then Bool.true else action == "CREATE_REVISION"

-- What an event makes of the status before it; `none` where the two do not fit.
abbrev pub follow : Option (Option String) → AuditRow → Option (Option String)
follow none event = none
follow (some none) event = if is_creation event.action then some event.to_status else none
follow (some (some before)) event = elim event.from_status [
  | none ↦ none
  | some from ↦ if from == before then some event.to_status else none
]

-- The status that the events about a pass lead to, from the oldest, which must create it; each of
-- the others must start from the status that the one before it led to.
unfoldable pub replay : String → List AuditRow → Option (Option String)
replay id [] = some none
replay id (event ∷ older) =
    if is_event_of id event then follow (replay id older) event else replay id older

abbrev text_of_row : Option PassRow → Option String
text_of_row none = none
text_of_row (some row) = some (status_text row.status)

-- The status of a pass as the table has it.
abbrev pub status_of : String → List PassRow → Option String
status_of id rows = text_of_row (find (is_pass id) rows)

pub record Inv (db : Db) : Type 0 where
  pub distinct_ids : Distinct (λ row. row.id) db.passes
  pub distinct_numbers : Distinct (λ row. row.pass_no) db.passes
  pub shapes : All Shape db.passes
  pub trail : (id : String) → replay id db.audit_events ≡ some (status_of id db.passes)
