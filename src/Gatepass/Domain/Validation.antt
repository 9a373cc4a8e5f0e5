-- ===== src/Gatepass/Domain/Validation.antt =====
-- `ValidateDraft` against the list of required validations of workflow.md.
use mathlib.Core.List.{Memᴰ}
use mgp.Base.{
  ◌≡◌, ◌≢◌, ◌↔◌, ◌⊎◌, true, false, none, List, [], ◌∷◌, All, arith, is_at_most_zero, zero_date,
  is_less_than_one, refl, Date, is_zero,
}
use mgp.Base.Text.{is_blank}
use mgp.Rbac.{PassType}
use mgp.Gatepass.Domain.{
  Item, Draft, Field, field_value, validate_fields, validate_items, validate_draft,
}

-- Each key of the map is visited.
abbrev pub Covers : List Field → Type 0
Covers order = (field : Field) → Memᴰ field order

pub record IsValidItem (item : Item) : Type 0 where
  pub named : is_blank item.name ≡ false
  pub counted : is_at_most_zero item.quantity ≡ false

pub record IsValidDraft (draft : Draft) : Type 0 where
  pub typed : (draft.pass_type ≡ PassType.returnable) ⊎ (draft.pass_type ≡ PassType.non_returnable)
  pub dated : draft.pass_date ≢ zero_date
  pub expected : draft.pass_type ≡ PassType.returnable → draft.expected_return_date ≢ zero_date
  pub packed : is_less_than_one draft.packages ≡ false
  pub filled :
      (is_blank draft.directorate ≡ false)
      × (is_blank draft.project ≡ false)
      × (is_blank draft.consignee_name ≡ false)
      × (is_blank draft.purpose ≡ false)
      × (is_blank draft.authority ≡ false)
  pub itemised : draft.items ≢ []
  pub valid_items : All IsValidItem draft.items

is_zero_iff : (d : Date) → (is_zero d ≡ true) ↔ (d ≡ zero_date)
is_zero_iff d = ground arith

module _ (draft : Draft) where
  validate_fields_sound :
      (order : List Field) (field : Field)
      → validate_fields order draft ≡ none
      → Memᴰ field order
      → is_blank (field_value draft field) ≡ false
  unfolding validate_fields
  validate_fields_sound [] field e m = elim m [ ]
  validate_fields_sound (f ∷ order) field e (Memᴰ.head same) = rw same (ground arith)
  validate_fields_sound (f ∷ order) field e (Memᴰ.tail later) =
      validate_fields_sound order field (ground arith) later

  validate_fields_complete :
      (order : List Field)
      → ((field : Field) → is_blank (field_value draft field) ≡ false)
      → validate_fields order draft ≡ none
  unfolding validate_fields
  validate_fields_complete [] h = refl
  validate_fields_complete (f ∷ order) h = rw (h f) (validate_fields_complete order h)

validate_items_iff : (items : List Item) → (validate_items items ≡ none) ↔ All IsValidItem items
unfolding validate_items
validate_items_iff [] = (λ _. tt, λ _. refl)
validate_items_iff (item ∷ items) = ground (arith, validate_items_iff items)

IsValidDraft-filled :
    (draft : Draft)
    → IsValidDraft draft
    → (field : Field) → is_blank (field_value draft field) ≡ false
IsValidDraft-filled draft v Field.directorate = v.filled.0
IsValidDraft-filled draft v Field.project = v.filled.1
IsValidDraft-filled draft v Field.consignee = v.filled.2
IsValidDraft-filled draft v Field.purpose = v.filled.3
IsValidDraft-filled draft v Field.authority = v.filled.4

validate_draft_sound :
    (order : List Field) (draft : Draft)
    → Covers order
    → validate_draft order draft ≡ none
    → IsValidDraft draft
unfolding validate_draft
validate_draft_sound order draft covers e = record {
  typed = ground arith;
  dated = ground (arith, is_zero_iff draft.pass_date);
  expected = ground (arith, is_zero_iff draft.expected_return_date);
  packed = ground arith;
  filled =
      let each : (field : Field) → is_blank (field_value draft field) ≡ false =
        λ field. validate_fields_sound draft order field (ground arith) (covers field) in
      (
        each Field.directorate,
        each Field.project,
        each Field.consignee,
        each Field.purpose,
        each Field.authority,
      );
  itemised = ground arith;
  valid_items = (validate_items_iff draft.items).0 (ground arith);
}

validate_draft_complete :
    (order : List Field) (draft : Draft) → IsValidDraft draft → validate_draft order draft ≡ none
unfolding validate_draft
validate_draft_complete order draft v = ground (
  arith,
  is_zero_iff draft.pass_date,
  is_zero_iff draft.expected_return_date,
  validate_fields_complete draft order (IsValidDraft-filled draft v),
  validate_items_iff draft.items,
)

-- Whatever the order in which the required fields are visited, if each is visited, a draft is
-- accepted exactly when it has a known type, a pass date, a return date if it is returnable, a
-- positive number of packages, no blank directorate, project, consignee, purpose or authority, and at
-- least one item, each with a name and a quantity that is not at or below zero.
pub validate_draft_iff :
    (order : List Field) (draft : Draft)
    → Covers order
    → (validate_draft order draft ≡ none) ↔ IsValidDraft draft
validate_draft_iff order draft covers =
    (validate_draft_sound order draft covers, validate_draft_complete order draft)
