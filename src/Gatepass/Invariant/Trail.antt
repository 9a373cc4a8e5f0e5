-- ===== src/Gatepass/Invariant/Trail.antt =====
-- internal/gatepass/store.go: the audit log against the statuses in the table, event by event.
use mgp.Base.{
  ◌≡◌, refl, sym, ap, ◌∙◌, subst, true, false, Bool-cases, inl, inr, String, none, some, List, ◌∷◌,
  ◌==◌, text_equality, any, find, update, eq_iff, eq_refl,
}
use mgp.Base.Keys.{find-none_of_any, find-update_self, find-update_other}
use mgp.Rbac.{Status}
use mgp.Database.Tables.{PassRow, AuditRow}
use mgp.Gatepass.Domain.{status_text}
use mgp.Gatepass.Rows.{is_pass, nullif_empty}
use mgp.Gatepass.Invariant.{Shape, ShapeAt, is_creation, replay, text_of_row, status_of}

module _ (rows : List PassRow) (events : List AuditRow) (event : AuditRow)
    (type : event.entity_type ≡ "gate_pass") where
  -- An event that starts from the status of a row and leads to its new status.
  pub replay-update :
      (row : PassRow) (f : PassRow → PassRow)
      → ((id : String) → replay id events ≡ some (status_of id rows))
      → event.entity_id ≡ row.id
      → event.from_status ≡ some (status_text row.status)
      → event.to_status ≡ some (status_text (f row).status)
      → find (is_pass row.id) rows ≡ some row
      → (f row).id ≡ row.id
      → (id : String)
      → replay id (event ∷ events) ≡ some (status_of id (update (is_pass row.id) f rows))
  unfolding replay
  replay-update row f trail about from to found keeps id = elim (Bool-cases (row.id == id)) [
    | inl same ↦
        let here : row.id ≡ id = (eq_iff _ _).0 same in
        let old : replay id events ≡ some (some (status_text row.status)) =
          trail id
          ∙ ap (λ k. some (text_of_row (find (is_pass k) rows))) (sym here)
          ∙ rw found refl in
        let new : find (is_pass id) (update (is_pass row.id) f rows) ≡ some (f row) =
          subst (λ k. find (is_pass k) (update (is_pass row.id) f rows) ≡ some (f row)) here
            (find-update_self (is_pass row.id) f rows row found (rw keeps (eq_refl row.id))) in
        rw (type, about, same, old, from, eq_refl (status_text row.status), new) (ap some to)
    | inr apart ↦
        let old =
          find-update_other (is_pass row.id) (is_pass id) f rows row found apart (rw keeps apart) in
        rw (type, about, apart, old) (trail id)
  ]

  -- An event that creates a row.
  pub replay-insert :
      (row : PassRow)
      → ((id : String) → replay id events ≡ some (status_of id rows))
      → event.entity_id ≡ row.id
      → is_creation event.action ≡ true
      → event.to_status ≡ some (status_text row.status)
      → any (is_pass row.id) rows ≡ false
      → (id : String) → replay id (event ∷ events) ≡ some (status_of id (row ∷ rows))
  unfolding replay
  replay-insert row trail about creates to fresh id = elim (Bool-cases (row.id == id)) [
    | inl same ↦
        let here : row.id ≡ id = (eq_iff _ _).0 same in
        let old : replay id events ≡ some none =
          trail id
          ∙ ap (λ k. some (text_of_row (find (is_pass k) rows))) (sym here)
          ∙ rw (find-none_of_any (is_pass row.id) rows fresh) refl in
        rw (type, about, same, old, creates) (ap some to)
    | inr apart ↦ rw (type, about, apart) (trail id)
  ]

known_text :
    (status : Status) (row : PassRow)
    → ShapeAt status row
    → nullif_empty (status_text status) ≡ some (status_text status)
known_text Status.draft row s = refl
known_text Status.submitted row s = refl
known_text Status.approved row s = refl
known_text Status.not_approved row s = refl
known_text Status.passed_out row s = refl
known_text Status.returned row s = refl
known_text (Status.other _) row s = elim s [ ]

-- A known status is no empty text, so `NULLIF` keeps it.
pub nullif-status_text :
    (row : PassRow)
    → Shape row
    → nullif_empty (status_text row.status) ≡ some (status_text row.status)
nullif-status_text row s = known_text row.status row s
