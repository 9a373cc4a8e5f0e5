-- ===== src/Http/Forms/Drafts.antt =====
-- internal/http/server.go: which forms give a draft, and what becomes of rows that do not fit.
use mgp.Base.{
  ℕ, ◌+◌, ◌≡◌, refl, ◌↔◌, true, false, Bool-cases, ◌⊎◌, inl, inr, String, Option, none, some, List,
  [], ◌∷◌, All, if◌then◌else◌, text_equality, ℤ, Float, is_at_most_zero, Date, zero_date, message,
  Result, ok, err,
}
use mgp.Base.Text.{trim_space, is_blank}
use mgp.Base.Calendar.{parse_date, atoi}
use mgp.Gatepass.Domain.{Item, Draft}
use mgp.View.{PassFormItem, NewPassData}
use mgp.Http.Forms.{
  ◌>>=◌, or_message, has_items, expected_date, positive_quantity, item_of_form, items_from_form,
  draft_of, draft_from_form,
}

pub bind-ok :
    {A B : Type 0} (r : Result A) (f : A → Result B) {b : B}
    → (r >>= f) ≡ ok b
    → (a : A) × (r ≡ ok a) × (f a ≡ ok b)
bind-ok (ok a) f h = (a, refl, h)
bind-ok (err e) f h = cc

or_message-ok :
    {A : Type 0} (text : String) (o : Option A) {a : A} → or_message text o ≡ ok a → o ≡ some a
or_message-ok text none h = cc
or_message-ok text (some a) h = cc

-- A row whose quantity is a positive number.
abbrev pub IsCounted : (String → Option Float) → PassFormItem → Type 0
IsCounted parse_float item =
    (quantity : Float) × (parse_float (trim_space item.quantity) ≡ some quantity)
    × (is_at_most_zero quantity ≡ false)

-- The dates are dates, the number of packages is one, and there are rows, all with positive
-- quantities.
abbrev pub IsReadable : (String → Option Float) → NewPassData → Type 0
IsReadable parse_float form =
    ((date : Date) × (parse_date form.pass_date ≡ some date))
    × ((packages : ℤ) × (atoi form.packages ≡ some packages))
    × ((is_blank form.expected_return_date ≡ true)
        ⊎ ((date : Date) × (parse_date form.expected_return_date ≡ some date)))
    × (has_items form.items ≡ true)
    × All (IsCounted parse_float) form.items

module _ (parse_float : String → Option Float) where
  positive_quantity-ok :
      (row : ℕ) (parsed : Option Float) {quantity : Float}
      → positive_quantity row parsed ≡ ok quantity
      → (q : Float) × (parsed ≡ some q) × (is_at_most_zero q ≡ false)
  positive_quantity-ok row none h = cc
  positive_quantity-ok row (some q) h = elim (Bool-cases (is_at_most_zero q)) [
    | inl e ↦ let k = rw e at h in cc
    | inr e ↦ (q, refl, e)
  ]

  items-IsCounted :
      (row : ℕ) (forms : List PassFormItem) {items : List Item}
      → items_from_form parse_float row forms ≡ ok items
      → All (IsCounted parse_float) forms
  unfolding items_from_form
  items-IsCounted row [] h = tt
  items-IsCounted row (form ∷ forms) h =
      let (q, counted, rest) =
        bind-ok (positive_quantity row (parse_float (trim_space form.quantity))) _ h in
      let (items, read, _) = bind-ok (items_from_form parse_float (row + 1) forms) _ rest in
      (positive_quantity-ok row _ counted, items-IsCounted (row + 1) forms read)

  IsCounted-items :
      (row : ℕ) (forms : List PassFormItem)
      → All (IsCounted parse_float) forms
      → (items : List Item) × (items_from_form parse_float row forms ≡ ok items)
  unfolding items_from_form
  IsCounted-items row [] h = ([], refl)
  IsCounted-items row (form ∷ forms) ((q, parsed, counted), hs) =
      let (items, read) = IsCounted-items (row + 1) forms hs in
      (item_of_form form q ∷ items, rw (parsed, counted, read) refl)

  expected_date-ok :
      (s : String) {date : Date}
      → expected_date s ≡ ok date
      → (is_blank s ≡ true) ⊎ ((date : Date) × (parse_date s ≡ some date))
  expected_date-ok s {date} h = elim (Bool-cases (is_blank s)) [
    | inl e ↦ inl e
    | inr e ↦ inr (date, or_message-ok _ (parse_date s) (rw e at h))
  ]

  ok-expected_date :
      (s : String)
      → (is_blank s ≡ true) ⊎ ((date : Date) × (parse_date s ≡ some date))
      → (date : Date) × (expected_date s ≡ ok date)
  ok-expected_date s h = elim (Bool-cases (is_blank s)) [
    | inl e ↦ (zero_date, rw e refl)
    | inr e ↦ elim h [ inl blank ↦ cc | inr (date, parsed) ↦ (date, rw (e, parsed) refl) ]
  ]

  listed-ok :
      (text : String) (forms : List PassFormItem) {done : Unit {0}}
      → (if has_items forms then ok tt else err (message text)) ≡ ok done
      → has_items forms ≡ true
  listed-ok text [] h = cc
  listed-ok text (_ ∷ _) h = refl

  draft-IsReadable :
      (form : NewPassData) {draft : Draft}
      → draft_from_form parse_float form ≡ ok draft
      → IsReadable parse_float form
  unfolding draft_from_form
  draft-IsReadable form h =
      let (date, dated, h1) =
        bind-ok (or_message "pass date must be valid" (parse_date form.pass_date)) _ h in
      let (packages, counted, h2) =
        bind-ok (or_message "packages must be a whole number" (atoi form.packages)) _ h1 in
      let (expected, due, h3) = bind-ok (expected_date form.expected_return_date) _ h2 in
      let (_, listed, h4) =
        bind-ok
          (if has_items form.items
            then ok tt
            else err (message "at least one item row is required"))
          _ h3 in
      let (items, read, _) = bind-ok (items_from_form parse_float 1 form.items) _ h4 in
      (
        (date, or_message-ok _ _ dated),
        (packages, or_message-ok _ _ counted),
        expected_date-ok form.expected_return_date due,
        listed-ok "at least one item row is required" form.items listed,
        items-IsCounted 1 form.items read,
      )

  IsReadable-draft :
      (form : NewPassData)
      → IsReadable parse_float form
      → (draft : Draft) × (draft_from_form parse_float form ≡ ok draft)
  unfolding draft_from_form
  IsReadable-draft form ((date, dated), (packages, counted), due, listed, rows) =
      let (expected, e) = ok-expected_date form.expected_return_date due in
      let (items, read) = IsCounted-items 1 form.items rows in
      (draft_of form date packages expected items, rw (dated, counted, e, listed, read) refl)

  -- A form gives a draft exactly if its date of the pass is a date, its number of packages an
  -- integer, the expected date of return blank or a date, and it has rows, each with a quantity that
  -- is a number and not at most zero.
  pub draft_from_form_iff :
      (form : NewPassData)
      → ((draft : Draft) × (draft_from_form parse_float form ≡ ok draft))
        ↔ IsReadable parse_float form
  draft_from_form_iff form = (λ (draft, h). draft-IsReadable form h, IsReadable-draft form)
