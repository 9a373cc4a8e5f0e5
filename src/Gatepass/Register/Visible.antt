-- ===== src/Gatepass/Register/Visible.antt =====
-- What the register shows.
use mathlib.Core.List.{Memᴰ}
use mgp.Base.{
  ℕ, ◌≤◌, ◌<◌, ◌≡◌, ◌≢◌, ◌↔◌, ◌⊎◌, refl, Bool, Bool-cases, true, inl, inr, String, List,
  text_equality, eq_iff, All, length, select, none, ok, arith, ℤ, pos, negsuc,
}
use Prim.Native.String.{◌++◌}
use mgp.Base.Text.{trim_space}
use mgp.Rbac.{Role, Status, Actor}
use mgp.Database.{World, statement}
use mgp.Database.Tables.{PassRow}
use mgp.Gatepass.Domain.{status_text}
use mgp.Gatepass.Store.{pass_type_text}
use mgp.Gatepass.Register.Ordered.{
  Falling, All-of-Mem, Mem-sort, sort-Mem, Mem-select, select-Mem, first-Mem, Mem-first,
  length-first, sort-Falling, first-Falling,
}
use mgp.Gatepass.Register.{fits, sort_by_time, first, limit_of, register_rows, list_rows_filtered}

-- The rows that the register is to show: to a security officer only those of passes in operation;
-- with a search, those whose number, consignee or project has it in it; and with a filter, those
-- with that status or that type.
abbrev pub IsWanted : (String → String → Bool) → Actor → String → String → String → PassRow → Type 0
IsWanted ilike actor search status_filter type_filter row =
    ((actor.role ≢ Role.security)
      ⊎ (row.status ≡ Status.approved)
      ⊎ (row.status ≡ Status.passed_out)
      ⊎ (row.status ≡ Status.returned))
    × ((search ≡ "")
        ⊎ (ilike row.pass_no ("%" ++ (search ++ "%")) ≡ true)
        ⊎ (ilike row.consignee_name ("%" ++ (search ++ "%")) ≡ true)
        ⊎ (ilike row.project ("%" ++ (search ++ "%")) ≡ true))
    × ((status_filter ≡ "") ⊎ (status_text row.status ≡ status_filter))
    × ((type_filter ≡ "") ⊎ (pass_type_text row.pass_type ≡ type_filter))

fits_iff :
    (ilike : String → String → Bool) (actor : Actor) (search status_filter type_filter : String)
    (row : PassRow)
    → (fits ilike actor search status_filter type_filter row ≡ true)
      ↔ IsWanted ilike actor search status_filter type_filter row
fits_iff ilike actor search status_filter type_filter row = ground (
  arith,
  eq_iff search "",
  eq_iff status_filter "",
  eq_iff type_filter "",
  eq_iff (status_text row.status) status_filter,
  eq_iff (pass_type_text row.pass_type) type_filter,
)

-- The number of rows asked for, if it is from 1 to 200, and else 50.
abbrev pub IsLimit : ℤ → ℕ → Type 0
IsLimit (pos n) limit = ((1 ≤ n) × (n ≤ 200) × (limit ≡ n)) ⊎ (((n < 1) ⊎ (200 < n)) × (limit ≡ 50))
IsLimit (negsuc _) limit = limit ≡ 50

limit_of-IsLimit : (limit : ℤ) → IsLimit limit (limit_of limit)
limit_of-IsLimit (pos n) = ground arith
limit_of-IsLimit (negsuc n) = refl

-- What the register gives, as rows of the table, and which these are.
abbrev pub Lists : Actor → ℤ → String → String → String → World → Type 0
Lists actor asked search status_filter type_filter w =
    (shown : List PassRow) × (limit : ℕ) × IsLimit asked limit
    × ((list_rows_filtered actor asked search status_filter type_filter w).0
        ≡ ok (register_rows shown))
    × (length shown ≤ limit)
    × Falling shown
    × All
        (λ row.
          Memᴰ row w.db.passes
          × IsWanted w.ilike actor (trim_space search) (trim_space status_filter)
              (trim_space type_filter) row)
        shown
    × All
        (λ row.
          Memᴰ row shown
          ⊎ (length shown ≡ limit)
          ⊎ ¬ (
              IsWanted w.ilike actor (trim_space search) (trim_space status_filter)
                (trim_space type_filter) row))
        w.db.passes

-- Where the driver refuses no call, the register is given, whatever the limit and the filters. It
-- stands for rows of the table that are wanted under the trimmed search and filters, in the order of
-- their last changes, the latest first. They are at most as many as the limit, which is the number
-- asked for if it is from 1 to 200, and else 50; and where they are fewer, no wanted row of the
-- table is left out.
pub list_rows_filtered-Wanted :
    (actor : Actor) (asked : ℤ) (search status_filter type_filter : String) (w : World)
    → ((n : ℕ) → w.fault n ≡ none)
    → Lists actor asked search status_filter type_filter w
unfolding list_rows_filtered statement
list_rows_filtered-Wanted actor asked search status_filter type_filter w calm =
    let p =
      fits w.ilike actor (trim_space search) (trim_space status_filter) (trim_space type_filter) in
    let wanted =
      fits_iff w.ilike actor (trim_space search) (trim_space status_filter)
        (trim_space type_filter) in
    let limit = limit_of asked in
    let sorted = sort_by_time (select p w.db.passes) in
    (
      first limit sorted,
      limit,
      limit_of-IsLimit asked,
      rw (calm w.calls) refl,
      length-first limit sorted,
      first-Falling limit sorted (sort-Falling (select p w.db.passes)),
      All-of-Mem _ (first limit sorted) (λ row m.
          let (there, h) =
            select-Mem p row w.db.passes
              (sort-Mem row (select p w.db.passes) (first-Mem limit row sorted m)) in
          (there, (wanted row).0 h)),
      All-of-Mem _ w.db.passes λ row m. elim (Bool-cases (p row)) [
        | inl h ↦
            let listed = Mem-sort row (select p w.db.passes) (Mem-select p row w.db.passes m h) in
            elim (Mem-first limit row sorted listed) [
              | inl there ↦ inl there
              | inr full ↦ inr (inl full)
            ]
        | inr h ↦ inr (inr λ want. let granted = (wanted row).1 want in cc)
      ],
    )
