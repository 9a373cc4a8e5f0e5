-- ===== src/Gatepass/Register/Ordered.antt =====
-- internal/gatepass/store.go: the rows that an ordered and limited query gives.
use mathlib.Core.List.{Memᴰ}
use mathlib.Core.List.Memᴰ
use mgp.Base.{
  ℕ, zero, suc, ◌≤◌, ◌≡◌, ◌⊎◌, refl, sym, ap, Bool, Bool-cases, true, inl, inr, List, [], ◌∷◌,
  text_equality, All, length, select, ltb, arith,
}
use mgp.Database.Tables.{PassRow}
use mgp.Gatepass.Register.{insert_by_time, sort_by_time, first}

-- No row was changed before the next one.
abbrev pub Falling : List PassRow → Type 0
Falling [] = Unit
Falling (row ∷ rows) = All (λ other. other.updated_at ≤ row.updated_at) rows × Falling rows

pub All-of-Mem :
    (P : PassRow → Type 0) (rows : List PassRow)
    → ((row : PassRow) → Memᴰ row rows → P row)
    → All P rows
All-of-Mem P [] h = tt
All-of-Mem P (row ∷ rows) h =
    (h row (Memᴰ.head refl), All-of-Mem P rows λ other m. h other (Memᴰ.tail m))

Mem-insert_head : (row : PassRow) (rows : List PassRow) → Memᴰ row (insert_by_time row rows)
unfolding insert_by_time
Mem-insert_head row [] = Memᴰ.head refl
Mem-insert_head row (other ∷ rows) = elim (Bool-cases (ltb row.updated_at other.updated_at)) [
  | inl e ↦ rw e (Memᴰ.tail (Mem-insert_head row rows))
  | inr e ↦ rw e (Memᴰ.head refl)
]

Mem-insert_tail :
    (x row : PassRow) (rows : List PassRow) → Memᴰ x rows → Memᴰ x (insert_by_time row rows)
unfolding insert_by_time
Mem-insert_tail x row [] m = elim m [ ]
Mem-insert_tail x row (other ∷ rows) m = elim (Bool-cases (ltb row.updated_at other.updated_at)) [
  | inl e ↦ rw e (elim (Memᴰ.cases_cons m) [
    | inl same ↦ Memᴰ.head same
    | inr later ↦ Memᴰ.tail (Mem-insert_tail x row rows later)
  ])
  | inr e ↦ rw e (Memᴰ.tail m)
]

insert-Mem :
    (x row : PassRow) (rows : List PassRow)
    → Memᴰ x (insert_by_time row rows)
    → (x ≡ row) ⊎ Memᴰ x rows
unfolding insert_by_time
insert-Mem x row [] m = Memᴰ.cases_cons m
insert-Mem x row (other ∷ rows) m = elim (Bool-cases (ltb row.updated_at other.updated_at)) [
  | inl e ↦ elim (Memᴰ.cases_cons (rw e at m)) [
    | inl same ↦ inr (Memᴰ.head same)
    | inr later ↦ elim (insert-Mem x row rows later) [
      | inl same ↦ inl same
      | inr there ↦ inr (Memᴰ.tail there)
    ]
  ]
  | inr e ↦ Memᴰ.cases_cons (rw e at m)
]

pub Mem-sort : (x : PassRow) (rows : List PassRow) → Memᴰ x rows → Memᴰ x (sort_by_time rows)
unfolding sort_by_time
Mem-sort x [] m = elim m [ ]
Mem-sort x (row ∷ rows) m = elim (Memᴰ.cases_cons m) [
  | inl same ↦ Memᴰ.cast same (Mem-insert_head row (sort_by_time rows))
  | inr later ↦ Mem-insert_tail x row (sort_by_time rows) (Mem-sort x rows later)
]

pub sort-Mem : (x : PassRow) (rows : List PassRow) → Memᴰ x (sort_by_time rows) → Memᴰ x rows
unfolding sort_by_time
sort-Mem x [] m = m
sort-Mem x (row ∷ rows) m = elim (insert-Mem x row (sort_by_time rows) m) [
  | inl same ↦ Memᴰ.head same
  | inr later ↦ Memᴰ.tail (sort-Mem x rows later)
]

pub Mem-select :
    (p : PassRow → Bool) (x : PassRow) (rows : List PassRow)
    → Memᴰ x rows
    → p x ≡ true
    → Memᴰ x (select p rows)
Mem-select p x [] m h = elim m [ ]
Mem-select p x (row ∷ rows) m h = elim (Memᴰ.cases_cons m) [
  | inl same ↦ let e : p row ≡ true = rw (sym same) h in rw e (Memᴰ.head same)
  | inr later ↦
      let there = Mem-select p x rows later h in
      elim (Bool-cases (p row)) [ inl e ↦ rw e (Memᴰ.tail there) | inr e ↦ rw e there ]
]

pub select-Mem :
    (p : PassRow → Bool) (x : PassRow) (rows : List PassRow)
    → Memᴰ x (select p rows)
    → Memᴰ x rows × (p x ≡ true)
select-Mem p x [] m = absurd (Memᴰ.not-nil m)
select-Mem p x (row ∷ rows) m = elim (Bool-cases (p row)) [
  | inl e ↦ elim (Memᴰ.cases_cons (rw e at m)) [
    | inl same ↦ (Memᴰ.head same, rw same e)
    | inr later ↦ let (there, h) = select-Mem p x rows later in (Memᴰ.tail there, h)
  ]
  | inr e ↦ let (there, h) = select-Mem p x rows (rw e at m) in (Memᴰ.tail there, h)
]

pub first-Mem : (n : ℕ) (x : PassRow) (rows : List PassRow) → Memᴰ x (first n rows) → Memᴰ x rows
unfolding first
first-Mem zero x rows m = absurd (Memᴰ.not-nil m)
first-Mem (suc n) x [] m = m
first-Mem (suc n) x (row ∷ rows) m = elim (Memᴰ.cases_cons m) [
  | inl same ↦ Memᴰ.head same
  | inr later ↦ Memᴰ.tail (first-Mem n x rows later)
]

-- A row is left out only where the limit is reached.
pub Mem-first :
    (n : ℕ) (x : PassRow) (rows : List PassRow)
    → Memᴰ x rows
    → Memᴰ x (first n rows) ⊎ (length (first n rows) ≡ n)
unfolding first
Mem-first zero x rows m = inr refl
Mem-first (suc n) x [] m = elim m [ ]
Mem-first (suc n) x (row ∷ rows) m = elim (Memᴰ.cases_cons m) [
  | inl same ↦ inl (Memᴰ.head same)
  | inr later ↦ elim (Mem-first n x rows later) [
    | inl there ↦ inl (Memᴰ.tail there)
    | inr full ↦ inr (ap suc full)
  ]
]

pub length-first : (n : ℕ) (rows : List PassRow) → length (first n rows) ≤ n
unfolding first
length-first zero rows = omega arith
length-first (suc n) [] = omega arith
length-first (suc n) (row ∷ rows) = omega (arith, length-first n rows)

module _ (P : PassRow → Type 0) where
  first-All : (n : ℕ) (rows : List PassRow) → All P rows → All P (first n rows)
  unfolding first
  first-All zero rows hs = tt
  first-All (suc n) [] hs = tt
  first-All (suc n) (row ∷ rows) hs = (hs.0, first-All n rows hs.1)

  insert-All :
      (row : PassRow) (rows : List PassRow) → P row → All P rows → All P (insert_by_time row rows)
  unfolding insert_by_time
  insert-All row [] h hs = (h, tt)
  insert-All row (other ∷ rows) h hs = elim (Bool-cases (ltb row.updated_at other.updated_at)) [
    | inl e ↦ rw e (hs.0, insert-All row rows h hs.1)
    | inr e ↦ rw e (h, hs)
  ]

  All-map :
      (Q : PassRow → Type 0) (rows : List PassRow)
      → ((x : PassRow) → P x → Q x)
      → All P rows
      → All Q rows
  All-map Q [] h hs = tt
  All-map Q (row ∷ rows) h hs = (h row hs.0, All-map Q rows h hs.1)

insert-Falling :
    (row : PassRow) (rows : List PassRow) → Falling rows → Falling (insert_by_time row rows)
unfolding insert_by_time
insert-Falling row [] hs = (tt, tt)
insert-Falling row (other ∷ rows) hs = elim (Bool-cases (ltb row.updated_at other.updated_at)) [
  | inl e ↦
      let earlier : row.updated_at ≤ other.updated_at = ground arith in
      rw e (
        insert-All (λ x. x.updated_at ≤ other.updated_at) row rows earlier hs.0,
        insert-Falling row rows hs.1,
      )
  | inr e ↦
      let later : other.updated_at ≤ row.updated_at = ground arith in
      rw e (
        (
          later,
          All-map (λ x. x.updated_at ≤ other.updated_at) (λ x. x.updated_at ≤ row.updated_at) rows
              (λ x h. omega (arith, h, later)) hs.0,
        ),
        hs,
      )
]

pub sort-Falling : (rows : List PassRow) → Falling (sort_by_time rows)
unfolding sort_by_time
sort-Falling [] = tt
sort-Falling (row ∷ rows) = insert-Falling row (sort_by_time rows) (sort-Falling rows)

pub first-Falling : (n : ℕ) (rows : List PassRow) → Falling rows → Falling (first n rows)
unfolding first
first-Falling zero rows hs = tt
first-Falling (suc n) [] hs = tt
first-Falling (suc n) (row ∷ rows) hs =
    (first-All (λ x. x.updated_at ≤ row.updated_at) n rows hs.0, first-Falling n rows hs.1)
