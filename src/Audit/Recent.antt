-- ===== src/Audit/Recent.antt =====
-- internal/audit/store.go: how many events the log shows, which, and in which order.
use mgp.Base.{
  ℕ, zero, suc, ◌≤◌, ◌≡◌, refl, ap, Bool-cases, true, false, inl, inr, ◌⊎◌, List, [], ◌∷◌, map, All,
  length, ltb, none, ok, arith, ℤ, pos, negsuc, insert_by, sort_by, at_most,
}
use mgp.Database.{World, statement}
use mgp.Database.Tables.{AuditRow}
use mgp.Audit.{Event, event_of, is_newer, recent_limit, recent_events}

-- The times of the events fall from the first one on.
abbrev pub Falls : List Event → Type 0
Falls [] = Unit
Falls (e ∷ es) = All (λ later. later.created_at ≤ e.created_at) es × Falls es

abbrev RowsFall : List AuditRow → Type 0
RowsFall [] = Unit
RowsFall (r ∷ rs) = All (λ later. later.created_at ≤ r.created_at) rs × RowsFall rs

length-insert_by :
    (r : AuditRow) (rs : List AuditRow) → length (insert_by is_newer r rs) ≡ suc (length rs)
length-insert_by r [] = refl
length-insert_by r (s ∷ rs) = elim (Bool-cases (ltb r.created_at s.created_at)) [
  | inl e ↦ rw e (ap suc (length-insert_by r rs))
  | inr e ↦ rw e refl
]

length-sort_by : (rs : List AuditRow) → length (sort_by is_newer rs) ≡ length rs
length-sort_by [] = refl
length-sort_by (r ∷ rs) = omega (arith, length-insert_by r (sort_by is_newer rs), length-sort_by rs)

insert_by-below :
    (t : ℕ) (r : AuditRow) (rs : List AuditRow)
    → r.created_at ≤ t
    → All (λ later. later.created_at ≤ t) rs
    → All (λ later. later.created_at ≤ t) (insert_by is_newer r rs)
insert_by-below t r [] h hs = (h, tt)
insert_by-below t r (s ∷ rs) h hs = elim (Bool-cases (ltb r.created_at s.created_at)) [
  | inl e ↦ rw e (hs.0, insert_by-below t r rs h hs.1)
  | inr e ↦ rw e (h, hs)
]

below-weaken :
    (s t : ℕ) (rs : List AuditRow)
    → s ≤ t
    → All (λ later. later.created_at ≤ s) rs
    → All (λ later. later.created_at ≤ t) rs
below-weaken s t [] h hs = tt
below-weaken s t (r ∷ rs) h hs = (omega (arith, h, hs.0), below-weaken s t rs h hs.1)

newer : (a b : ℕ) → ltb a b ≡ true → a ≤ b
newer a b h = ground arith

not_newer : (a b : ℕ) → ltb a b ≡ false → b ≤ a
not_newer a b h = ground arith

insert_by-RowsFall :
    (r : AuditRow) (rs : List AuditRow) → RowsFall rs → RowsFall (insert_by is_newer r rs)
insert_by-RowsFall r [] h = (tt, tt)
insert_by-RowsFall r (s ∷ rs) h = elim (Bool-cases (ltb r.created_at s.created_at)) [
  | inl e ↦ rw e (
    insert_by-below s.created_at r rs (newer r.created_at s.created_at e) h.0,
    insert_by-RowsFall r rs h.1,
  )
  | inr e ↦
      let le = not_newer r.created_at s.created_at e in
      rw e ((le, below-weaken s.created_at r.created_at rs le h.0), h)
]

sort_by-RowsFall : (rs : List AuditRow) → RowsFall (sort_by is_newer rs)
sort_by-RowsFall [] = tt
sort_by-RowsFall (r ∷ rs) = insert_by-RowsFall r (sort_by is_newer rs) (sort_by-RowsFall rs)

-- What holds of the rows of a table holds of the first ones in order.
module _ (P : AuditRow → Type 0) where
  insert_by-All :
      (r : AuditRow) (rs : List AuditRow) → P r → All P rs → All P (insert_by is_newer r rs)
  insert_by-All r [] h hs = (h, tt)
  insert_by-All r (s ∷ rs) h hs = elim (Bool-cases (ltb r.created_at s.created_at)) [
    | inl e ↦ rw e (hs.0, insert_by-All r rs h hs.1)
    | inr e ↦ rw e (h, hs)
  ]

  at_most-All : (n : ℕ) (rs : List AuditRow) → All P rs → All P (at_most n rs)
  at_most-All zero rs hs = tt
  at_most-All (suc n) [] hs = tt
  at_most-All (suc n) (r ∷ rs) hs = (hs.0, at_most-All n rs hs.1)

at_most-RowsFall : (n : ℕ) (rs : List AuditRow) → RowsFall rs → RowsFall (at_most n rs)
at_most-RowsFall zero rs h = tt
at_most-RowsFall (suc n) [] h = tt
at_most-RowsFall (suc n) (r ∷ rs) h =
    (at_most-All (λ later. later.created_at ≤ r.created_at) n rs h.0, at_most-RowsFall n rs h.1)

module _ (json_text : _) where
  map-below :
      (t : ℕ) (rs : List AuditRow)
      → All (λ later. later.created_at ≤ t) rs
      → All (λ (later : Event). later.created_at ≤ t) (map (event_of json_text) rs)
  map-below t [] h = tt
  map-below t (r ∷ rs) h = (h.0, map-below t rs h.1)

  map-Falls : (rs : List AuditRow) → RowsFall rs → Falls (map (event_of json_text) rs)
  map-Falls [] h = tt
  map-Falls (r ∷ rs) h = (map-below r.created_at rs h.0, map-Falls rs h.1)

  length-map : (rs : List AuditRow) → length (map (event_of json_text) rs) ≡ length rs
  length-map [] = refl
  length-map (r ∷ rs) = ap suc (length-map rs)

length-at_most :
    (n : ℕ) (rs : List AuditRow)
    → (length (at_most n rs) ≡ n) ⊎ ((length (at_most n rs) ≡ length rs) × (length rs ≤ n))
length-at_most zero rs = inl refl
length-at_most (suc n) [] = inr (refl, omega arith)
length-at_most (suc n) (r ∷ rs) = elim (length-at_most n rs) [
  | inl e ↦ inl (ap suc e)
  | inr (e, h) ↦ inr (ap suc e, omega (arith, h))
]

limit_bound : (limit : ℤ) → (1 ≤ recent_limit limit) × (recent_limit limit ≤ 500)
limit_bound (pos n) = (ground arith, ground arith)
limit_bound (negsuc n) = (omega arith, omega arith)

-- As many events as the limit asks for, or all of them where they are not more.
abbrev pub Fills : ℤ → World → List Event → Type 0
Fills limit w events =
    (length events ≡ recent_limit limit)
    ⊎ ((length events ≡ length w.db.audit_events) × (length w.db.audit_events ≤ recent_limit limit))

fills :
    (limit : ℤ) (w : World)
    → Fills limit w (
        map
          (event_of w.json_text)
          (at_most (recent_limit limit) (sort_by is_newer w.db.audit_events)))
fills limit w =
    let sorted = sort_by is_newer w.db.audit_events in
    let same = length-sort_by w.db.audit_events in
    let shown = length-map w.json_text (at_most (recent_limit limit) sorted) in
    elim (length-at_most (recent_limit limit) sorted) [
      | inl e ↦ inl (omega (arith, e, shown))
      | inr (e, h) ↦ inr (omega (arith, e, same, shown), omega (arith, h, same))
    ]

-- Where the driver refuses no call, the log is given, whatever limit is asked for: at most 500
-- events, as many as the limit that is used, which is at least one, or all of the table where it has
-- no more, and the times of the events never rise from one to a later one in the list.
pub recent_events-Bounded :
    (limit : ℤ) (w : World)
    → ((n : ℕ) → w.fault n ≡ none)
    → (events : List Event) × ((recent_events limit w).0 ≡ ok events)
      × (length events ≤ 500)
      × (1 ≤ recent_limit limit)
      × Fills limit w events
      × Falls events
unfolding recent_events statement
recent_events-Bounded limit w calm =
    let sorted = sort_by is_newer w.db.audit_events in
    let shown = at_most (recent_limit limit) sorted in
    let filled = fills limit w in
    let (low, high) = limit_bound limit in
    (
      map (event_of w.json_text) shown,
      rw (calm w.calls) refl,
      elim filled [ inl e ↦ omega (arith, e, high) | inr (e, h) ↦ omega (arith, e, h, high) ],
      low,
      filled,
      map-Falls w.json_text shown
          (at_most-RowsFall (recent_limit limit) sorted (sort_by-RowsFall w.db.audit_events)),
    )
