-- ===== src/Http/Csv/Reads.antt =====
-- encoding/csv: what the reader makes of rows that the writer wrote.
use Prim.Native.Char.{code}
use Prim.Native.String.{String, [], ◌∷◌, ◌++◌}
use Prim.Native.String.append.{nil, cons}
use mgp.Base.{
  ℕ, ◌≡◌, refl, ap, ◌∙◌, true, false, Bool-cases, inl, inr, List, ◌==◌, nat_equality, text_equality,
  All, arith, ◌≤◌, length,
}
use mgp.Base.Splits.{lacks}
use mgp.Http.Csv.{
  Rows, Mode, is_quote, scan, plain_lines, read_rows, needs_quotes, doubled, write_field,
  write_others, write_row, write_rows,
}
use mgp.Http.Csv.Scans.{scan-row}

-- Rows as the reader gives them.
abbrev pub rows_of : List (List String) → Rows
rows_of List.[] = Rows.done
rows_of (List.◌∷◌ row rows) = Rows.next row (rows_of rows)

-- A row of at least two fields without carriage returns.
abbrev pub IsPlainRow : List String → Type 0
IsPlainRow row = (2 ≤ length row) × All (λ s. lacks b'\r' s ≡ true) row

scan-rows :
    (rows : List (List String))
    → All (λ row. 2 ≤ length row) rows
    → scan Mode.line (write_rows rows) ≡ rows_of rows
unfolding write_rows scan
scan-rows List.[] h = refl
scan-rows (List.◌∷◌ List.[] rows) h = absurd (omega (arith, h.0))
scan-rows (List.◌∷◌ (List.◌∷◌ s List.[]) rows) h = absurd (omega (arith, h.0))
scan-rows (List.◌∷◌ (List.◌∷◌ s (List.◌∷◌ s' ss)) rows) h =
    scan-row s s' ss (write_rows rows)
    ∙ ap (Rows.next (List.◌∷◌ s (List.◌∷◌ s' ss))) (scan-rows rows h.1)

plain_lines-lacks : (s : String) → lacks b'\r' s ≡ true → plain_lines s ≡ s
unfolding plain_lines
plain_lines-lacks [] h = refl
plain_lines-lacks (c ∷ s) h =
    let (apart, rest) : ((code c == b'\r') ≡ false) × (lacks b'\r' s ≡ true) =
      (ground arith, ground arith) in
    rw (apart, plain_lines-lacks s rest) refl

lacks-append :
    (sep : ℕ) (s t : String) → lacks sep s ≡ true → lacks sep t ≡ true → lacks sep (s ++ t) ≡ true
lacks-append sep [] t hs ht = rw (nil t) ht
lacks-append sep (c ∷ s) t hs ht =
    let (apart, rest) : ((code c == sep) ≡ false) × (lacks sep s ≡ true) =
      (ground arith, ground arith) in
    rw (cons c s t, apart, lacks-append sep s t rest ht) refl

doubled-lacks : (s : String) → lacks b'\r' s ≡ true → lacks b'\r' (doubled s) ≡ true
unfolding doubled
doubled-lacks [] h = refl
doubled-lacks (c ∷ s) h =
    let (apart, rest) : ((code c == b'\r') ≡ false) × (lacks b'\r' s ≡ true) =
      (ground arith, ground arith) in
    elim (Bool-cases (is_quote c)) [
      | inl q ↦ rw (q, apart, doubled-lacks s rest) refl
      | inr q ↦ rw (q, apart, doubled-lacks s rest) refl
    ]

field-lacks : (s : String) → lacks b'\r' s ≡ true → lacks b'\r' (write_field s) ≡ true
unfolding write_field
field-lacks s h = elim (Bool-cases (needs_quotes s)) [
  | inl q ↦ rw q (lacks-append b'\r' "\"" (doubled s) refl (doubled-lacks s h))
  | inr q ↦ rw (q, h) refl
]

others-lacks :
    (ss : List String) → All (λ s. lacks b'\r' s ≡ true) ss → lacks b'\r' (write_others ss) ≡ true
unfolding write_others
others-lacks List.[] h = refl
others-lacks (List.◌∷◌ s ss) h =
    lacks-append b'\r' "," (write_field s ++ write_others ss) refl (
      lacks-append b'\r' (write_field s) (write_others ss) (field-lacks s h.0)
        (others-lacks ss h.1))

row-lacks :
    (row : List String) → All (λ s. lacks b'\r' s ≡ true) row → lacks b'\r' (write_row row) ≡ true
unfolding write_row
row-lacks List.[] h = refl
row-lacks (List.◌∷◌ s ss) h =
    lacks-append b'\r' (write_field s) (write_others ss) (field-lacks s h.0) (others-lacks ss h.1)

rows-lacks :
    (rows : List (List String)) → All IsPlainRow rows → lacks b'\r' (write_rows rows) ≡ true
unfolding write_rows
rows-lacks List.[] h = refl
rows-lacks (List.◌∷◌ row rows) h =
    lacks-append b'\r' (write_row row) (write_rows rows) (row-lacks row h.0.1) (rows-lacks rows h.1)

lengths : (rows : List (List String)) → All IsPlainRow rows → All (λ row. 2 ≤ length row) rows
lengths List.[] h = tt
lengths (List.◌∷◌ row rows) h = (h.0.0, lengths rows h.1)

-- Rows of at least two fields each, none of which holds a carriage return, are read back from the
-- text that is written for them, whatever quotes, commas and line feeds they hold.
pub write_rows-read_rows :
    (rows : List (List String)) → All IsPlainRow rows → read_rows (write_rows rows) ≡ rows_of rows
unfolding read_rows
write_rows-read_rows rows h =
    ap (scan Mode.line) (plain_lines-lacks (write_rows rows) (rows-lacks rows h))
    ∙ scan-rows rows (lengths rows h)
