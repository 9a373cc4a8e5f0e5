-- ===== src/Http/Csv/Scans.antt =====
-- encoding/csv: how the reader takes a row that the writer wrote.
use Prim.Native.Char.{Char}
use Prim.Native.String.{String, [], ◌∷◌, ◌++◌}
use Prim.Native.String.append.{nil, cons}
use text.Mathlib.TextLemmas.{append_assoc}
use mgp.Base.{
  ◌≡◌, refl, ap, sym, ◌∙◌, Bool, true, false, ◌||◌, Bool-cases, ◌⊎◌, inl, inr, List, ◌==◌,
  nat_equality, text_equality, arith,
}
use mgp.Http.Csv.{
  Rows, Mode, Step, is_quote, is_comma, is_newline, is_special, has_special, step, push, open_field,
  scan, needs_quotes, starts_with_space, doubled, write_field, write_others, write_row,
}

-- A text in front of the first field.
abbrev pushes : String → Rows → Rows
pushes [] rows = rows
pushes (c ∷ s) rows = push c (pushes s rows)

pushes-next :
    (s : String) (ss : List String) (rows : Rows)
    → pushes s (Rows.next (List.◌∷◌ "" ss) rows) ≡ Rows.next (List.◌∷◌ s ss) rows
pushes-next [] ss rows = refl
pushes-next (c ∷ s) ss rows = rw (pushes-next s ss rows) refl

-- A character that ends a field outside quotes.
abbrev Ends : Char → Type 0
Ends c =
    (is_quote c ≡ false) × ((is_comma c ≡ true) ⊎ ((is_comma c ≡ false) × (is_newline c ≡ true)))

-- Behind a field, it does not matter whether it was quoted.
step-plain : (c : Char) → Ends c → step Mode.plain c ≡ step Mode.field c
step-plain c h = ground arith

step-closed : (c : Char) → Ends c → step Mode.closed c ≡ step Mode.field c
step-closed c h = ground arith

scan-plain : (c : Char) (s : String) → Ends c → scan Mode.plain (c ∷ s) ≡ scan Mode.field (c ∷ s)
unfolding scan
scan-plain c s h = rw (step-plain c h) refl

scan-closed : (c : Char) (s : String) → Ends c → scan Mode.closed (c ∷ s) ≡ scan Mode.field (c ∷ s)
unfolding scan
scan-closed c s h = rw (step-closed c h) refl

special-step :
    (c : Char)
    → is_special c ≡ false
    → (step Mode.plain c ≡ Step.keep Mode.plain)
      × (step Mode.field c ≡ Step.keep Mode.plain)
      × (step Mode.line c ≡ Step.keep Mode.plain)
special-step c h = (ground arith, ground arith, ground arith)

special-parts : (a b : Bool) → (a || b) ≡ false → (a ≡ false) × (b ≡ false)
special-parts a b h = (ground arith, ground arith)

-- A field without special characters, behind its first character.
scan-unquoted :
    (s : String) (d : Char) (t : String)
    → has_special s ≡ false
    → Ends d
    → scan Mode.plain (s ++ (d ∷ t)) ≡ pushes s (scan Mode.field (d ∷ t))
unfolding scan has_special
scan-unquoted [] d t h e = rw (nil (d ∷ t)) (scan-plain d t e)
scan-unquoted (c ∷ s) d t h e =
    let (first, rest) = special-parts (is_special c) (has_special s) h in
    rw (cons c s (d ∷ t), (special-step c first).0, scan-unquoted s d t rest e) refl

scan-doubled :
    (s : String) (d : Char) (t : String)
    → Ends d
    → scan Mode.quoted (doubled s ++ (d ∷ t)) ≡ pushes s (scan Mode.field (d ∷ t))
unfolding scan doubled
scan-doubled [] d t e =
    ap (scan Mode.quoted) (cons "\"" [] (d ∷ t) ∙ ap (λ u. "\"" ∷ u) (nil (d ∷ t)))
    ∙ scan-closed d t e
scan-doubled (c ∷ s) d t e = elim (Bool-cases (is_quote c)) [
  | inl q ↦
      rw (q, cons c (c ∷ doubled s) (d ∷ t), cons c (doubled s) (d ∷ t), q, q, scan-doubled s d t e)
        refl
  | inr q ↦ rw (q, cons c (doubled s) (d ∷ t), q, scan-doubled s d t e) refl
]

or-parts : (a b c : Bool) → (a || b || c) ≡ false → b ≡ false
or-parts a b c h = ground arith

-- A field without special characters, from its first character on.
scan-bare :
    (s : String) (d : Char) (t : String)
    → has_special s ≡ false
    → Ends d
    → scan Mode.field (s ++ (d ∷ t)) ≡ pushes s (scan Mode.field (d ∷ t))
unfolding scan has_special
scan-bare [] d t h e = rw (nil (d ∷ t)) refl
scan-bare (c ∷ s) d t h e =
    let (first, rest) = special-parts (is_special c) (has_special s) h in
    rw (cons c s (d ∷ t), (special-step c first).1, scan-unquoted s d t rest e) refl

quoted-text : (s t : String) → ("\"" ++ doubled s) ++ t ≡ "\"" ∷ (doubled s ++ t)
quoted-text s t = append_assoc "\"" (doubled s) t ∙ cons "\"" [] _ ∙ ap (λ u. "\"" ∷ u) (nil _)

-- A field and the character that ends it, at the start of a field.
scan-field :
    (s : String) (d : Char) (t : String)
    → Ends d
    → scan Mode.field (write_field s ++ (d ∷ t)) ≡ pushes s (scan Mode.field (d ∷ t))
unfolding scan write_field needs_quotes
scan-field s d t e = elim (Bool-cases (needs_quotes s)) [
  | inl q ↦ rw q (ap (scan Mode.field) (quoted-text s (d ∷ t)) ∙ scan-doubled s d t e)
  | inr q ↦ rw q (scan-bare s d t (or-parts (s == "\\.") (has_special s) (starts_with_space s) q) e)
]

comma-line : (d : Char) → is_comma d ≡ true → step Mode.line d ≡ step Mode.field d
comma-line d h = ground arith

-- At the start of a line a field is read alike, if a comma ends it.
scan-line :
    (s : String) (d : Char) (t : String)
    → is_comma d ≡ true
    → scan Mode.line (write_field s ++ (d ∷ t)) ≡ scan Mode.field (write_field s ++ (d ∷ t))
unfolding scan write_field needs_quotes has_special
scan-line s d t e = elim (Bool-cases (needs_quotes s)) [
  | inl q ↦ rw (q, quoted-text s (d ∷ t)) refl
  | inr q ↦ rw q (bare s (or-parts (s == "\\.") (has_special s) (starts_with_space s) q))
]
  where
    bare :
        (s : String)
        → has_special s ≡ false
        → scan Mode.line (s ++ (d ∷ t)) ≡ scan Mode.field (s ++ (d ∷ t))
    bare [] h = rw (nil (d ∷ t), comma-line d e) refl
    bare (c ∷ s) h =
        let (first, rest) = special-parts (is_special c) (has_special s) h in
        rw (cons c s (d ∷ t), (special-step c first).2, (special-step c first).1) refl

comma-Ends : Ends ","
comma-Ends = (refl, inl refl)

newline-Ends : Ends "\n"
newline-Ends = (refl, inr (refl, refl))

others-text :
    (s : String) (ss : List String) (t : String)
    → write_others (List.◌∷◌ s ss) ++ t ≡ "," ∷ (write_field s ++ (write_others ss ++ t))
unfolding write_others
others-text s ss t =
    append_assoc "," (write_field s ++ write_others ss) t
    ∙ cons "," [] _
    ∙ ap (λ u. "," ∷ u) (nil _ ∙ append_assoc (write_field s) (write_others ss) t)

end-text : (t : String) → write_others List.[] ++ t ≡ "\n" ∷ t
unfolding write_others
end-text t = cons "\n" [] t ∙ ap (λ u. "\n" ∷ u) (nil t)

others-head :
    (ss : List String) (t : String)
    → (d : Char) × (u : String) × (write_others ss ++ t ≡ d ∷ u) × Ends d
others-head List.[] t = ("\n", t, end-text t, newline-Ends)
others-head (List.◌∷◌ s ss) t = (",", _, others-text s ss t, comma-Ends)

field-others :
    (s : String) (ss : List String) (t : String)
    → scan Mode.field (write_field s ++ (write_others ss ++ t))
      ≡ pushes s (scan Mode.field (write_others ss ++ t))
field-others s ss t =
    let (d, u, e, ends) = others-head ss t in
    ap (λ v. scan Mode.field (write_field s ++ v)) e
    ∙ scan-field s d u ends
    ∙ ap (λ v. pushes s (scan Mode.field v)) (sym e)

-- The fields behind the first one of a row.
scan-others :
    (ss : List String) (t : String)
    → scan Mode.field (write_others ss ++ t) ≡ Rows.next (List.◌∷◌ "" ss) (scan Mode.line t)
unfolding scan
scan-others List.[] t = ap (scan Mode.field) (end-text t)
scan-others (List.◌∷◌ s ss) t =
    ap (scan Mode.field) (others-text s ss t)
    ∙ ap open_field (
        field-others s ss t
        ∙ ap (pushes s) (scan-others ss t)
        ∙ pushes-next s ss (scan Mode.line t))

-- A row of at least two fields.
pub scan-row :
    (s s' : String) (ss : List String) (t : String)
    → scan Mode.line (write_row (List.◌∷◌ s (List.◌∷◌ s' ss)) ++ t)
      ≡ Rows.next (List.◌∷◌ s (List.◌∷◌ s' ss)) (scan Mode.line t)
unfolding write_row
scan-row s s' ss t =
    let others = write_others (List.◌∷◌ s' ss) in
    let head = others-text s' ss t in
    ap (scan Mode.line) (append_assoc (write_field s) others t)
    ∙ ap (λ v. scan Mode.line (write_field s ++ v)) head
    ∙ scan-line s "," _ refl
    ∙ ap (λ v. scan Mode.field (write_field s ++ v)) (sym head)
    ∙ field-others s (List.◌∷◌ s' ss) t
    ∙ ap (pushes s) (scan-others (List.◌∷◌ s' ss) t)
    ∙ pushes-next s (List.◌∷◌ s' ss) (scan Mode.line t)
