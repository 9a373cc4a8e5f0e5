-- ===== src/Base/Text/Trim.antt =====
-- `strings.TrimSpace` of a trimmed text.
use Prim.Native.Char.{code}
use Prim.Native.String.{String, [], ◌∷◌}
use mathlib.Core.Path.{◌≡◌, refl, ◌∙◌, ap}
use mathlib.Core.Bool.{Bool, true, not}
use mathlib.Core.Logic.{inl, inr}
use native.Mathlib.Omega.{arith}
use mgp.Base.Tests.{Bool-cases}
use mgp.Base.Text.{is_space, trim_left, trim_right, put_unless_last_space, trim_space}

-- A text that does not begin with white space.
abbrev begins_well : String → Bool
begins_well [] = true
begins_well (c ∷ s) = not (is_space (code c))

begins_well-trim_left : (s : String) → begins_well (trim_left s) ≡ true
unfolding trim_left
begins_well-trim_left [] = refl
begins_well-trim_left (c ∷ s) = elim (Bool-cases (is_space (code c))) [
  | inl e ↦ rw e (begins_well-trim_left s)
  | inr e ↦ rw e (rw e refl)
]

begins_well-put :
    (c : _) (s : String)
    → not (is_space (code c)) ≡ true
    → begins_well (put_unless_last_space c s) ≡ true
unfolding put_unless_last_space
begins_well-put c [] h = elim (Bool-cases (is_space (code c))) [
  | inl e ↦ rw e refl
  | inr e ↦ rw e (rw e refl)
]
begins_well-put c (d ∷ s) h = h

begins_well-trim_right : (s : String) → begins_well s ≡ true → begins_well (trim_right s) ≡ true
unfolding trim_right
begins_well-trim_right [] h = refl
begins_well-trim_right (c ∷ s) h = begins_well-put c (trim_right s) h

trim_left-begins_well : (s : String) → begins_well s ≡ true → trim_left s ≡ s
unfolding trim_left
trim_left-begins_well [] h = refl
trim_left-begins_well (c ∷ s) h = elim (Bool-cases (is_space (code c))) [
  | inl e ↦ ground arith
  | inr e ↦ rw e refl
]

trim_right-put :
    (c : _) (s : String)
    → trim_right s ≡ s
    → trim_right (put_unless_last_space c s) ≡ put_unless_last_space c s
unfolding trim_right put_unless_last_space
trim_right-put c [] h = elim (Bool-cases (is_space (code c))) [
  | inl e ↦ rw e refl
  | inr e ↦ rw e (rw e refl)
]
trim_right-put c (d ∷ s) h = ap (put_unless_last_space c) h

trim_right-trim_right : (s : String) → trim_right (trim_right s) ≡ trim_right s
unfolding trim_right
trim_right-trim_right [] = refl
trim_right-trim_right (c ∷ s) = trim_right-put c (trim_right s) (trim_right-trim_right s)

pub trim_space-trim_space : (s : String) → trim_space (trim_space s) ≡ trim_space s
unfolding trim_space
trim_space-trim_space s =
    ap trim_right (
      trim_left-begins_well (trim_right (trim_left s))
        (begins_well-trim_right (trim_left s) (begins_well-trim_left s)))
    ∙ trim_right-trim_right (trim_left s)
