-- ===== src/Base/Splits.antt =====
-- Texts that lack a character, and what `strings.Split` makes of texts joined by it.
use Prim.Native.Nat.{ℕ, ◌<◌}
use Prim.Native.Char.{Char, code}
use Prim.Native.String.{String, [], ◌∷◌, ◌++◌}
use Prim.Native.String.append.{nil, cons}
use text.Mathlib.TextLemmas.{append_assoc}
use mathlib.Core.Path.{◌≡◌, refl}
use mathlib.Core.Bool.{Bool, true, false, not, ◌&&◌}
use mathlib.Core.List.{List}
use mathlib.Core.Logic.{inl, inr}
use native.Mathlib.Omega.{arith}
use mgp.Base.Tests.{◌==◌, nat_equality, Bool-cases}
use mgp.Base.Lists.{All}
use mgp.Base.Text.{split, split_from}
use mgp.Base.Base64.{symbols, sextets, sextets-below, symbol-facts, IsAlphabet, encode}

abbrev pub lacks : ℕ → String → Bool
lacks sep [] = true
lacks sep (c ∷ s) = not (code c == sep) && lacks sep s

pub split_from-lacks : (sep : ℕ) (s : String) → lacks sep s ≡ true → split_from sep s ≡ (s, List.[])
unfolding split_from
split_from-lacks sep [] h = refl
split_from-lacks sep (c ∷ s) h =
    let (apart, rest) : ((code c == sep) ≡ false) × (lacks sep s ≡ true) =
      (ground arith, ground arith) in
    rw (apart, split_from-lacks sep s rest) refl

pub split_from-join :
    (sep : ℕ) (c : Char) (s t : String)
    → lacks sep s ≡ true
    → (code c == sep) ≡ true
    → split_from sep (s ++ (c ∷ t)) ≡ (s, split sep t)
unfolding split_from split
split_from-join sep c [] t h e = rw (nil (c ∷ t), e) refl
split_from-join sep c (d ∷ s) t h e =
    let (apart, rest) : ((code d == sep) ≡ false) × (lacks sep s ≡ true) =
      (ground arith, ground arith) in
    rw (cons d s (c ∷ t), apart, split_from-join sep c s t rest e) refl

-- The first part of a split lacks the separator.
pub split_from-first : (sep : ℕ) (s : String) → lacks sep (split_from sep s).0 ≡ true
unfolding split_from
split_from-first sep [] = refl
split_from-first sep (c ∷ s) = elim (Bool-cases (code c == sep)) [
  | inl e ↦ rw e refl
  | inr e ↦ rw e (rw (e, split_from-first sep s) refl)
]

symbols-lacks :
    (sep : ℕ) (alphabet : String) (ns : List ℕ)
    → IsAlphabet sep alphabet
    → All (λ n. n < 64) ns
    → lacks sep (symbols alphabet ns) ≡ true
unfolding symbols
symbols-lacks sep alphabet List.[] valid h = refl
symbols-lacks sep alphabet (List.◌∷◌ n ns) valid h =
    let (_, _, _, apart) = symbol-facts sep alphabet valid n h.0 in
    rw (apart, symbols-lacks sep alphabet ns valid h.1) refl

-- The symbols of an alphabet without the separator lack it.
pub encode-lacks :
    (sep : ℕ) (alphabet : String) (bytes : List ℕ)
    → IsAlphabet sep alphabet
    → All (λ b. b < 256) bytes
    → lacks sep (encode alphabet bytes) ≡ true
unfolding encode
encode-lacks sep alphabet bytes valid h =
    symbols-lacks sep alphabet (sextets bytes) valid (sextets-below bytes h)

-- A first part that stands in front of a longer text.
pub split-join :
    (sep : ℕ) (c : Char) (s t u : String)
    → lacks sep s ≡ true
    → (code c == sep) ≡ true
    → split sep ((s ++ (c ∷ t)) ++ u) ≡ List.◌∷◌ s (split sep (t ++ u))
unfolding split
split-join sep c s t u h e =
    rw (append_assoc s (c ∷ t) u, cons c t u, split_from-join sep c s (t ++ u) h e) refl

-- Two parts that lack the separator.
pub split-two :
    (sep : ℕ) (c : Char) (s t : String)
    → lacks sep s ≡ true
    → lacks sep t ≡ true
    → (code c == sep) ≡ true
    → split sep (s ++ (c ∷ t)) ≡ List.◌∷◌ s (List.◌∷◌ t List.[])
unfolding split
split-two sep c s t hs ht e = rw (split_from-join sep c s t hs e, split_from-lacks sep t ht) refl
