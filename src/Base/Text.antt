-- ===== src/Base/Text.antt =====
-- What the program uses of the Go packages strings and unicode, over native texts.
pub mod Trim
use Prim.Native.Nat.{ℕ, ◌-◌}
use Prim.Native.Char.{Char, code}
use Prim.Native.String.{String, [], ◌∷◌, char_at}
use mathlib.Core.Bool.{Bool, ◌&&◌, ◌||◌}
use mathlib.Core.List.{List}
use mgp.Base.Tests.{leb, ltb, ◌==◌, nat_equality, text_equality, if◌then◌else◌}
use mathlib.Core.Path.{◌≡◌, refl}

-- `unicode.IsSpace`.
unfoldable pub is_space : ℕ → Bool
is_space c =
    (leb 9 c && leb c 13)
    || c == 32
    || c == 0x85
    || c == 0xa0
    || c == 0x1680
    || (leb 0x2000 c && leb c 0x200a)
    || c == 0x2028
    || c == 0x2029
    || c == 0x202f
    || c == 0x205f
    || c == 0x3000

pub trim_left : String → String
trim_left [] = []
trim_left (c ∷ s) = if is_space (code c) then trim_left s else c ∷ s

-- A character in front of a text whose trailing white space is gone.
pub put_unless_last_space : Char → String → String
put_unless_last_space c [] = if is_space (code c) then [] else c ∷ []
put_unless_last_space c (d ∷ s) = c ∷ d ∷ s

pub trim_right : String → String
trim_right [] = []
trim_right (c ∷ s) = put_unless_last_space c (trim_right s)

-- `strings.TrimSpace`.
unfoldable pub trim_space : String → String
unfolding trim_left trim_right put_unless_last_space is_space
trim_space s = trim_right (trim_left s)

-- `strings.TrimSpace(s) == ""`.
abbrev pub is_blank : String → Bool
is_blank s = trim_space s == ""

abbrev pub map_text : (Char → Char) → String → String
map_text f [] = []
map_text f (c ∷ s) = f c ∷ map_text f s

-- `unicode.ToLower`; `other` is its table beyond ASCII.
pub lower_char : (Char → Char) → Char → Char
lower_char other c =
    if leb b'A' (code c) && leb (code c) b'Z'
    then char_at "abcdefghijklmnopqrstuvwxyz" (code c - b'A')
    else if ltb (code c) 128
    then c
    else other c

pub upper_char : (Char → Char) → Char → Char
upper_char other c =
    if leb b'a' (code c) && leb (code c) b'z'
    then char_at "ABCDEFGHIJKLMNOPQRSTUVWXYZ" (code c - b'a')
    else if ltb (code c) 128
    then c
    else other c

-- `strings.ToLower`.
unfoldable pub to_lower : (Char → Char) → String → String
unfolding lower_char
to_lower other = map_text (lower_char other)

-- `strings.ToUpper`.
unfoldable pub to_upper : (Char → Char) → String → String
unfolding upper_char
to_upper other = map_text (upper_char other)

-- `strings.Split` at a separator of one character: what stands before the first one, and the rest.
unfoldable pub split_from : ℕ → String → String × List String
split_from sep [] = ("", List.[])
split_from sep (c ∷ s) =
    let (part, parts) = split_from sep s in
    if code c == sep then ("", List.◌∷◌ part parts) else (c ∷ part, parts)

unfoldable pub split : ℕ → String → List String
unfolding split_from
split sep s = let (part, parts) = split_from sep s in List.◌∷◌ part parts

trim_test : trim_space "  ab c \t" ≡ "ab c"
unfolding trim_space
trim_test = refl
