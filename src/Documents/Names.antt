-- ===== src/Documents/Names.antt =====
-- internal/documents/service.go: the names of files.
use Prim.Native.Char.{Char, code}
use mgp.Base.{◌≡◌, Bool, true, false, not, ◌&&◌, String, ◌==◌, nat_equality, text_equality}
use mgp.Base.Splits.{lacks}
use mgp.Database.{}

-- No two dots stand next to each other; the flag says that a dot stands in front.
abbrev pub dots_apart : Bool → String → Bool
dots_apart dot String.[] = true
dots_apart dot (String.◌∷◌ c s) = not (dot && code c == b'.') && dots_apart (code c == b'.') s

-- No separator of paths and no space, and no two dots in a row.
abbrev pub IsSafe : String → Type 0
IsSafe s =
    (lacks b'/' s ≡ true)
    × (lacks b'\\' s ≡ true)
    × (lacks b' ' s ≡ true)
    × (dots_apart false s ≡ true)

-- What a replaced character is not, and that dots stay what they are.
abbrev Replaced : Char → Char → Type 0
Replaced c d =
    ((code d == b'/') ≡ false)
    × ((code d == b'\\') ≡ false)
    × ((code d == b' ') ≡ false)
    × ((code d == b'.') ≡ (code c == b'.'))
