-- ===== src/Base/Base64.antt =====
-- Package encoding/base64 without padding, as the program uses it: RawStdEncoding for PIN hashes
-- and RawURLEncoding for session keys. Bytes are numbers below 256; an encoding is its alphabet.
use Prim.Native.Nat.{ℕ, zero, suc, ◌+◌, ◌*◌, ◌/◌, ◌%◌, ◌<◌}
use Prim.Native.Char.{Char, code}
use Prim.Native.String.{String, char_at}
use mathlib.Core.Path.{◌≡◌, refl}
use mathlib.Core.Bool.{Bool, true, false, not, ◌||◌, ◌&&◌}
use mathlib.Core.Option.{Option, none, some}
use mathlib.Core.List.{List, [], ◌∷◌}
use native.Mathlib.Omega.{arith}
use mgp.Base.Tests.{◌==◌, nat_equality, text_equality, if◌then◌else◌, Bool-cases}
use mgp.Base.Lists.{All}
use mathlib.Core.Logic.{inl, inr}

abbrev pub std_alphabet : String
std_alphabet = "ABCDEFGHIJKLMNOPQRSTUVWXYZabcdefghijklmnopqrstuvwxyz0123456789+/"

abbrev pub url_alphabet : String
url_alphabet = "ABCDEFGHIJKLMNOPQRSTUVWXYZabcdefghijklmnopqrstuvwxyz0123456789-_"

-- The text of a list of six-bit numbers.
unfoldable pub symbols : String → List ℕ → String
symbols alphabet [] = ""
symbols alphabet (n ∷ ns) = String.◌∷◌ (char_at alphabet n) (symbols alphabet ns)

-- Three bytes as four six-bit numbers; the last one or two bytes as two or three.
pub sextets : List ℕ → List ℕ
sextets [] = []
sextets (a ∷ []) = (a / 4) ∷ (a % 4 * 16) ∷ []
sextets (a ∷ b ∷ []) = (a / 4) ∷ (a % 4 * 16 + b / 16) ∷ (b % 16 * 4) ∷ []
sextets (a ∷ b ∷ c ∷ bytes) =
    (a / 4) ∷ (a % 4 * 16 + b / 16) ∷ (b % 16 * 4 + c / 64) ∷ (c % 64) ∷ sextets bytes

-- `EncodeToString`.
unfoldable pub encode : String → List ℕ → String
unfolding symbols sextets
encode alphabet bytes = symbols alphabet (sextets bytes)

-- The place of a character in the alphabet.
pub position : Char → String → Option ℕ
position c String.[] = none
position c (String.◌∷◌ d s) =
    let rest = position c s in
    if code c == code d then some 0 else elim rest [ none ↦ none | some n ↦ some (suc n) ]

abbrev push : Option ℕ → Option (List ℕ) → Option (List ℕ)
push none rest = none
push (some n) none = none
push (some n) (some ns) = some (n ∷ ns)

-- The six-bit numbers of a text; line breaks are skipped.
pub numbers : String → String → Option (List ℕ)
numbers alphabet String.[] = some []
numbers alphabet (String.◌∷◌ c s) =
    let rest = numbers alphabet s in
    if code c == 10 || code c == 13 then rest else push (position c alphabet) rest

abbrev push3 : ℕ → ℕ → ℕ → Option (List ℕ) → Option (List ℕ)
push3 a b c none = none
push3 a b c (some bytes) = some (a ∷ b ∷ c ∷ bytes)

-- The bytes of six-bit numbers; one number alone at the end is an error. The unused bits of the
-- last number are ignored.
pub octets : List ℕ → Option (List ℕ)
octets [] = some []
octets (p ∷ []) = none
octets (p ∷ q ∷ []) = some ((p * 4 + q / 16) ∷ [])
octets (p ∷ q ∷ r ∷ []) = some ((p * 4 + q / 16) ∷ (q % 16 * 16 + r / 4) ∷ [])
octets (p ∷ q ∷ r ∷ s ∷ ns) =
    push3 (p * 4 + q / 16) (q % 16 * 16 + r / 4) (r % 4 * 64 + s) (octets ns)

abbrev octets_of : Option (List ℕ) → Option (List ℕ)
octets_of none = none
octets_of (some ns) = octets ns

-- `DecodeString`.
unfoldable pub decode : String → String → Option (List ℕ)
unfolding numbers octets position
decode alphabet text = octets_of (numbers alphabet text)

encode_test : encode std_alphabet (77 ∷ 97 ∷ 110 ∷ 77 ∷ []) ≡ "TWFuTQ"
unfolding encode
encode_test = refl

decode_test : decode std_alphabet "TWFuTWE" ≡ some (77 ∷ 97 ∷ 110 ∷ 77 ∷ 97 ∷ [])
unfolding decode
decode_test = refl

octets-sextets : (bytes : List ℕ) → All (λ b. b < 256) bytes → octets (sextets bytes) ≡ some bytes
unfolding octets sextets
octets-sextets [] h = refl
octets-sextets (a ∷ []) h =
    let low : a / 4 * 4 + a % 4 * 16 / 16 ≡ a = omega (arith, h.0) in rw low refl
octets-sextets (a ∷ b ∷ []) h =
    let first : a / 4 * 4 + (a % 4 * 16 + b / 16) / 16 ≡ a = omega (arith, h.0, h.1.0) in
    let second : (a % 4 * 16 + b / 16) % 16 * 16 + b % 16 * 4 / 4 ≡ b = omega (arith, h.0, h.1.0) in
    rw (first, second) refl
octets-sextets (a ∷ b ∷ c ∷ bytes) h =
    let first : a / 4 * 4 + (a % 4 * 16 + b / 16) / 16 ≡ a = omega (arith, h.0, h.1.0) in
    let second : (a % 4 * 16 + b / 16) % 16 * 16 + (b % 16 * 4 + c / 64) / 4 ≡ b =
      omega (arith, h.0, h.1.0, h.1.1.0) in
    let third : (b % 16 * 4 + c / 64) % 4 * 64 + c % 64 ≡ c = omega (arith, h.0, h.1.0, h.1.1.0) in
    rw (octets-sextets bytes h.1.1.1, first, second, third) refl

pub sextets-below : (bytes : List ℕ) → All (λ b. b < 256) bytes → All (λ n. n < 64) (sextets bytes)
unfolding sextets
sextets-below [] h = tt
sextets-below (a ∷ []) h = (omega (arith, h.0), (omega (arith, h.0), tt))
sextets-below (a ∷ b ∷ []) h =
    (omega (arith, h.0), (omega (arith, h.0, h.1.0), (omega (arith, h.1.0), tt)))
sextets-below (a ∷ b ∷ c ∷ bytes) h = (
  omega (arith, h.0),
  (
    omega (arith, h.0, h.1.0),
    (omega (arith, h.1.0, h.1.1.0), (omega (arith, h.1.1.0), sextets-below bytes h.1.1.1)),
  ),
)

-- A number is found where its symbol stands, and no symbol is a line break or the given separator.
abbrev is_readable : ℕ → String → ℕ → Bool
is_readable sep alphabet n =
    let c = code (char_at alphabet n) in
    elim (position (char_at alphabet n) alphabet) [ none ↦ false | some m ↦ m == n ]
    && not (c == 10)
    && not (c == 13)
    && not (c == sep)

readable_facts :
    (place : Option ℕ) (sep c n : ℕ)
    → (elim place [ none ↦ false | some m ↦ m == n ]
        && not (c == 10)
        && not (c == 13)
        && not (c == sep))
      ≡ true
    → (place ≡ some n) × ((c == 10) ≡ false) × ((c == 13) ≡ false) × ((c == sep) ≡ false)
readable_facts none sep c n h = cc
readable_facts (some m) sep c n h = (ground arith, ground arith, ground arith, ground arith)

abbrev below : (ℕ → Bool) → ℕ → Bool
below p zero = true
below p (suc n) = p n && below p n

below-lt : (p : ℕ → Bool) (k n : ℕ) → below p k ≡ true → n < k → p n ≡ true
below-lt p zero n h lt = absurd omega (arith, lt)
below-lt p (suc k) n h lt = elim (Bool-cases (n == k)) [
  | inl e ↦ let same : n ≡ k = ground arith in rw same ground arith
  | inr e ↦ below-lt p k n (ground arith) (ground arith)
]

-- An alphabet whose symbols can be told apart, from each other and from a separator.
abbrev pub IsAlphabet : ℕ → String → Type 0
IsAlphabet sep alphabet = below (is_readable sep alphabet) 64 ≡ true

pub std-IsAlphabet : IsAlphabet b'$' std_alphabet
unfolding position
std-IsAlphabet = refl

pub url-IsAlphabet : IsAlphabet b'.' url_alphabet
unfolding position
url-IsAlphabet = refl

pub symbol-facts :
    (sep : ℕ) (alphabet : String)
    → IsAlphabet sep alphabet
    → (n : ℕ) → n < 64
    → (position (char_at alphabet n) alphabet ≡ some n)
      × ((code (char_at alphabet n) == 10) ≡ false)
      × ((code (char_at alphabet n) == 13) ≡ false)
      × ((code (char_at alphabet n) == sep) ≡ false)
symbol-facts sep alphabet valid n h =
    readable_facts _ sep (code (char_at alphabet n)) n
      (below-lt (is_readable sep alphabet) 64 n valid h)

module _ (sep : ℕ) (alphabet : String) (valid : IsAlphabet sep alphabet) where
  numbers-symbols :
      (ns : List ℕ) → All (λ n. n < 64) ns → numbers alphabet (symbols alphabet ns) ≡ some ns
  unfolding numbers symbols
  numbers-symbols [] h = refl
  numbers-symbols (n ∷ ns) h =
      let (place, newline, return, apart) = symbol-facts sep alphabet valid n h.0 in
      rw (newline, return, place, numbers-symbols ns h.1) refl

  pub decode-encode :
      (bytes : List ℕ)
      → All (λ b. b < 256) bytes
      → decode alphabet (encode alphabet bytes) ≡ some bytes
  unfolding decode encode
  decode-encode bytes h =
      rw (numbers-symbols (sextets bytes) (sextets-below bytes h)) (octets-sextets bytes h)
