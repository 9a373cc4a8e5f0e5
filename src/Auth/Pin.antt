-- ===== src/Auth/Pin.antt =====
-- internal/auth/pin.go: user names, PINs and their hashes. Argon2id is a field of `Platform`; a
-- failure of `crypto/rand` ends the program, so `rand.Read` always gives bytes.
pub mod Verifies
use Prim.Native.String.{String, [], ◌∷◌, ◌++◌, count}
use mgp.Base.{
  ℕ, ◌+◌, Bool, true, false, ◌&&◌, ◌||◌, Char, code, Option, none, some, List, ◌==◌, nat_equality,
  text_equality, leb, if◌then◌else◌, Failure, message, ok,
}
use mgp.Base.Text.{trim_space, to_lower, split}
use mgp.Base.Base64.{std_alphabet, encode, decode}
use mgp.Database.{World, M, pure, ◌>>=◌, ◌>>◌, check}

-- `NormalizeUsername`; `other` is Unicode's lower case beyond ASCII.
unfoldable pub normalize_username : (Char → Char) → String → String
normalize_username other username = to_lower other (trim_space username)

abbrev between : ℕ → ℕ → ℕ → Bool
between low high n = leb low n && leb n high

-- `[a-z0-9._-]`.
abbrev is_name_char : ℕ → Bool
is_name_char c = between b'a' b'z' c || between b'0' b'9' c || c == b'.' || c == b'_' || c == b'-'

abbrev all_chars : (ℕ → Bool) → String → Bool
all_chars p [] = true
all_chars p (c ∷ s) = p (code c) && all_chars p s

-- `^[a-z][a-z0-9._-]{2,31}$`.
abbrev pub matches_username : String → Bool
matches_username [] = false
matches_username (c ∷ s) =
    between b'a' b'z' (code c) && all_chars is_name_char s && between 2 31 (count s)

-- `^[0-9]{6}$`.
abbrev pub matches_pin : String → Bool
matches_pin s = all_chars (between b'0' b'9') s && count s == 6

unfoldable pub validate_username : (Char → Char) → String → Option Failure
validate_username other username =
    if matches_username (normalize_username other username)
    then none
    else some (
        message
          "username must be 3-32 characters and contain only letters, numbers, dot, underscore, or hyphen")

unfoldable pub validate_pin : String → Option Failure
validate_pin pin =
    if matches_pin (trim_space pin)
    then none
    else some (message "PIN must contain exactly 6 digits")

-- `rand.Read`.
abbrev pub read_random : M (List ℕ)
read_random w = (ok (w.random w.reads), record w { reads = w.reads + 1 })

-- The text that `HashPIN` builds from a salt and a hash.
unfoldable pub encoded_hash : List ℕ → List ℕ → String
encoded_hash salt hash =
    "argon2id$v=19$m=65536,t=2,p=2$"
    ++ (encode std_alphabet salt ++ ("$" ++ encode std_alphabet hash))

-- `HashPIN`.
unfoldable pub hash_pin : String → M String
hash_pin pin = do
  check (validate_pin (trim_space pin))
  salt ← read_random
  λ w. pure (encoded_hash salt (w.argon2 (trim_space pin) salt)) w

-- The lengths, and the loop that compares every byte: `mismatch` stays 0 when all bytes are the same.
pub same_bytes : List ℕ → List ℕ → Bool
same_bytes List.[] List.[] = true
same_bytes (List.◌∷◌ a xs) (List.◌∷◌ b ys) = a == b && same_bytes xs ys
same_bytes _ _ = false

abbrev compare_hash : (String → List ℕ → List ℕ) → String → Option (List ℕ) → Option (List ℕ) → Bool
compare_hash argon2 pin (some salt) (some expected) = same_bytes (argon2 pin salt) expected
compare_hash argon2 pin _ _ = false

-- `parts` must have five elements, the first `argon2id`.
abbrev verify_parts : (String → List ℕ → List ℕ) → String → List String → Bool
verify_parts argon2 pin
      (List.◌∷◌ name (List.◌∷◌ _ (List.◌∷◌ _ (List.◌∷◌ salt (List.◌∷◌ hash List.[]))))) =
    if name == "argon2id"
    then compare_hash argon2 pin (decode std_alphabet salt) (decode std_alphabet hash)
    else false
verify_parts argon2 pin _ = false

abbrev pub is_none : Option Failure → Bool
is_none none = true
is_none (some _) = false

-- `VerifyPIN`.
unfoldable pub verify_pin : (String → List ℕ → List ℕ) → String → String → Bool
unfolding same_bytes
verify_pin argon2 encoded pin =
    if is_none (validate_pin pin)
    then verify_parts argon2 (trim_space pin) (split b'$' encoded)
    else false
