-- ===== src/Auth/Pin/Verifies.antt =====
-- internal/auth/pin.go: a stored hash against the PINs that it accepts.
use Prim.Native.String.{String, ◌∷◌, ◌++◌}
use Prim.Native.String.append.{nil, cons}
use mgp.Base.{
  ℕ, ◌<◌, ◌≡◌, refl, ap, ◌∙◌, ◌↔◌, true, List, All, none, arith, Option-cases, if◌then◌else◌, inl,
  inr, false, ok,
}
use mgp.Base.Text.{trim_space, split, split_from}
use mgp.Base.Text.Trim.{trim_space-trim_space}
use mgp.Base.Base64.{std_alphabet, std-IsAlphabet, encode, decode-encode}
use mgp.Base.Splits.{split-join, split-two, encode-lacks}
use mgp.Database.{World}
use mgp.Auth.Pin.{validate_pin, encoded_hash, hash_pin, verify_pin, same_bytes, is_none}

abbrev Bytes : List ℕ → Type 0
Bytes = All (λ b. b < 256)

-- The parts of a stored hash.
split-encoded_hash :
    (salt hash : List ℕ)
    → Bytes salt
    → Bytes hash
    → split b'$' (encoded_hash salt hash)
      ≡ List.◌∷◌ "argon2id" (
          List.◌∷◌ "v=19" (
            List.◌∷◌ "m=65536,t=2,p=2"
              (List.◌∷◌ (encode std_alphabet salt) (List.◌∷◌ (encode std_alphabet hash) List.[]))))
unfolding encoded_hash split split_from
split-encoded_hash salt hash hs hh =
    let tail =
      split-two b'$' _ (encode std_alphabet salt) (encode std_alphabet hash)
        (encode-lacks b'$' std_alphabet salt std-IsAlphabet hs)
        (encode-lacks b'$' std_alphabet hash std-IsAlphabet hh) refl in
    let joined = encode std_alphabet salt ++ ("$" ++ encode std_alphabet hash) in
    split-join b'$' "$" "argon2id" "v=19$m=65536,t=2,p=2$" joined refl refl
    ∙ ap (List.◌∷◌ "argon2id") (split-join b'$' "$" "v=19" "m=65536,t=2,p=2$" joined refl refl)
    ∙ ap (λ l. List.◌∷◌ "argon2id" (List.◌∷◌ "v=19" l))
        (split-join b'$' "$" "m=65536,t=2,p=2" "" joined refl refl)
    ∙ ap (λ l. List.◌∷◌ "argon2id" (List.◌∷◌ "v=19" (List.◌∷◌ "m=65536,t=2,p=2" l)))
        (ap (split b'$') (nil joined)
          ∙ ap (λ t. split b'$' (encode std_alphabet salt ++ t))
              (cons "$" "" (encode std_alphabet hash) ∙ ap (λ t. "$" ∷ t) (nil _))
          ∙ tail)

same_bytes_refl : (xs : List ℕ) → same_bytes xs xs ≡ true
unfolding same_bytes
same_bytes_refl List.[] = refl
same_bytes_refl (List.◌∷◌ x xs) = let rest = same_bytes_refl xs in ground arith

same_bytes_eq : (xs ys : List ℕ) → same_bytes xs ys ≡ true → xs ≡ ys
unfolding same_bytes
same_bytes_eq List.[] List.[] h = refl
same_bytes_eq List.[] (List.◌∷◌ y ys) h = cc
same_bytes_eq (List.◌∷◌ x xs) List.[] h = cc
same_bytes_eq (List.◌∷◌ x xs) (List.◌∷◌ y ys) h =
    let (first, rest) : (x ≡ y) × (same_bytes xs ys ≡ true) = (ground arith, ground arith) in
    rw (first, same_bytes_eq xs ys rest) refl

-- What is left of the test once the stored hash is read.
verify_pin-encoded_hash :
    (argon2 : String → List ℕ → List ℕ) (pin : String) (salt hash : List ℕ)
    → Bytes salt
    → Bytes hash
    → verify_pin argon2 (encoded_hash salt hash) pin ≡ (
        if is_none (validate_pin pin)
        then same_bytes (argon2 (trim_space pin) salt) hash
        else false)
unfolding verify_pin
verify_pin-encoded_hash argon2 pin salt hash hs hh =
    rw
      (
        split-encoded_hash salt hash hs hh,
        decode-encode b'$' std_alphabet std-IsAlphabet salt hs,
        decode-encode b'$' std_alphabet std-IsAlphabet hash hh,
      )
      refl

-- A well-formed PIN is accepted against a stored hash exactly when Argon2id gives the stored bytes.
pub verify_pin_iff :
    (argon2 : String → List ℕ → List ℕ) (pin : String) (salt hash : List ℕ)
    → Bytes salt
    → Bytes hash
    → (verify_pin argon2 (encoded_hash salt hash) pin ≡ true)
      ↔ ((validate_pin pin ≡ none) × (argon2 (trim_space pin) salt ≡ hash))
verify_pin_iff argon2 pin salt hash hs hh =
    rw (verify_pin-encoded_hash argon2 pin salt hash hs hh)
      (elim (Option-cases (validate_pin pin)) [
        | inl valid ↦
            rw valid
              (λ h. (refl, same_bytes_eq _ hash h), λ (_, same). rw same (same_bytes_refl hash))
        | inr (e, refused) ↦ rw refused (λ h. cc, λ (h, _). cc)
      ])

-- Whatever bytes the generator and Argon2id give, a well-formed PIN is hashed, and the hash is then
-- accepted exactly with those well-formed PINs that Argon2id, under the same salt, takes to the same
-- bytes; among them the PIN itself.
pub hash_pin-verify_pin :
    (pin other_pin : String) (w : World)
    → Bytes (w.random w.reads)
    → Bytes (w.argon2 (trim_space pin) (w.random w.reads))
    → validate_pin pin ≡ none
    → (encoded : String) × ((hash_pin pin w).0 ≡ ok encoded)
      × (verify_pin w.argon2 encoded pin ≡ true)
      × ((verify_pin w.argon2 encoded other_pin ≡ true) ↔ (
          (validate_pin other_pin ≡ none)
          × (w.argon2 (trim_space other_pin) (w.random w.reads)
              ≡ w.argon2 (trim_space pin) (w.random w.reads))))
unfolding hash_pin validate_pin
hash_pin-verify_pin pin other_pin w hs hh valid =
    let salt = w.random w.reads in
    let hash = w.argon2 (trim_space pin) salt in
    (
      encoded_hash salt hash,
      rw (trim_space-trim_space pin, valid) refl,
      (verify_pin_iff w.argon2 pin salt hash hs hh).1 (valid, refl),
      verify_pin_iff w.argon2 other_pin salt hash hs hh,
    )
