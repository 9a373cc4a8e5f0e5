-- ===== src/Sessions/Cookies.antt =====
-- internal/platform/sessions/store.go: which values of the cookie are accepted.
use Prim.Native.String.{◌++◌}
use Prim.Native.String.append.{nil, cons}
use mgp.Base.{
  ℕ, ◌<◌, ◌≡◌, refl, sym, ap, ◌∙◌, ◌↔◌, Bool, true, false, not, ◌&&◌, String, none, some, List, [],
  ◌∷◌, All, ◌==◌, text_equality, if◌then◌else◌, eq_refl, eq_iff,
}
use mathlib.Core.Option.{some-injective}
use mgp.Base.Text.{split}
use mgp.Base.Base64.{url_alphabet, url-IsAlphabet, encode}
use mgp.Base.Splits.{lacks, split-two, split_from-first, encode-lacks}
use mgp.Sessions.{sign_cookie, verify_cookie, verify_parts}

abbrev first_part : List String → String
first_part [] = ""
first_part (part ∷ _) = part

chosen :
    (p q : Bool) (a id : String)
    → (if not p && q then some a else none) ≡ some id
    → (p ≡ false) × (q ≡ true) × (a ≡ id)
chosen true q a id e = cc
chosen false false a id e = cc
chosen false true a id e = (refl, refl, some-injective _ _ e)

module _ (hmac : String → String → List ℕ) (key : String) (keyed : (key == "") ≡ false) where
  signed :
      (id : String) → sign_cookie hmac key id ≡ id ++ ("." ++ encode url_alphabet (hmac key id))
  unfolding sign_cookie
  signed id = rw keyed refl

  split-sign_cookie :
      (id : String)
      → All (λ b. b < 256) (hmac key id)
      → lacks b'.' id ≡ true
      → split b'.' (sign_cookie hmac key id) ≡ id ∷ encode url_alphabet (hmac key id) ∷ []
  split-sign_cookie id bytes h =
      ap (split b'.') (
        signed id
        ∙ ap (λ t. id ++ t)
            (cons "." "" (encode url_alphabet (hmac key id)) ∙ ap (λ t. String.◌∷◌ "." t) (nil _)))
      ∙ split-two b'.' "." id (encode url_alphabet (hmac key id)) h
          (encode-lacks b'.' url_alphabet (hmac key id) url-IsAlphabet bytes) refl

  pub verify_cookie-sign_cookie :
      (id : String)
      → All (λ b. b < 256) (hmac key id)
      → lacks b'.' id ≡ true
      → (id == "") ≡ false
      → verify_cookie hmac key (sign_cookie hmac key id) ≡ some id
  unfolding verify_cookie
  verify_cookie-sign_cookie id bytes h named = rw keyed (
      ap (verify_parts hmac key (sign_cookie hmac key id)) (split-sign_cookie id bytes h)
      ∙ rw (named, eq_refl (sign_cookie hmac key id)) refl)

  parts-accepted :
      (value id : String) (parts : List String)
      → verify_parts hmac key value parts ≡ some id
      → (value ≡ sign_cookie hmac key id)
        × ((id == "") ≡ false)
        × ((rest : List String) × (parts ≡ id ∷ rest))
  parts-accepted value id [] e = cc
  parts-accepted value id (a ∷ []) e = cc
  parts-accepted value id (a ∷ b ∷ c ∷ parts) e = cc
  parts-accepted value id (a ∷ b ∷ []) e =
      let (named, equal, same) = chosen (a == "") (value == sign_cookie hmac key a) a id e in
      (
        (eq_iff _ _).0 equal ∙ ap (sign_cookie hmac key) same,
        ap (λ x. x == "") (sym same) ∙ named,
        (b ∷ [], ap (λ x. x ∷ b ∷ []) same),
      )

  -- With a key, a value of the cookie is accepted as naming a session exactly when it is the name
  -- signed under that key, and the name is not empty and has no dot.
  pub verify_cookie_iff :
      (value id : String)
      → All (λ b. b < 256) (hmac key id)
      → (verify_cookie hmac key value ≡ some id)
        ↔ ((value ≡ sign_cookie hmac key id) × ((id == "") ≡ false) × (lacks b'.' id ≡ true))
  unfolding verify_cookie split
  verify_cookie_iff value id bytes = (
    λ e.
        let (same, named, (rest, parts)) =
          parts-accepted value id (split b'.' value) (rw keyed at e) in
        (
          same,
          named,
          ap (λ t. lacks b'.' t) (sym (ap first_part parts)) ∙ split_from-first b'.' value,
        ),
    λ (same, named, h).
        ap (verify_cookie hmac key) same ∙ verify_cookie-sign_cookie id bytes h named,
  )
