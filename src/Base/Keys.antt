-- ===== src/Base/Keys.antt =====
-- Tables whose rows have a text as a key: reads, changes and inserts by key.
use mgp.Base.Tests.{if◌then◌else◌, ◌==◌, text_equality, Bool-cases}
use mgp.Base.Lists.{discard, any, find, update}
use Prim.Native.String.{String}
use mathlib.Core.Path.{◌≡◌, refl, sym, ap, ◌∙◌}
use mathlib.Core.Logic.{◌≢◌, inl, inr}
use mathlib.Core.Bool.{Bool, true, false, false≢true, ◌||◌}
use mathlib.Core.Option.{none, some, some-injective}
use mathlib.Core.List.{List, [], ◌∷◌}
use native.Mathlib.Omega.{arith}
use text.Mathlib.TextEquality.{eq_iff}
use text.Mathlib.TextPositions.{eq_refl}

pub false-of-ne : (s t : String) → s ≢ t → (s == t) ≡ false
false-of-ne s t h = ground (arith, eq_iff s t)

module _ {ℓ} {A : Type ℓ} where
  -- A row that was found passes the test.
  pub find-test : (p : A → Bool) (xs : List A) {x : A} → find p xs ≡ some x → p x ≡ true
  find-test p [] e = cc
  find-test p (y ∷ xs) e = elim (Bool-cases (p y)) [
    | inl yes_p ↦ ap p (sym (some-injective _ _ (rw yes_p at e))) ∙ yes_p
    | inr no_p ↦ find-test p xs (rw no_p at e)
  ]

  pub find-first : (p : A → Bool) (x : A) (xs : List A) → p x ≡ true → find p (x ∷ xs) ≡ some x
  find-first p x xs h = rw h refl

  pub find-discard : (p : A → Bool) (xs : List A) → find p (discard p xs) ≡ none
  find-discard p [] = refl
  find-discard p (x ∷ xs) = elim (Bool-cases (p x)) [
    | inl yes_p ↦ rw yes_p (find-discard p xs)
    | inr no_p ↦ rw no_p (rw no_p (find-discard p xs))
  ]

  pub find-none_of_any : (p : A → Bool) (xs : List A) → any p xs ≡ false → find p xs ≡ none
  find-none_of_any p [] e = refl
  find-none_of_any p (y ∷ xs) e = ground (arith, find-none_of_any p xs)

  pub any_of_find : (p : A → Bool) (xs : List A) {x : A} → find p xs ≡ some x → any p xs ≡ true
  any_of_find p [] e = cc
  any_of_find p (y ∷ xs) e = elim (Bool-cases (p y)) [
    | inl yes_p ↦ rw yes_p refl
    | inr no_p ↦ rw no_p (any_of_find p xs (rw no_p at e))
  ]

  -- A change of the row that a test picks is read back by the same test.
  pub find-update_self :
      (p : A → Bool) (f : A → A) (xs : List A) (x : A)
      → find p xs ≡ some x
      → p (f x) ≡ true
      → find p (update p f xs) ≡ some (f x)
  find-update_self p f [] x e q = cc
  find-update_self p f (y ∷ xs) x e q = elim (Bool-cases (p y)) [
    | inl yes_p ↦ let same : y ≡ x = some-injective _ _ (rw yes_p at e) in rw (yes_p, same, q) refl
    | inr no_p ↦ rw (no_p, no_p) (find-update_self p f xs x (rw no_p at e) q)
  ]

  -- It is nothing to a test that fails before and after.
  pub find-update_other :
      (p q : A → Bool) (f : A → A) (xs : List A) (x : A)
      → find p xs ≡ some x
      → q x ≡ false
      → q (f x) ≡ false
      → find q (update p f xs) ≡ find q xs
  find-update_other p q f [] x e a b = refl
  find-update_other p q f (y ∷ xs) x e a b = elim (Bool-cases (p y)) [
    | inl yes_p ↦
        let same : y ≡ x = some-injective _ _ (rw yes_p at e) in rw (yes_p, same, a, b) refl
    | inr no_p ↦
        rw no_p
          (ap (λ r. if q y then some y else r) (find-update_other p q f xs x (rw no_p at e) a b))
  ]

  -- No two rows have the same key.
  module _ (key : A → String) where
    abbrev pub has_key : String → A → Bool
    has_key k x = key x == k

    abbrev pub Distinct : List A → Type 0
    Distinct [] = Unit
    Distinct (x ∷ xs) = (any (has_key (key x)) xs ≡ false) × Distinct xs

    any-update :
        (p : A → Bool) (f : A → A) (k : String) (xs : List A)
        → ((x : A) → key (f x) ≡ key x)
        → any (has_key k) (update p f xs) ≡ any (has_key k) xs
    any-update p f k [] keeps = refl
    any-update p f k (x ∷ xs) keeps = elim (Bool-cases (p x)) [
      | inl yes_p ↦ rw (yes_p, keeps x) refl
      | inr no_p ↦ rw no_p (ap (λ b. key x == k || b) (any-update p f k xs keeps))
    ]

    -- A change that keeps the keys keeps them distinct.
    pub Distinct-update :
        (p : A → Bool) (f : A → A) (xs : List A)
        → ((x : A) → key (f x) ≡ key x)
        → Distinct xs
        → Distinct (update p f xs)
    Distinct-update p f [] keeps d = tt
    Distinct-update p f (x ∷ xs) keeps d = elim (Bool-cases (p x)) [
      | inl yes_p ↦ rw yes_p (rw (keeps x) d.0, d.1)
      | inr no_p ↦ rw no_p (any-update p f (key x) xs keeps ∙ d.0, Distinct-update p f xs keeps d.1)
    ]

    -- A row that any test finds is the row with its key.
    pub find-key :
        (p : A → Bool) (xs : List A) (x : A)
        → Distinct xs
        → find p xs ≡ some x
        → find (has_key (key x)) xs ≡ some x
    find-key p [] x d e = cc
    find-key p (y ∷ xs) x d e = elim (Bool-cases (p y)) [
      | inl yes_p ↦
          let same : y ≡ x = some-injective _ _ (rw yes_p at e) in rw (same, eq_refl (key x)) refl
      | inr no_p ↦
          let later = find-key p xs x d.1 (rw no_p at e) in
          elim (Bool-cases (key y == key x)) [
            | inl clash ↦
                let twice = any_of_find (has_key (key x)) xs later in
                absurd (
                  false≢true
                    (sym d.0 ∙ ap (λ k. any (has_key k) xs) ((eq_iff _ _).0 clash) ∙ twice))
            | inr apart ↦ rw apart later
          ]
    ]
