-- ===== src/Base/Lists.antt =====
-- Lists with native lengths, a predicate on every element, and tables with a key: the first row
-- that a test picks, and a change of that row.
use Prim.Native.Nat.{ℕ, zero, suc, ◌+◌}
use mathlib.Core.Path.{◌≡◌, sym, subst}
use mathlib.Core.Logic.{inl, inr}
use mathlib.Core.Bool.{Bool, true, false, ◌&&◌, ◌||◌}
use mathlib.Core.Option.{Option, none, some, some-injective}
use mathlib.Core.List.{List, [], ◌∷◌, ◌++◌}
use native.Mathlib.Omega.{arith}
use mgp.Base.Tests.{if◌then◌else◌, Bool-cases}

module _ {ℓ} {A : Type ℓ} where
  abbrev pub length : List A → ℕ
  length [] = 0
  length (_ ∷ xs) = suc (length xs)

  abbrev pub any : (A → Bool) → List A → Bool
  any p [] = false
  any p (x ∷ xs) = p x || any p xs

  abbrev pub all : (A → Bool) → List A → Bool
  all p [] = true
  all p (x ∷ xs) = p x && all p xs

  -- The first row that passes the test.
  abbrev pub find : (A → Bool) → List A → Option A
  find p [] = none
  find p (x ∷ xs) = if p x then some x else find p xs

  -- A change of the first row that passes the test.
  abbrev pub update : (A → Bool) → (A → A) → List A → List A
  update p f [] = []
  update p f (x ∷ xs) = if p x then f x ∷ xs else x ∷ update p f xs

  -- The rows that fail the test.
  abbrev pub discard : (A → Bool) → List A → List A
  discard p [] = []
  discard p (x ∷ xs) = if p x then discard p xs else x ∷ discard p xs

  -- The rows that pass the test, in order.
  abbrev pub select : (A → Bool) → List A → List A
  select p [] = []
  select p (x ∷ xs) = if p x then x ∷ select p xs else select p xs

  -- `ORDER BY`: a row goes in front of the first one that does not come before it.
  abbrev pub insert_by : (A → A → Bool) → A → List A → List A
  insert_by before x [] = x ∷ []
  insert_by before x (y ∷ ys) = if before y x then y ∷ insert_by before x ys else x ∷ y ∷ ys

  abbrev pub sort_by : (A → A → Bool) → List A → List A
  sort_by before [] = []
  sort_by before (x ∷ xs) = insert_by before x (sort_by before xs)

  -- `LIMIT`.
  abbrev pub at_most : ℕ → List A → List A
  at_most zero xs = []
  at_most (suc n) [] = []
  at_most (suc n) (x ∷ xs) = x ∷ at_most n xs

  pub length-append : (xs ys : List A) → length (xs ++ ys) ≡ length xs + length ys
  length-append [] ys = omega arith
  length-append (x ∷ xs) ys = omega (arith, length-append xs ys)

module _ {ℓ κ} {A : Type ℓ} (P : A → Type κ) where
  abbrev pub All : List A → Type κ
  All [] = Unit
  All (x ∷ xs) = P x × All xs

  pub All-append : (xs ys : List A) → All xs → All ys → All (xs ++ ys)
  All-append [] ys hx hy = hy
  All-append (x ∷ xs) ys hx hy = (hx.0, All-append xs ys hx.1 hy)

  pub All-find : (p : A → Bool) (xs : List A) {x : A} → All xs → find p xs ≡ some x → P x
  All-find p [] h e = cc
  All-find p (y ∷ xs) h e = elim (Bool-cases (p y)) [
    | inl yes_p ↦ subst P (some-injective _ _ (rw yes_p at e)) h.0
    | inr no_p ↦ All-find p xs h.1 (rw no_p at e)
  ]

  pub All-update :
      (p : A → Bool) (f : A → A) (xs : List A) {x : A}
      → All xs
      → find p xs ≡ some x
      → P (f x)
      → All (update p f xs)
  All-update p f [] h e q = tt
  All-update p f (y ∷ xs) h e q = elim (Bool-cases (p y)) [
    | inl yes_p ↦ rw yes_p (subst (λ z. P (f z)) (sym (some-injective _ _ (rw yes_p at e))) q, h.1)
    | inr no_p ↦ rw no_p (h.0, All-update p f xs h.1 (rw no_p at e) q)
  ]
