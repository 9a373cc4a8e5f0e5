-- ===== src/Admin/Accounts.antt =====
-- What one table of accounts keeps of another.
use mgp.Base.{
  ◌≡◌, refl, true, false, String, some, List, [], ◌∷◌, find, update, ap, ◌∙◌, subst, ◌==◌,
  text_equality, eq_iff, any, arith, Bool-cases, inl, inr,
}
use mathlib.Core.Option.{some-injective}
use mgp.Base.Keys.{any_of_find}
use mgp.Rbac.{role_equality}
use mgp.Database.Tables.{UserRow}
use mgp.Gatepass.Rows.{is_user}
use mgp.Admin.{}

-- What is kept of an account: all but its PIN and the time of its last change.
abbrev pub SameAccount : UserRow → UserRow → Type 0
SameAccount old new =
    (new.role ≡ old.role)
    × (new.username ≡ old.username)
    × (new.name ≡ old.name)
    × (new.status ≡ old.status)

-- Every account that is there stays, as it was but for its PIN.
abbrev pub AccountsKept : List UserRow → List UserRow → Type 0
AccountsKept old new =
    (id : String) (row : UserRow)
    → find (is_user id) old ≡ some row
    → (row' : UserRow) × (find (is_user id) new ≡ some row') × SameAccount row row'

pub kept_refl : (users : List UserRow) → AccountsKept users users
kept_refl users id row h = (row, h, (refl, refl, refl, refl))

pub kept_trans : (a b c : List UserRow) → AccountsKept a b → AccountsKept b c → AccountsKept a c
kept_trans a b c f g id row h =
    let (row1, h1, same1) = f id row h in
    let (row2, h2, same2) = g id row1 h1 in
    (row2, h2, (same2.0 ∙ same1.0, same2.1 ∙ same1.1, same2.2 ∙ same1.2, same2.3 ∙ same1.3))

pub find-update :
    (target : String) (f : UserRow → UserRow) (users : List UserRow)
    → ((row : UserRow) → ((f row).id ≡ row.id) × SameAccount row (f row))
    → AccountsKept users (update (is_user target) f users)
find-update target f [] like id row h = cc
find-update target f (user ∷ users) like id row h = elim (Bool-cases (is_user target user)) [
  | inl e ↦
      let now : is_user id (f user) ≡ is_user id user = ap (λ i. i == id) (like user).0 in
      elim (Bool-cases (is_user id user)) [
        | inl i ↦
            let same : user ≡ row = some-injective _ _ (rw i at h) in
            rw (e, now, i) (f user, refl, subst (λ r. SameAccount r (f user)) same (like user).1)
        | inr i ↦ rw (e, now, i) (row, rw i at h, (refl, refl, refl, refl))
      ]
  | inr e ↦ elim (Bool-cases (is_user id user)) [
    | inl i ↦
        let same : user ≡ row = some-injective _ _ (rw i at h) in
        rw (e, i) (user, refl, subst (λ r. SameAccount r user) same (refl, refl, refl, refl))
    | inr i ↦ rw (e, i) (find-update target f users like id row (rw i at h))
  ]
]

pub find-fresh :
    (new : UserRow) (users : List UserRow)
    → any (is_user new.id) users ≡ false
    → AccountsKept users (new ∷ users)
find-fresh new users unused id row h = elim (Bool-cases (is_user id new)) [
  | inl e ↦
      let named : new.id ≡ id = ground (arith, eq_iff new.id id) in
      let there : any (is_user id) users ≡ true = any_of_find (is_user id) users h in
      let absent : any (is_user id) users ≡ false =
        subst (λ i. any (is_user i) users ≡ false) named unused in
      cc
  | inr e ↦ rw e (row, h, (refl, refl, refl, refl))
]
