-- ===== src/Database/Laws.antt =====
-- What a call and a transaction do, for the proofs that keep them shut.
use mgp.Base.{
  ◌≡◌, refl, Bool, true, false, String, Option, none, some, Result, ok, err, Failure, arith,
}
use mgp.Database
use mgp.Database.Tables.{Db}
use mgp.Database.{
  World, M, statement, transaction, ◌>>=◌, ◌>>◌, pure, mark, tick, rolled_back, change, read_row,
  require, check, answer, conclude,
}

-- A transaction that fails leaves the tables as they were.
pub transaction-err :
    {A : Type 0} (body : M A) (w : World) {e : Failure}
    → (transaction body w).0 ≡ err e
    → (transaction body w).1.db ≡ w.db
unfolding transaction
transaction-err body w h = ground arith

pub >>=-ok :
    {A B : Type 0} (m : M A) (f : A → M B) (w : World) {b : B} {w' : World}
    → (m >>= f) w ≡ (ok b, w')
    → (a : A) × (u : World) × (m w ≡ (ok a, u)) × (f a u ≡ (ok b, w'))
>>=-ok {A} {B} m f w {b} {w'} h = go (m w) refl h
  where
    go :
        (r : Result A × World)
        → m w ≡ r
        → Database.continue r f ≡ (ok b, w')
        → (a : A) × (u : World) × (m w ≡ (ok a, u)) × (f a u ≡ (ok b, w'))
    go (ok a, u) e k = (a, u, e, k)
    go (err x, u) e k = cc

module _ {A B : Type 0} (w : World) {b : B} {w' : World} where
  answer-ok :
      (o : Option String) (run : World → Result (A × Db)) (f : A → M B)
      → Database.continue (answer o run w) f ≡ (ok b, w')
      → (a : A) × (db : Db) × (run w ≡ ok (a, db))
        × (f a (record (tick w) { db = db }) ≡ (ok b, w'))
  answer-ok none run f h = go (run w) refl h
    where
      go :
          (r : Result (A × Db))
          → run w ≡ r
          → Database.continue (conclude r w) f ≡ (ok b, w')
          → (a : A) × (db : Db) × (run w ≡ ok (a, db))
            × (f a (record (tick w) { db = db }) ≡ (ok b, w'))
      go (ok (a, db)) e k = (a, db, e, k)
      go (err x) e k = cc
  answer-ok (some text) run f h = cc

  -- A call that succeeds was not refused, and its successor runs on the tables that it left.
  pub statement-ok :
      (run : World → Result (A × Db)) (f : A → M B)
      → (statement run >>= f) w ≡ (ok b, w')
      → (a : A) × (db : Db) × (run w ≡ ok (a, db))
        × (f a (record (tick w) { db = db }) ≡ (ok b, w'))
  unfolding statement
  statement-ok run f h = answer-ok (w.fault w.calls) run f h

  found-ok :
      (r : Option A) (f : A → M B)
      → Database.continue (conclude (Database.found r w.db) w) f ≡ (ok b, w')
      → (a : A) × (r ≡ some a) × (f a (tick w) ≡ (ok b, w'))
  found-ok none f h = cc
  found-ok (some a) f h = (a, refl, h)

  answer_row-ok :
      (o : Option String) (read : World → Option A) (f : A → M B)
      → Database.continue (answer o (read_row read) w) f ≡ (ok b, w')
      → (a : A) × (read w ≡ some a) × (f a (tick w) ≡ (ok b, w'))
  answer_row-ok none read f h = found-ok (read w) f h
  answer_row-ok (some text) read f h = cc

  -- A row that was read is there.
  pub read_row-ok :
      (read : World → Option A) (f : A → M B)
      → (statement (read_row read) >>= f) w ≡ (ok b, w')
      → (a : A) × (read w ≡ some a) × (f a (tick w) ≡ (ok b, w'))
  unfolding statement
  read_row-ok read f h = answer_row-ok (w.fault w.calls) read f h

module _ {B : Type 0} (w : World) {b : B} {w' : World} where
  answer-change-ok :
      (o : Option String) (edit : World → Db) (m : M B)
      → Database.continue (answer o (change edit) w) (λ _. m) ≡ (ok b, w')
      → m (record (tick w) { db = edit w }) ≡ (ok b, w')
  answer-change-ok none edit m h = h
  answer-change-ok (some text) edit m h = cc

  pub change-ok :
      (edit : World → Db) (m : M B)
      → (statement (change edit) >> m) w ≡ (ok b, w')
      → m (record (tick w) { db = edit w }) ≡ (ok b, w')
  unfolding statement
  change-ok edit m h = answer-change-ok (w.fault w.calls) edit m h

  pub require-ok :
      (test : Bool) (text : String) (m : M B)
      → (require test text >> m) w ≡ (ok b, w')
      → (test ≡ true) × (m w ≡ (ok b, w'))
  require-ok true text m h = (refl, h)
  require-ok false text m h = cc

  pub check-ok :
      (o : Option Failure) (m : M B)
      → (check o >> m) w ≡ (ok b, w')
      → (o ≡ none) × (m w ≡ (ok b, w'))
  check-ok none m h = (refl, h)
  check-ok (some e) m h = cc

  rolled_back-ok : (db : Db) (r : Result B × World) → rolled_back db r ≡ (ok b, w') → r ≡ (ok b, w')
  rolled_back-ok db (ok a, u) h = h
  rolled_back-ok db (err e, u) h = cc

  sealed-ok :
      (r : Result B × World)
      → Database.continue r (λ a. mark >> pure a) ≡ (ok b, w')
      → (u : World) × (r ≡ (ok b, u)) × (w' ≡ tick u)
  unfolding statement
  sealed-ok (ok a, u) h = (u, ground arith, ground arith)
  sealed-ok (err e, u) h = cc

  -- A transaction that succeeds ran its calls, between a call to begin and a call to commit.
  pub transaction-ok :
      (body : M B)
      → transaction body w ≡ (ok b, w')
      → (u : World) × (body (tick w) ≡ (ok b, u)) × (w' ≡ tick u)
  unfolding transaction
  transaction-ok body h =
      sealed-ok (body (tick w)) (change-ok (λ u. u.db) _ (rolled_back-ok w.db _ h))

  pub pure-ok : (a : B) → pure a w ≡ (ok b, w') → (a ≡ b) × (w ≡ w')
  pure-ok a h = ground arith
