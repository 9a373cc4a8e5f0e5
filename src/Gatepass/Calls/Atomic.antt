-- ===== src/Gatepass/Calls/Atomic.antt =====
-- internal/gatepass/store.go: the calls under a driver that refuses some statement.
use mgp.Base.{
  ◌≡◌, refl, Bool, true, false, ◌∙◌, String, Option, none, some, List, Failure, Result, ok, err,
  arith,
}
use mgp.Rbac.{Actor}
use mgp.Database.{World, M, pure, ◌>>=◌, ◌>>◌, require, check, transaction, continue}
use mgp.Database.Laws.{transaction-err}
use mgp.Gatepass.Domain.{Field}
use mgp.Gatepass.Store.{create_draft, create_revision, update_draft, transition_where}
use mgp.Gatepass.Calls.{Call, run}

-- An action that fails, when it starts at `w`, leaves the tables as they were.
record IsAtomic {A : Type 0} (w : World) (m : M A) : Type 0 where
  keeps : (e : Failure) → (m w).0 ≡ err e → (m w).1.db ≡ w.db

module _ {A : Type 0} (w : World) where
  transaction-IsAtomic : (body : M A) → IsAtomic w (transaction body)
  transaction-IsAtomic body = record { keeps = λ e h. transaction-err body w h }

  check-IsAtomic : (o : Option Failure) (m : M A) → IsAtomic w m → IsAtomic w (check o >> m)
  check-IsAtomic none m h = record { keeps = h.keeps }
  check-IsAtomic (some x) m h = record { keeps = λ e k. refl }

  require-IsAtomic :
      (b : Bool) (text : String) (m : M A) → IsAtomic w m → IsAtomic w (require b text >> m)
  require-IsAtomic true text m h = record { keeps = h.keeps }
  require-IsAtomic false text m h = record { keeps = λ e k. refl }

  forgotten :
      (r : Result A × World) (e : Failure)
      → (continue r (λ _. pure {A = Unit {0}} tt)).0 ≡ err e
      → (r.0 ≡ err e) × ((continue r (λ _. pure {A = Unit {0}} tt)).1.db ≡ r.1.db)
  forgotten (ok a, u) e h = cc
  forgotten (err x, u) e h = (ground arith, refl)

  forget-IsAtomic : (m : M A) → IsAtomic w m → IsAtomic w (m >>= λ _. pure {A = Unit {0}} tt)
  forget-IsAtomic m h = record {
    keeps = λ e k. let (failed, same) = forgotten (m w) e k in same ∙ h.keeps e failed;
  }

ruleset atomic_rules = (transaction-IsAtomic, check-IsAtomic, require-IsAtomic, forget-IsAtomic)

run-IsAtomic :
    (order : List Field) (actor : Actor) (c : Call) (w : World) → IsAtomic w (run order actor c)
unfolding run create_draft create_revision update_draft transition_where
run-IsAtomic order actor (Call.create draft) w = search atomic_rules
run-IsAtomic order actor (Call.revise pass_no draft) w = search atomic_rules
run-IsAtomic order actor (Call.edit id draft) w = search atomic_rules
run-IsAtomic order actor (Call.act pass_no action reason) w = search atomic_rules
run-IsAtomic order actor (Call.act_by_id id action reason) w = search atomic_rules

-- Whatever the actor and the call, and whichever statement the driver refuses, a call that returns
-- an error leaves every table as it was.
pub run-atomic :
    (order : List Field) (actor : Actor) (c : Call) (w : World) (e : Failure)
    → (run order actor c w).0 ≡ err e
    → (run order actor c w).1.db ≡ w.db
run-atomic order actor c w e h = (run-IsAtomic order actor c w).keeps e h
