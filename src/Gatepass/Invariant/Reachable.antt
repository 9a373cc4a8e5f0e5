-- ===== src/Gatepass/Invariant/Reachable.antt =====
-- internal/gatepass/store.go: sequences of calls by any actors, and the invariant along them.
use mgp.Base.{◌≡◌, refl, sym, subst, ap, ◌∙◌, List, Result, ok, err, none}
use mgp.Rbac.{Actor}
use mgp.Database.{World, pure}
use mgp.Database.Laws.{>>=-ok, pure-ok}
use mgp.Database.Tables.{Db}
use mgp.Gatepass.Domain.{Field}
use mgp.Gatepass.Rows.{is_pass, has_number}
use mgp.Gatepass.Store.{create_draft, create_revision}
use mgp.Gatepass.Store.Effects.{transition_where-ok}
use mgp.Gatepass.Store.Operations.{create_draft-ok, create_revision-ok, update_draft-ok}
use mgp.Gatepass.Calls.{Call, run}
use mgp.Gatepass.Calls.Atomic.{run-atomic}
use mgp.Gatepass.Invariant.{Inv}
use mgp.Gatepass.Invariant.Preserved.{Prepared-Inv, Advanced-Inv, Edited-Inv}

module _ (order : List Field) (actor : Actor) (w : World) (valid : Inv w.db) where
  ok-Inv : (c : Call) (w' : World) → run order actor c w ≡ (ok tt, w') → Inv w'.db
  unfolding run
  ok-Inv (Call.create draft) w' h =
      let (id, u, stored, h₁) = >>=-ok (create_draft order actor draft) (λ _. pure tt) w h in
      let (_, _, p) = create_draft-ok order actor draft w u id stored in
      subst (λ x. Inv x.db) (pure-ok u tt h₁).1
        (Prepared-Inv actor draft w valid none 0 "CREATE_DRAFT" "" id u.db refl p)
  ok-Inv (Call.revise pass_no draft) w' h =
      let (id, u, stored, h₁) =
        >>=-ok (create_revision order actor pass_no draft) (λ _. pure tt) w h in
      let r = create_revision-ok order actor pass_no draft w u id stored in
      subst (λ x. Inv x.db) (pure-ok u tt h₁).1
        (Prepared-Inv actor draft w valid _ _ "CREATE_REVISION" "NOT_APPROVED" id u.db refl
          r.stored)
  ok-Inv (Call.edit id draft) w' h =
      Edited-Inv order actor id draft w w'.db valid (update_draft-ok order actor id draft w w' h)
  ok-Inv (Call.act pass_no action reason) w' h =
      Advanced-Inv (has_number pass_no) actor action reason w w'.db valid
        (transition_where-ok (has_number pass_no) actor action reason w h)
  ok-Inv (Call.act_by_id id action reason) w' h =
      Advanced-Inv (is_pass id) actor action reason w w'.db valid
        (transition_where-ok (is_pass id) actor action reason w h)

  result-Inv : (c : Call) (r : Result (Unit {0}) × World) → run order actor c w ≡ r → Inv r.1.db
  result-Inv c (ok tt, w') h = ok-Inv c w' h
  result-Inv c (err e, w') h =
      subst Inv (sym (run-atomic order actor c w e (ap (λ r. r.0) h)) ∙ ap (λ r. r.1.db) h) valid

  -- Every call keeps the invariant, whether it succeeds or fails.
  pub run-Inv : (c : Call) → Inv (run order actor c w).1.db
  run-Inv c = result-Inv c (run order actor c w) refl

-- The tables that calls lead to: each call runs in a world of its own, with its own clock, faults
-- and foreign functions, on the tables that the calls before it left.
pub data Reach (start : Db) : Db → Type 0 where
  here : Reach start start
  next :
      {db : Db} (w : World) (order : List Field) (actor : Actor) (c : Call)
      → Reach start db
      → w.db ≡ db
      → Reach start (run order actor c w).1.db

-- From tables that satisfy the invariant, any sequence of calls by any actors, at any times and
-- under any faults of the driver, leads to tables that satisfy it: keys and pass numbers are
-- unique; an approved, released or returned pass was approved by somebody else than its creator;
-- a rejected one has a reason; a released one has a security officer; a returned one is returnable
-- and has a receiver; and the audit log of each pass replays, without a gap, to its status.
pub Reach-Inv : {start db : Db} → Inv start → Reach start db → Inv db
Reach-Inv valid here = valid
Reach-Inv valid (next w order actor c before same) =
    run-Inv order actor w (subst Inv (sym same) (Reach-Inv valid before)) c
