-- ===== src/Gatepass/Calls.antt =====
-- The calls that change gate passes, as values: any caller may make any of them, in any order.
pub mod Atomic
use mgp.Base.{String, List, Failure}
use mgp.Rbac.{Action, Actor}
use mgp.Database.{World, M, pure, ◌>>=◌}
use mgp.Database.Tables.{Db}
use mgp.Gatepass.Domain.{Draft, Field}
use mgp.Gatepass.Store.{create_draft, create_revision, update_draft, transition, transition_by_id}

pub data Call : Type 0 where
  create : Draft → Call
  revise : String → Draft → Call
  edit : String → Draft → Call
  act : String → Action → String → Call
  act_by_id : String → Action → String → Call

-- A call by an actor; the key that two of them return is dropped.
unfoldable pub run : List Field → Actor → Call → M (Unit {0})
run order actor (Call.create draft) = create_draft order actor draft >>= λ _. pure tt
run order actor (Call.revise pass_no draft) =
    create_revision order actor pass_no draft >>= λ _. pure tt
run order actor (Call.edit id draft) = update_draft order actor id draft
run order actor (Call.act pass_no action reason) = transition actor pass_no action reason
run order actor (Call.act_by_id id action reason) = transition_by_id actor id action reason
