-- ===== src/Tests/Passes.antt =====
-- The life of a pass in the store.
use mgp.Base.{◌≡◌, refl, ok, err, driver, Result, some, find, List, [], ◌∷◌}
use mgp.Base.{◌≢◌}
use mgp.Base.Keys.{Distinct}
use mgp.Base.Text.{trim_space, to_upper}
use mgp.Base.Decimal.{decimal, lpad, iso_date}
use mgp.Rbac.{Action, Actor, Status, allows}
use mgp.Database.{World, statement, transaction}
use mgp.Database.Tables.{Db, PassRow, AuditRow}
use mgp.Gatepass.Domain.{validate_draft}
use mgp.Gatepass.Numbering.{next_pass_number, pass_number}
use mgp.Gatepass.Rows.{
  normalized_copy_type, insert_pass, insert_item, append_audit, columns_of, is_pass,
}
use mgp.Gatepass.Store.{
  create_draft, insert_draft, insert_items, transition_where, transition_row, write_transition,
  update_status, advance,
}
use mgp.Base.{any, false, true, ◌↔◌, ◌&&◌}
use mgp.Base.Text.{is_blank}
use mgp.Gatepass.Rows.{is_user}
use mgp.Gatepass.Store.{context, is_reject, next_status, transition_by_id}
use mgp.Gatepass.Store.Succeeds.{transition_where_iff, create_draft-submit}
use mgp.Base.{All, length, ◌≤◌, pos, not, ◌||◌, ◌==◌}
use mgp.Rbac.{role_equality}
use mgp.Gatepass.Register.Visible.{Lists, list_rows_filtered-Wanted}
use mgp.Gatepass.Calls.{Call, run}
use mgp.Gatepass.Calls.Atomic.{run-atomic}
use mgp.Gatepass.Domain
use mgp.Gatepass.Store.Refines.{domain_action, pass_of, transition_where-refines}
use mgp.Gatepass.Invariant.{Inv, status_of, replay}
use mgp.Gatepass.Invariant.Reachable.{Reach, Reach-Inv}
use mgp.Gatepass.Invariant.Frozen.{Names, SameForm, run-logs, run-frozen}
use mgp.Tests.Data.{order, draft, keeper, issuer, guard, start, faulty, empty, world_of}

unfoldable after : Actor → Call → World → Result (Unit {0}) × World
unfolding run create_draft statement transaction validate_draft insert_draft insert_items
    insert_pass normalized_copy_type insert_item append_audit columns_of next_pass_number
    pass_number transition_where transition_row write_transition update_status advance allows
    trim_space to_upper decimal lpad iso_date
after actor call w = run order actor call w

abbrev created : Db
created = (after keeper (Call.create draft) start).1.db

create_succeeds :
    run order keeper (Call.create draft) start ≡ (ok tt, record start { db = created; calls = 6 })
unfolding after
create_succeeds = refl

create_refused : (run order keeper (Call.create draft) faulty).0 ≡ err (driver "down")
unfolding after
create_refused = refl

abbrev submitted : Db
submitted = (after keeper (Call.act_by_id "p0" Action.submit "") (world_of created)).1.db

submit_runs :
    transition_where (is_pass "p0") keeper Action.submit "" (world_of created)
    ≡ (ok tt, record (world_of created) { db = submitted; calls = 5 })
unfolding after
submit_runs = refl

submit_succeeds : status_of "p0" submitted.passes ≡ some "SUBMITTED"
unfolding after
submit_succeeds = refl

-- The creator cannot approve the pass.
keeper_cannot_approve :
    (after keeper (Call.act_by_id "p0" Action.approve "") (world_of submitted)).0
    ≡ err (mgp.Base.message "actor is not allowed to perform this action")
unfolding after
keeper_cannot_approve = refl

abbrev returned : Db
returned =
    (after guard (Call.act "ASTRA/SRSAM/2026/0001" Action.return "") (
      world_of
        (after guard (Call.act "ASTRA/SRSAM/2026/0001" Action.pass_out "SC-1") (
          world_of
            (after issuer (Call.act "ASTRA/SRSAM/2026/0001" Action.approve "")
              (world_of submitted)).1.db)).1.db)).1.db

return_succeeds : status_of "p0" returned.passes ≡ some "RETURNED"
unfolding after
return_succeeds = refl

empty-Inv : Inv empty
unfolding replay
empty-Inv = record { distinct_ids = tt; distinct_numbers = tt; shapes = tt; trail = λ id. refl }

created-Reach : Reach empty created
unfolding after
created-Reach = Reach.next start order keeper (Call.create draft) Reach.here refl

Reach-Inv_example : Inv (run order keeper (Call.create draft) start).1.db
Reach-Inv_example =
    Reach-Inv empty-Inv (Reach.next start order keeper (Call.create draft) Reach.here refl)

run-atomic_example : (run order keeper (Call.create draft) faulty).1.db ≡ empty
run-atomic_example =
    run-atomic order keeper (Call.create draft) faulty (driver "down") create_refused

run-logs_example :
    (event : AuditRow) × (created.audit_events ≡ event ∷ [])
    × Names keeper (Call.create draft) start event
run-logs_example =
    run-logs order keeper (Call.create draft) start (record start { db = created; calls = 6 })
      create_succeeds

created-Distinct : Distinct (λ r. r.id) created.passes
created-Distinct = (Reach-Inv empty-Inv created-Reach).distinct_ids

transition_where-refines_example :
    (row row' : PassRow) × (find (is_pass "p0") created.passes ≡ some row)
    × (find (is_pass row.id) submitted.passes ≡ some row')
    × (Domain.transition (pass_of [] row) (domain_action Action.submit) keeper.id
        ≡ ok (pass_of [] row'))
transition_where-refines_example =
    transition_where-refines (is_pass "p0") keeper Action.submit "" [] (world_of created)
      (record (world_of created) { db = submitted; calls = 5 }) created-Distinct submit_runs

-- The two calls as a path of the store.
submitted-Reach : Reach empty submitted
unfolding after
submitted-Reach =
    Reach.next (world_of created) order keeper (Call.act_by_id "p0" Action.submit "")
      (Reach.next start order keeper (Call.create draft) Reach.here refl) refl

submitted-Inv : Inv submitted
submitted-Inv = Reach-Inv empty-Inv submitted-Reach

submitted_row :
    (row : PassRow) × (find (is_pass "p0") submitted.passes ≡ some row)
    × (row.status ≢ Status.draft)
unfolding after
submitted_row = (_, refl, λ e. cc)

run-frozen_example :
    (row' : PassRow) × (find
        (is_pass "p0")
        (run order issuer (Call.act_by_id "p0" Action.approve "") (world_of submitted)).1.db.passes
      ≡ some row')
    × SameForm submitted_row.0 row'
run-frozen_example =
    run-frozen "p0" submitted_row.0 (world_of submitted) order issuer
      (Call.act_by_id "p0" Action.approve "") submitted-Inv submitted_row.1 submitted_row.2

created_known : any (is_user keeper.id) created.users ≡ true
unfolding after
created_known = refl

transition_where_iff_example :
    ((transition_where (is_pass "p0") keeper Action.submit "" (world_of created)).0 ≡ ok tt) ↔ (
      (row : PassRow) × (next : Status) × (find (is_pass "p0") created.passes ≡ some row)
      × (allows keeper Action.submit (context row) ≡ true)
      × ((is_reject Action.submit && is_blank "") ≡ false)
      × (next_status Action.submit ≡ some next))
transition_where_iff_example =
    transition_where_iff (is_pass "p0") keeper Action.submit "" (world_of created) (λ n. refl)
      created_known

create_draft_runs :
    create_draft order keeper draft start ≡ (ok "p0", record start { db = created; calls = 6 })
unfolding after
create_draft_runs = refl

create_draft-submit_example :
    (transition_by_id keeper "p0" Action.submit "" (record start { db = created; calls = 6 })).0
    ≡ ok tt
create_draft-submit_example =
    create_draft-submit order keeper draft "p0" start (record start { db = created; calls = 6 })
      (λ n. refl) create_draft_runs

list_rows_filtered-Wanted_example : Lists guard (pos 0) " SRSAM" "" "" (world_of returned)
list_rows_filtered-Wanted_example =
    list_rows_filtered-Wanted guard (pos 0) " SRSAM" "" "" (world_of returned) (λ n. refl)
