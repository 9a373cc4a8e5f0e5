-- ===== src/Gatepass/Invariant/Shape.antt =====
-- internal/gatepass/store.go: the columns of a row against its status, after each update.
use mgp.Base.{◌≡◌, true, false, ◌&&◌, String, some, arith, eq_iff, ℕ}
use mgp.Base.Text.{is_blank, trim_space}
use mgp.Rbac.{Status, Action, Actor, allows}
use mgp.Database.Tables.{Columns, PassRow}
use mgp.Gatepass.Rows.{with_columns}
use mgp.Gatepass.Store.{context, next_status, is_reject, advance, Stamp}
use mgp.Gatepass.Invariant.{Shape}

pub advance-Shape :
    (row : PassRow) (actor : Actor) (action : Action) (next : Status) (reason : String) (at : Stamp)
    → Shape row
    → allows actor action (context row) ≡ true
    → (is_reject action && is_blank reason) ≡ false
    → next_status action ≡ some next
    → Shape (advance action next actor reason at row)
unfolding advance allows
advance-Shape row actor Action.submit next reason at s g r n = ground arith
advance-Shape row actor Action.approve next reason at s g r n =
    ground (arith, eq_iff row.created_by actor.id)
advance-Shape row actor Action.reject next reason at s g r n =
    ground (arith, eq_iff (trim_space reason) "")
advance-Shape row actor Action.pass_out next reason at s g r n = ground arith
advance-Shape row actor Action.return next reason at s g r n = ground arith
advance-Shape row actor Action.create_draft next reason at s g r n = cc
advance-Shape row actor Action.edit_draft next reason at s g r n = cc
advance-Shape row actor Action.revision next reason at s g r n = cc
advance-Shape row actor (Action.other _) next reason at s g r n = cc

pub with_columns-Shape :
    (row : PassRow) (actor : Actor) (columns : Columns) (now : ℕ)
    → Shape row
    → allows actor Action.edit_draft (context row) ≡ true
    → Shape (with_columns columns now row)
unfolding allows
with_columns-Shape row actor columns now s g = ground arith
