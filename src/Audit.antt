-- ===== src/Audit.antt =====
-- internal/audit/store.go: the events that the audit log shows.
pub mod Recent
use mgp.Base.{
  ℕ, Bool, ◌||◌, String, Option, List, map, ltb, if◌then◌else◌, ℤ, pos, negsuc, sort_by, at_most,
  or_empty,
}
use mgp.Rbac.{role_text}
use mgp.Database.{World, M, statement, read_only}
use mgp.Database.Tables.{AuditRow, Db}

pub record Event : Type 0 where
  pub created_at : ℕ
  pub entity_type : String
  pub action : String
  pub actor_role : String
  pub reason : String
  pub metadata : String

-- `limit < 1 || limit > 500`.
abbrev pub recent_limit : ℤ → ℕ
recent_limit (pos n) = if ltb n 1 || ltb 500 n then 100 else n
recent_limit (negsuc _) = 100

abbrev pub event_of : (String × String → String) → AuditRow → Event
event_of json_text row = record {
  created_at = row.created_at;
  entity_type = row.entity_type;
  action = row.action;
  actor_role = role_text row.actor_role;
  reason = or_empty row.reason;
  metadata = json_text row.metadata;
}

-- `ORDER BY created_at DESC`; rows of the same second are kept in the order of the table.
abbrev pub is_newer : AuditRow → AuditRow → Bool
is_newer a b = ltb b.created_at a.created_at

-- `Recent`.
unfoldable pub recent_events : ℤ → M (List Event)
recent_events limit = statement (
    read_only λ w.
      map (event_of w.json_text)
        (at_most (recent_limit limit) (sort_by is_newer w.db.audit_events)))
