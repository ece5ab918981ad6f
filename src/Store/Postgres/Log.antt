-- ===== src/Store/Postgres/Log.antt =====
-- The audit log and the presence of `PostgresStore` in server/internal/store/postgres.go. The texts of the statements are the
-- source's, with single blanks.
use multi_desk.Base.{ℕ, String, Option, none, List, [], ◌∷◌, Bool}
use multi_desk.Store.Types.{AuditEvent, Error, Result, ok}
use multi_desk.Store.Postgres.Database.{
  Database, text, number, instant, pairs, run, or_plain, collected,
}
use multi_desk.Store.Postgres.Rows.{of_text, audit_row}

module _ {D : Type 0} (db : Database D) where
  unfoldable pub create_audit : AuditEvent → D → D × Option Error
  create_audit e d =
      run db or_plain
        "INSERT INTO audit_events (id, actor_id, organization_id, action, resource_id, metadata, occurred_at) VALUES ($1, $2, $3, $4, $5, $6, $7)"
        (text e.id
          ∷ text e.actor_id
          ∷ of_text e.organization_id
          ∷ text e.action
          ∷ text e.resource_id
          ∷ pairs e.metadata
          ∷ instant e.occurred_at
          ∷ [])
        d

  unfoldable pub list_audit : String → ℕ → D → Result (List AuditEvent)
  list_audit actor limit d = collected audit_row (
      db.query
        "SELECT id, actor_id, organization_id, action, resource_id, metadata, occurred_at FROM audit_events WHERE actor_id = $1 ORDER BY occurred_at DESC LIMIT $2"
        (text actor ∷ number limit ∷ []) d)

-- presence is left to the Redis decorator
unfoldable pub set_online : {D : Type 0} → String → ℕ → D → D × Option Error
set_online device ttl d = (d, none)

unfoldable pub is_online : {D : Type 0} → String → D → Result Bool
is_online device d = ok Bool.false
