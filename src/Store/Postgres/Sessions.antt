-- ===== src/Store/Postgres/Sessions.antt =====
-- Sessions and transfers of `PostgresStore` in server/internal/store/postgres.go. The texts of the statements are the
-- source's, with single blanks.
use multi_desk.Base.{String, Option, List, [], ◌∷◌}
use multi_desk.Store.Types.{Session, TransferRecord, Error, Result}
use multi_desk.Store.Postgres.Database.{
  Database, text, bytes, number, flag, instant, texts, run, or_conflict, or_none_affected, or_plain,
  scanned, collected,
}
use multi_desk.Store.Postgres.Rows.{of_time, session_row}

module _ {D : Type 0} (db : Database D) where
  unfoldable pub create_session : Session → D → D × Option Error
  create_session s d =
      run db or_conflict
        "INSERT INTO device_sessions (id, operator_id, source_device_id, target_device_id, state, requested_permissions, granted_permissions, epoch, created_at, expires_at, recording_consent, chat_enabled) VALUES ($1,$2,$3,$4,$5,$6,$7,$8,$9,$10,$11,$12)"
        (text s.id
          ∷ text s.operator_id
          ∷ text s.source_device_id
          ∷ text s.target_device_id
          ∷ text s.state
          ∷ texts s.requested_perms
          ∷ texts s.granted_perms
          ∷ number s.epoch
          ∷ instant s.created_at
          ∷ instant s.expires_at
          ∷ flag s.recording_consent
          ∷ flag s.chat_enabled
          ∷ [])
        d

  unfoldable pub get_session : String → D → Result Session
  get_session id d = scanned session_row (
      db.query_row
        "SELECT id, operator_id, source_device_id, target_device_id, state, requested_permissions, granted_permissions, epoch, created_at, expires_at, ended_at, recording_consent, chat_enabled, notes_count FROM device_sessions WHERE id = $1"
        (text id ∷ []) d)

  unfoldable pub update_session : Session → D → D × Option Error
  update_session s d =
      run db or_none_affected
        "UPDATE device_sessions SET state = $1, granted_permissions = $2, epoch = $3, expires_at = $4, ended_at = $5, recording_consent = $6, chat_enabled = $7 WHERE id = $8"
        (text s.state
          ∷ texts s.granted_perms
          ∷ number s.epoch
          ∷ instant s.expires_at
          ∷ of_time s.ended_at
          ∷ flag s.recording_consent
          ∷ flag s.chat_enabled
          ∷ text s.id
          ∷ [])
        d

  unfoldable pub list_active_sessions_by_device : String → D → Result (List Session)
  list_active_sessions_by_device device d = collected session_row (
      db.query
        "SELECT id, operator_id, source_device_id, target_device_id, state, requested_permissions, granted_permissions, epoch, created_at, expires_at, ended_at, recording_consent, chat_enabled, notes_count FROM device_sessions WHERE (source_device_id = $1 OR target_device_id = $1) AND state IN ('pending','active') ORDER BY created_at DESC"
        (text device ∷ []) d)

  unfoldable pub list_sessions_by_operator : String → D → Result (List Session)
  list_sessions_by_operator operator d = collected session_row (
      db.query
        "SELECT id, operator_id, source_device_id, target_device_id, state, requested_permissions, granted_permissions, epoch, created_at, expires_at, ended_at, recording_consent, chat_enabled, notes_count FROM device_sessions WHERE operator_id = $1 ORDER BY created_at DESC"
        (text operator ∷ []) d)

  unfoldable pub create_transfer_record : TransferRecord → D → D × Option Error
  create_transfer_record t d =
      run db or_plain
        "INSERT INTO transfer_metadata (id, session_id, basename, size_bytes, sha256, state, created_at) VALUES ($1,$2,$3,$4,$5,$6,$7)"
        (text t.id
          ∷ text t.session_id
          ∷ text t.basename
          ∷ number t.size_bytes
          ∷ bytes t.sha256
          ∷ text t.state
          ∷ instant t.created_at
          ∷ [])
        d

  unfoldable pub update_transfer_record : TransferRecord → D → D × Option Error
  update_transfer_record t d =
      run db or_none_affected "UPDATE transfer_metadata SET state=$1 WHERE id=$2"
        (text t.state ∷ text t.id ∷ []) d
