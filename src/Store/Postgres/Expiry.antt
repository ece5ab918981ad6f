-- ===== src/Store/Postgres/Expiry.antt =====
-- `runExpiry` of server/internal/store/postgres.go: its four statements run one after the other, each
-- whatever became of the one before. The loop that calls it every minute is left out.
use multi_desk.Base.{ℕ, ◌-◌, ◌*◌, [], ◌∷◌}
use multi_desk.Security.{hour}
use multi_desk.Store.Postgres.Database.{Database, instant}

module _ {D : Type 0} (db : Database D) where
  unfoldable pub run_expiry : ℕ → D → D
  run_expiry now d =
      let a =
        (db.exec
          "UPDATE device_sessions SET state='expired', ended_at=$1 WHERE state IN ('pending','active') AND expires_at <= $1"
          (instant now ∷ []) d).0 in
      let b =
        (db.exec "DELETE FROM refresh_tokens WHERE expires_at < $1" (instant (now - 24 * hour) ∷ [])
          a).0 in
      let c =
        (db.exec "DELETE FROM email_verification_tokens WHERE expires_at < $1" (instant now ∷ [])
          b).0 in
      (db.exec "DELETE FROM org_invites WHERE expires_at < $1 AND accepted_at IS NULL"
        (instant now ∷ []) c).0
