-- ===== src/Store/Postgres/Devices.antt =====
-- Devices of `PostgresStore` in server/internal/store/postgres.go. The texts of the statements are the
-- source's, with single blanks.
use multi_desk.Base.{ℕ, String, Option, none, some, List, [], ◌∷◌}
use multi_desk.Store.Types.{Device, Error, other, Result, err}
use multi_desk.Store.Postgres.Database.{
  Database, text, bytes, instant, run, or_conflict, or_none_affected, scanned, collected,
}
use multi_desk.Store.Postgres.Base64.{public_key_bytes}
use multi_desk.Store.Postgres.Rows.{device_row}

abbrev pub bad_key : Error
bad_key = other "store/postgres: invalid public key"

module _ {D : Type 0} (db : Database D) where
  unfoldable pub create_device : ℕ → Device → D → D × Option Error
  create_device now x d = elim (public_key_bytes x.public_key) [
    | none ↦ (d, some bad_key)
    | some key ↦
        run db or_conflict
          "INSERT INTO devices (id, name, owner_id, public_key, os, created_at) VALUES ($1, $2, $3, $4, $5, $6)"
          (text x.id ∷ text x.name ∷ text x.owner_id ∷ bytes key ∷ text x.os ∷ instant now ∷ []) d
  ]

  unfoldable pub get_device : String → D → Result Device
  get_device id d = scanned device_row (
      db.query_row
        "SELECT id, name, owner_id, public_key, os, revoked_at, created_at FROM devices WHERE id = $1"
        (text id ∷ []) d)

  unfoldable pub get_device_by_public_key : String → D → Result Device
  get_device_by_public_key public_key d = elim (public_key_bytes public_key) [
    | none ↦ err bad_key
    | some key ↦ scanned device_row (
        db.query_row
          "SELECT id, name, owner_id, public_key, os, revoked_at, created_at FROM devices WHERE public_key = $1"
          (bytes key ∷ []) d)
  ]

  unfoldable pub list_devices_by_owner : String → D → Result (List Device)
  list_devices_by_owner owner d = collected device_row (
      db.query
        "SELECT id, name, owner_id, public_key, os, revoked_at, created_at FROM devices WHERE owner_id = $1 ORDER BY name"
        (text owner ∷ []) d)

  unfoldable pub update_device : Device → D → D × Option Error
  update_device x d =
      run db or_none_affected "UPDATE devices SET name = $1, os = $2 WHERE id = $3"
        (text x.name ∷ text x.os ∷ text x.id ∷ []) d

  unfoldable pub revoke_device : String → ℕ → D → D × Option Error
  revoke_device id at d =
      run db or_none_affected "UPDATE devices SET revoked_at = $1 WHERE id = $2"
        (instant at ∷ text id ∷ []) d
