-- ===== src/Store/Postgres/Accounts.antt =====
-- Accounts and refresh tokens of `PostgresStore` in server/internal/store/postgres.go. The texts of the statements are the
-- source's, with single blanks.
use multi_desk.Base.{ℕ, String, Option, List, [], ◌∷◌}
use multi_desk.Store.Types.{Account, RefreshToken, Error, Result}
use multi_desk.Store.Postgres.Database.{
  Database, text, instant, run, or_conflict, or_none_affected, or_plain, scanned,
}
use multi_desk.Store.Postgres.Rows.{account_row, token_row}

-- `hex.EncodeToString` and `hex.DecodeString`, `none` where it returns an error
pub record Hex : Type 0 where
  pub encode : List ℕ → String
  pub decode : String → Option (List ℕ)

module _ {D : Type 0} (db : Database D) (hex : Hex) where
  unfoldable pub create_account : String → String → String → List ℕ → D → D × Option Error
  create_account id email name password_hash d =
      run db or_conflict
        "INSERT INTO users (id, email, display_name, password_hash) VALUES ($1, $2, $3, $4)"
        (text id ∷ text email ∷ text name ∷ text (hex.encode password_hash) ∷ []) d

  unfoldable pub get_account_by_id : String → D → Result Account
  get_account_by_id id d = scanned (account_row hex.decode) (
      db.query_row
        "SELECT id, email, display_name, password_hash, token_version, email_verified_at, created_at FROM users WHERE id = $1"
        (text id ∷ []) d)

  unfoldable pub get_account_by_email : String → D → Result Account
  get_account_by_email email d = scanned (account_row hex.decode) (
      db.query_row
        "SELECT id, email, display_name, password_hash, token_version, email_verified_at, created_at FROM users WHERE email = $1"
        (text email ∷ []) d)

  unfoldable pub update_password : String → List ℕ → D → D × Option Error
  update_password user password_hash d =
      run db or_none_affected
        "UPDATE users SET password_hash = $1, token_version = token_version + 1 WHERE id = $2"
        (text (hex.encode password_hash) ∷ text user ∷ []) d

module _ {D : Type 0} (db : Database D) where
  unfoldable pub update_account_version : String → D → D × Option Error
  update_account_version user d =
      run db or_none_affected "UPDATE users SET token_version = token_version + 1 WHERE id = $1"
        (text user ∷ []) d

  unfoldable pub set_email_verified : String → ℕ → D → D × Option Error
  set_email_verified user t d =
      run db or_none_affected "UPDATE users SET email_verified_at = $1 WHERE id = $2"
        (instant t ∷ text user ∷ []) d

  -- a token hash is sent and read as bytes
  unfoldable pub create_refresh_token : String → String → String → ℕ → D → D × Option Error
  create_refresh_token hash user family expires d =
      run db or_conflict
        "INSERT INTO refresh_tokens (token_hash, user_id, family_id, expires_at) VALUES ($1, $2, $3, $4)"
        (text hash ∷ text user ∷ text family ∷ instant expires ∷ []) d

  unfoldable pub get_refresh_token : String → D → Result RefreshToken
  get_refresh_token hash d = scanned token_row (
      db.query_row
        "SELECT token_hash, user_id, family_id, expires_at, used_at, revoked_at FROM refresh_tokens WHERE token_hash = $1"
        (text hash ∷ []) d)

  unfoldable pub mark_refresh_token_used : String → ℕ → D → D × Option Error
  mark_refresh_token_used hash at d =
      run db or_none_affected "UPDATE refresh_tokens SET used_at = $1 WHERE token_hash = $2"
        (instant at ∷ text hash ∷ []) d

  unfoldable pub revoke_family : ℕ → String → D → D × Option Error
  revoke_family now family d =
      run db or_plain "UPDATE refresh_tokens SET used_at = $1, revoked_at = $1 WHERE family_id = $2"
        (instant now ∷ text family ∷ []) d
