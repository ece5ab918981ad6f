-- ===== src/Store/Postgres/Factors.antt =====
-- Second factors and e-mail tokens of `PostgresStore` in server/internal/store/postgres.go. The texts of the statements are the
-- source's, with single blanks.
use multi_desk.Base.{ℕ, String, Option, List, [], ◌∷◌}
use multi_desk.Store.Types.{SecondFactor, EmailToken, Error, Result}
use multi_desk.Store.Postgres.Database.{
  Database, text, bytes, instant, run, or_conflict, or_none_affected, or_plain, scanned,
}
use multi_desk.Store.Postgres.Transactions.{with_tx}
use multi_desk.Store.Postgres.Rows.{factor_row, email_token_row}

module _ {D : Type 0} (db : Database D) where
  -- the function that `CreateSecondFactor` runs in a transaction
  unfoldable pub replace_factor : String → String → String → List ℕ → D → D × Option Error
  replace_factor id user kind secret d =
      run db or_conflict
        "INSERT INTO second_factors (id, user_id, kind, encrypted_secret) VALUES ($1, $2, $3, $4)"
        (text id ∷ text user ∷ text kind ∷ bytes secret ∷ [])
        (db.exec "DELETE FROM second_factors WHERE user_id = $1 AND verified_at IS NULL"
          (text user ∷ []) d).0

  unfoldable pub create_second_factor : String → String → String → List ℕ → D → D × Option Error
  create_second_factor id user kind secret d = with_tx db (replace_factor id user kind secret) d

  unfoldable pub get_second_factor : String → D → Result SecondFactor
  get_second_factor user d = scanned factor_row (
      db.query_row
        "SELECT id, user_id, kind, encrypted_secret, verified_at FROM second_factors WHERE user_id = $1 ORDER BY verified_at NULLS LAST LIMIT 1"
        (text user ∷ []) d)

  unfoldable pub verify_second_factor : String → ℕ → D → D × Option Error
  verify_second_factor id at d =
      run db or_none_affected "UPDATE second_factors SET verified_at = $1 WHERE id = $2"
        (instant at ∷ text id ∷ []) d

  unfoldable pub delete_second_factor : String → D → D × Option Error
  delete_second_factor user d =
      run db or_plain "DELETE FROM second_factors WHERE user_id = $1" (text user ∷ []) d

  unfoldable pub create_email_token : String → String → String → ℕ → D → D × Option Error
  create_email_token hash user kind expires d =
      run db or_plain
        "INSERT INTO email_verification_tokens (token_hash, user_id, kind, expires_at) VALUES ($1, $2, $3, $4) ON CONFLICT (token_hash) DO NOTHING"
        (text hash ∷ text user ∷ text kind ∷ instant expires ∷ []) d

  unfoldable pub get_email_token : String → D → Result EmailToken
  get_email_token hash d = scanned email_token_row (
      db.query_row
        "SELECT token_hash, user_id, kind, expires_at FROM email_verification_tokens WHERE token_hash = $1"
        (text hash ∷ []) d)

  unfoldable pub delete_email_token : String → D → D × Option Error
  delete_email_token hash d =
      run db or_plain "DELETE FROM email_verification_tokens WHERE token_hash = $1" (text hash ∷ [])
        d
