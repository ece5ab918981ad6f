-- ===== src/Store/Postgres/Transactions.antt =====
-- `withTx` of server/internal/store/postgres.go.
pub mod Laws
use Prim.Native.String.{◌++◌}
use multi_desk.Base.{ℕ, zero, suc, String, Option, none, some}
use multi_desk.Store.Types.{Error, other}
use multi_desk.Store.Postgres.Database.{Database}

abbrev pub max_attempts : ℕ
max_attempts = 3

-- after a commit that failed: the last attempt returns the error, another goes on
unfoldable pub next_or_error : {D : Type 0} → ℕ → String → D → D × Option Error → D × Option Error
next_or_error zero e d next = (d, some (other ("store/postgres: commit: " ++ e)))
next_or_error (suc n) e d next = next

module _ {D : Type 0} (db : Database D) (fn : D → D × Option Error) where
  -- The loop with so many attempts left. The pause before the next attempt is left out.
  unfoldable pub attempt : ℕ → D → D × Option Error
  attempt zero d = (d, some (other "store/postgres: tx commit failed after retries"))
  attempt (suc n) d =
      let (t, begun) = db.begin d in
      elim begun [
        | some e ↦ (t, some (other ("store/postgres: begin tx: " ++ e)))
        | none ↦
            let (u, ran) = fn t in
            elim ran [
              | some e ↦ (db.rollback u, some e)
              | none ↦
                  let (v, done) = db.commit u in
                  elim done [
                    | none ↦ (v, none)
                    | some e ↦ next_or_error n e (db.rollback v) (attempt n (db.rollback v))
                  ]
            ]
      ]

  unfoldable pub with_tx : D → D × Option Error
  with_tx d = attempt max_attempts d
