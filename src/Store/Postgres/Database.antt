-- ===== src/Store/Postgres/Database.antt =====
-- The database that server/internal/store/postgres.go reaches through its pool, as a parameter: what
-- runs a statement, a query and a transaction. Then `isUnique`, `mapNotFound` and the tests of the
-- number of rows, which the methods repeat.
use multi_desk.Base.{ℕ, String, Option, none, some, List, [], ◌∷◌, Bool, num_eq, if◌then◌else◌}
use multi_desk.Store.Types.{Error, not_found, conflict, other, Result, ok, err}

-- the arguments of a statement and the columns of a row
pub data Value : Type 0 where
  text : String → Value
  bytes : List ℕ → Value
  number : ℕ → Value
  flag : Bool → Value
  instant : ℕ → Value
  texts : List String → Value
  pairs : List (String × String) → Value
  null : Value

-- a unique violation (23505), `pgx.ErrNoRows`, or any other error with its text
pub data Failure : Type 0 where
  unique_violation : Failure
  no_rows : Failure
  trouble : String → Failure

pub data Outcome : Type 0 where
  refused : Failure → Outcome
  affected : ℕ → Outcome

-- what `QueryRow` comes to
pub data Found : Type 0 where
  missed : Failure → Found
  row : List Value → Found

-- What `Query` comes to: an error, or rows, behind which `rows.Err()` may report one.
pub data Rows : Type 0 where
  unread : Failure → Rows
  rows : List (List Value) → Option Failure → Rows

pub record Database (D : Type 0) : Type 0 where
  pub exec : String → List Value → D → D × Outcome
  pub query_row : String → List Value → D → Found
  pub query : String → List Value → D → Rows
  -- the error is `none` where Go returns nil
  pub begin : D → D × Option String
  pub commit : D → D × Option String
  pub rollback : D → D

-- `return err`
unfoldable pub plain : Failure → Error
plain unique_violation = other "duplicate key value violates unique constraint"
plain no_rows = other "no rows in result set"
plain (trouble e) = other e

-- `mapNotFound(err)`
unfoldable pub map_not_found : Failure → Error
map_not_found unique_violation = plain unique_violation
map_not_found no_rows = not_found
map_not_found (trouble e) = plain (trouble e)

-- `if isUnique(err) { return ErrConflict }; return err`
unfoldable pub or_conflict : Outcome → Option Error
or_conflict (refused unique_violation) = some conflict
or_conflict (refused no_rows) = some (plain no_rows)
or_conflict (refused (trouble e)) = some (plain (trouble e))
or_conflict (affected n) = none

-- `if err != nil { return err }; if tag.RowsAffected() == 0 { return ErrNotFound }`
unfoldable pub or_none_affected : Outcome → Option Error
or_none_affected (refused f) = some (plain f)
or_none_affected (affected n) = if num_eq n 0 then some not_found else none

-- `_, err := ...Exec(...); return err`
unfoldable pub or_plain : Outcome → Option Error
or_plain (refused f) = some (plain f)
or_plain (affected n) = none

-- a method that scans one row; `none` where `Scan` does not fit the columns
unfoldable pub scanned : {A : Type 0} → (List Value → Option A) → Found → Result A
scanned scan (missed f) = err (map_not_found f)
scanned scan (row r) = elim (scan r) [ none ↦ err (other "can't scan into dest") | some a ↦ ok a ]

-- the loop over `rows.Next()`
unfoldable pub collect :
    {A : Type 0} → (List Value → Option A) → List (List Value) → Result (List A)
collect scan [] = ok []
collect scan (r ∷ rs) = elim (scan r) [
  | none ↦ err (other "can't scan into dest")
  | some a ↦ elim (collect scan rs) [ err e ↦ err e | ok out ↦ ok (a ∷ out) ]
]

-- `return out, rows.Err()`
unfoldable pub collected : {A : Type 0} → (List Value → Option A) → Rows → Result (List A)
collected scan (unread f) = err (plain f)
collected scan (rows rs none) = collect scan rs
collected scan (rows rs (some f)) = elim (collect scan rs) [
  | err e ↦ err e
  | ok out ↦ err (plain f)
]

module _ {D : Type 0} (db : Database D) where
  -- `Exec` and the reading of its outcome
  unfoldable pub run : (Outcome → Option Error) → String → List Value → D → D × Option Error
  run read statement args d = let (t, o) = db.exec statement args d in (t, read o)
