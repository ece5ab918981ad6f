-- ===== src/Store/Postgres.antt =====
-- server/internal/store/postgres.go: the base64 of public keys, transactions, and the methods of
-- `PostgresStore` over a database that runs statements.
pub mod Base64
pub mod Database
pub mod Transactions
pub mod Rows
pub mod Accounts
pub mod Devices
pub mod Sessions
pub mod Log
pub mod Factors
pub mod Teams
pub mod Workflows
pub mod Expiry
