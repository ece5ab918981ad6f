-- ===== src/Store.antt =====
-- server/internal/store: the domain types of store.go and the in-memory store of memory.go.
pub mod Types
pub mod Interface
pub mod Memory
pub mod Postgres
pub mod Redis
