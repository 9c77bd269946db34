-- ===== src/Db.antt =====
-- The document store: JSON values, the filter grammar, the in-memory backend, and the update that a
-- patch writes (db/, db/memdb/).
pub mod Value
pub mod Filter
pub mod Memdb
pub mod Diff
pub mod Service
pub mod Uuid
pub mod Flight
pub mod Coherence
pub mod Sql
pub mod Sqlite
pub mod Pg
mod Tests
