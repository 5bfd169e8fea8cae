-- ===== src/Sql.antt =====
-- What internal/store uses of SQLite through database/sql: keyed tables, statements that may fail,
-- and transactions that roll back.
pub mod Table
pub mod Order
