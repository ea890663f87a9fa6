-- ===== src/Storage.antt =====
-- The SQLite adapters, adapters/sqlite/*.py. A table is its rows in insertion order and the last
-- id that AUTOINCREMENT gave; a statement is a function on it. Times that `CURRENT_TIMESTAMP`
-- writes are seconds, handed in as `now`.
pub mod Events
pub mod Approvals
pub mod Budget
pub mod Memory
