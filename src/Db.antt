-- ===== src/Db.antt =====
-- backend/db: rooms, rows and the SQL statements.
pub mod Room
pub mod Rows
pub mod Sqlite
pub mod Postgres
pub mod Log
pub mod Contract
pub mod Migrations
pub mod Repository
