-- ===== src/Db.antt =====
-- crates/otdel-db: the tables of migrations/0001_schema.sql as lists of rows, transactions and
-- errors. A statement is a function of the tables: PostgreSQL's meaning of its SQL, written out.
pub mod Query
pub mod DbError
pub mod Rows
pub mod Partners
pub mod Materials
pub mod Jobs
pub mod Sessions
pub mod Isolation
pub mod Database
