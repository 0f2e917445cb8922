-- ===== src/Api/Routes.antt =====
-- crates/otdel-api/src/routes: the handlers, as functions of the tables and the disk.
pub mod Partners
pub mod Materials
pub mod Download
pub mod Published
pub mod Session
pub mod Login
pub mod Health
