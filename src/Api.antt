-- ===== src/Api.antt =====
-- crates/otdel-api: the HTTP server.
pub mod Throttle
pub mod ApiError
pub mod Cookie
pub mod Auth
pub mod Intake
pub mod Routes
pub mod Startup
pub mod Extract
