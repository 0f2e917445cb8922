-- ===== src/Core.antt =====
-- crates/otdel-core: error codes, media types, input validation, the domain model, secrets and the
-- configuration.
pub mod ErrorCode
pub mod AppError
pub mod Media
pub mod Model
pub mod Validate
pub mod Secret
pub mod Config
