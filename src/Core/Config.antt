-- ===== src/Core/Config.antt =====
-- crates/otdel-core/src/config.rs: the configuration, read from named values and checked. A
-- `Duration` is its number of seconds. Socket addresses and PHC hashes are read by other code:
-- `parse_addr` stands for `str::parse::<SocketAddr>`, `algorithm` for the name in a parsed hash.
mod Values
mod Parts
pub mod Valid
use otdel.Prelude.{ℕ, Bool, Option, List, [], ◌∷◌, Result, ok, ◌>>=◌, ok_or, lit}
use otdel.Prelude.Text.{Text, codes}
unfoldable pub use Values.*
unfoldable pub use Parts.*
use otdel.Core.AppError
use otdel.Core.AppError.{AppError}

pub record Config : Type 0 where
  pub env : RuntimeEnv
  pub bind_addr : Text
  pub database_url : Text
  pub database_admin_url : Option Text
  pub database_max_connections : ℕ
  pub bureau_slug : Text
  pub owner_password_hash : Text
  pub storage_root : Text
  pub cors_allowed_origins : List Text
  pub session_ttl : ℕ
  pub session_idle_timeout : ℕ
  pub cookie_name : Text
  pub cookie_secure : Bool
  pub max_upload_bytes : ℕ
  pub login_throttle : LoginThrottle
  pub log_filter : Text

unfoldable pub load : (Text → Option Text) → (Text → Option Text) → Source → Result Config AppError
load parse_addr algorithm source = load_env source >>= λ env.
    ok_or (parse_addr (string_or source (codes "OTDEL_BIND_ADDR") (codes "127.0.0.1:18480")))
      (invalid "OTDEL_BIND_ADDR must be an address like 127.0.0.1:18480")
    >>= λ bind_addr. required_secret source (codes "OTDEL_DATABASE_URL") >>= λ database_url.
        load_admin_url source >>= λ admin_url. load_password_hash algorithm source >>= λ hash.
        load_slug source >>= λ slug. load_origins source >>= λ origins.
        load_session source >>= λ session. load_cookie_name source >>= λ cookie_name.
        load_cookie_secure env source >>= λ secure. load_max_upload source >>= λ max_upload.
        load_throttle source >>= λ throttle. load_connections source >>= λ connections. ok record {
          env = env;
          bind_addr = bind_addr;
          database_url = database_url;
          database_admin_url = admin_url;
          database_max_connections = connections;
          bureau_slug = slug;
          owner_password_hash = hash;
          storage_root = string_or source (codes "OTDEL_STORAGE_ROOT") (codes ".local/storage");
          cors_allowed_origins = origins;
          session_ttl = session.0;
          session_idle_timeout = session.1;
          cookie_name = cookie_name;
          cookie_secure = secure;
          max_upload_bytes = max_upload;
          login_throttle = throttle;
          log_filter = string_or source (codes "OTDEL_LOG") (codes "info,otdel_api=info,sqlx=warn");
        }

-- The admin URL, or an error that names the variable.
unfoldable pub require_admin_database_url : Config → Result Text AppError
require_admin_database_url config = ok_or config.database_admin_url (
    AppError.validation (
      lit
        "OTDEL_DATABASE_ADMIN_URL is required for migrations (migrations run as the owning role, never as the RLS-restricted runtime role)"
      ∷ []))
