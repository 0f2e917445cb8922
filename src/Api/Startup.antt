-- ===== src/Api/Startup.antt =====
-- crates/otdel-api/src/lib.rs: `build_state`, which checks everything before a request is served. The
-- answers of PostgreSQL and the texts that its errors and the store's display are arguments; `resolve`
-- gives the canonical path that the operating system finds for a configured one.
pub mod Checked
use otdel.Prelude.Text.{Text}
use otdel.Prelude.{◌*◌, not, [], ◌∷◌, ◌++◌, Result, ok, err, ◌>>=◌, lit, Message}
use otdel.Core.AppError
use otdel.Core.AppError.{AppError}
use otdel.Core.Config.{Config}
use otdel.Api.Throttle
use otdel.Db.Database.{RoleRow, verify_runtime_role}
use otdel.Db.DbError.{DbError}
use otdel.Storage.Disk.{Disk}
use otdel.Storage.Fs.{FilesystemObjectStore, open_at}
use otdel.Storage.Key.{FilePath}
use otdel.Storage.StorageError.{StorageError}

-- `AppState`, whose pool is the database behind the tables.
pub record AppState : Type 0 where
  pub config : Config
  pub store : FilesystemObjectStore
  pub throttle : Throttle.LoginThrottle

-- `AppState::new`. The configuration counts seconds, the throttle nanoseconds.
abbrev pub new_state : Config → FilesystemObjectStore → AppState
unfolding Throttle.new
new_state config store = record {
  config = config;
  store = store;
  throttle = Throttle.new (record config.login_throttle {
    window = config.login_throttle.window * 1000000000;
    lockout = config.login_throttle.lockout * 1000000000;
  });
}

module _ (display_db : DbError → Message) (display_storage : StorageError → Message) where
  abbrev pub not_connected : DbError → AppError
  not_connected error =
      AppError.internal_error (lit "could not connect to the database: " ∷ display_db error)

  abbrev pub refused : DbError → AppError
  refused error = AppError.internal_error (
      lit "refusing to start with this database role: "
      ∷ (display_db error
          ++ lit
              ". Use the restricted runtime role (OTDEL_DATABASE_URL), not the migration/admin role"
            ∷ []))

  abbrev pub no_store : StorageError → AppError
  no_store error =
      AppError.internal_error (lit "could not open the object store: " ∷ display_storage error)

  opened :
      Config → Result FilesystemObjectStore StorageError × Disk → Result AppState AppError × Disk
  opened config (err failure, d) = (err (no_store failure), d)
  opened config (ok store, d) = (ok (new_state config store), d)

  -- `role` is what the query in `verify_runtime_role` answers.
  unfoldable pub build_state :
      Config
      → (Text → FilePath)
      → Result (Unit {0}) DbError
      → Result RoleRow DbError
      → Disk
      → Result AppState AppError × Disk
  unfolding opened
  build_state config resolve connected role d = elim connected [
    | err failure ↦ (err (not_connected failure), d)
    | ok pool ↦ elim (role >>= verify_runtime_role) [
      | err failure ↦ (err (refused failure), d)
      | ok verified ↦ opened config (open_at (resolve config.storage_root) d)
    ]
  ]
