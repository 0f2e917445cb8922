-- ===== src/Api/Startup/Checked.antt =====
-- When a server starts, and that one that refuses has touched nothing.
use otdel.Prelude.Text.{Text}
use otdel.Prelude.{◌≡◌, inl, inr, ok, err, Result-cases, Message}
use otdel.Core.Config.{Config}
use otdel.Api.Startup.{new_state, refused, opened, build_state}
use otdel.Db.Database.{RoleRow, verify_runtime_role}
use otdel.Db.Database.Checks.{IsRestricted, verify_runtime_role_iff}
use otdel.Db.DbError.{DbError}
use otdel.Storage.Disk.{Disk}
use otdel.Storage.Fs.{FilesystemObjectStore, open_at}
use otdel.Storage.Key.{FilePath}
use otdel.Storage.StorageError.{StorageError}

module _ (display_db : DbError → Message) (display_storage : StorageError → Message)
    (config : Config) (resolve : Text → FilePath) (d : Disk) where
  pub build_state_of :
      (row : RoleRow) {store : FilesystemObjectStore} {d' : Disk}
      → verify_runtime_role row ≡ ok tt
      → open_at (resolve config.storage_root) d ≡ (ok store, d')
      → build_state display_db display_storage config resolve (ok tt) (ok row) d
        ≡ (ok (new_state config store), d')
  unfolding build_state opened
  build_state_of row checked made = rw (checked, build_state, made)

  -- With a role that row-level security does not bind, the server does not start, and has made no
  -- call of the file system.
  pub build_state_unsafe :
      (row : RoleRow)
      → ¬ IsRestricted row
      → (failure : DbError) × (build_state display_db display_storage config resolve
            (ok tt)
            (ok row)
            d
          ≡ (err (refused display_db display_storage failure), d))
  unfolding build_state
  build_state_unsafe row unsafe = elim (Result-cases (verify_runtime_role row)) [
    | inl (u, passed) ↦ absurd (unsafe ((verify_runtime_role_iff row).0 passed))
    | inr (failure, e) ↦ (failure, rw (e, build_state))
  ]
