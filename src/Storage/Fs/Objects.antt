-- ===== src/Storage/Fs/Objects.antt =====
-- crates/otdel-storage/src/fs.rs: what reads, removes and probes, after an upload.
-- A `ReaderStream` is the bytes that it gives.
pub mod Intact
pub mod Effects
use otdel.Prelude.{ℕ, not, Option, none, some, List, [], ◌∷◌, ◌++◌, length, Result, ok, err}
use otdel.Prelude.Text.{Text, codes}
use otdel.Storage.StorageError.{StorageError, invalid_key, not_found, io, unavailable}
use otdel.Storage.Key.{ObjectKey, FilePath, resolve_within}
use otdel.Storage.Disk.{
  Entry, file, dir, other, Disk, Io, call, stat, create_new, append_file, remove_file, pure, lift,
  continue_with, ◌>>=◌, ◌>>◌,
}
use otdel.Storage.Fs.{FilesystemObjectStore, drop_guard}

pub record ObjectBody : Type 0 where
  pub size_bytes : ℕ
  pub content : List ℕ

-- Only a regular file was written by the store.
regular : ObjectKey → Option Entry → Result (List ℕ) StorageError
regular key none = err (not_found key.raw)
regular key (some (file bytes t)) = ok bytes
regular key (some dir) = err (invalid_key "stored path is not a regular file")
regular key (some other) = err (invalid_key "stored path is not a regular file")

-- `open`
unfoldable pub open_object : FilesystemObjectStore → ObjectKey → Io ObjectBody
unfolding regular
open_object store key = do
  path ← lift (resolve_within key store.objects_root)
  found ← stat "stat object" path
  content ← lift (regular key found)
  call "open object"
  pure (record { size_bytes = length content; content = content })

-- `delete`: an object that is not there is no error.
unfoldable pub delete : FilesystemObjectStore → ObjectKey → Io (Unit {0})
delete store key = do
  path ← lift (resolve_within key store.objects_root)
  found ← remove_file "delete object" path
  pure tt

directory : Option Entry → Result (Unit {0}) StorageError
directory none = err (io "stat storage directory")
directory (some dir) = ok tt
directory (some (file bytes t)) = err (unavailable "storage path is not a directory")
directory (some other) = err (unavailable "storage path is not a directory")

-- The loop over the two directories, which are no symbolic links: what `metadata` follows is not here.
check_directories : List FilePath → Io (Unit {0})
unfolding directory
check_directories [] = pure tt
check_directories (path ∷ paths) = do
  found ← stat "stat storage directory" path
  lift (directory found)
  check_directories paths

-- The probe that the guard watches to its end.
write_probe : FilePath → Io (Unit {0})
write_probe probe = do
  create_new "create staging file" probe
  append_file "write health probe" probe (codes "ok")
  call "flush health probe"

-- The guard is never disarmed: the probe is removed whether writing it succeeded or not.
probed : FilePath → Result (Unit {0}) StorageError × Disk → Result (Unit {0}) StorageError × Disk
probed probe (written, d) = (written, drop_guard probe d)

-- `name` is the fresh `health-<uuid>.probe`.
unfoldable pub health : FilesystemObjectStore → Text → Io (Unit {0})
unfolding check_directories write_probe probed
health store name = do
  check_directories (store.objects_root ∷ store.staging_root ∷ [])
  λ d. let probe = store.staging_root ++ name ∷ [] in probed probe (write_probe probe d)
