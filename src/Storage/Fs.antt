-- ===== src/Storage/Fs.antt =====
-- crates/otdel-storage/src/fs.rs: the filesystem object store, over the calls of Storage/Disk.antt.
-- SHA-256 is a parameter: a hasher that is fed chunk by chunk holds the bytes fed so far.
pub mod Bytes
pub mod Failure
pub mod Publish
pub mod Upload
pub mod Objects
pub mod Staging
pub mod Listing
pub mod Steps
use otdel.Prelude.{
  ℕ, ◌+◌, ◌-◌, ◌/◌, ◌%◌, ◌^◌, Bool, true, false, Option, some, List, [], ◌∷◌, ◌++◌, ltb, ◌==◌,
  if◌then◌else◌, length, Result, ok, err,
}
use otdel.Prelude.Text.{Text, codes, bytes}
use otdel.Storage.Uuid.{UuidText}
use otdel.Storage.StorageError.{StreamError, StorageError, invalid_key, not_found, stream, io}
use otdel.Storage.Key.{ObjectNamespace, ObjectKey, FilePath, key_for_digest, resolve_within, parse}
use otdel.Storage.Disk.{
  Entry, file, dir, other, Disk, Io, lookup, insert, erase, call, stat, create_new, append_file,
  rename, remove_file, create_private_dir, pure, lift, continue_with, ◌>>=◌, ◌>>◌,
}

pub record FilesystemObjectStore : Type 0 where
  pub root : FilePath
  pub objects_root : FilePath
  pub staging_root : FilePath

pub record StoredObject : Type 0 where
  pub key : ObjectKey
  pub sha256 : Text
  pub size_bytes : ℕ
  pub already_present : Bool

abbrev pub objects_dir : Text
objects_dir = codes "objects"

abbrev pub staging_dir : Text
staging_dir = codes "staging"

-- A lower-case hexadecimal digit, and `{byte:02x}` for each byte.
abbrev hex_digit : ℕ → ℕ
hex_digit n = if ltb n 10 then b'0' + n else b'a' + (n - 10)

unfoldable pub hex_lower : List ℕ → Text
hex_lower [] = []
hex_lower (byte ∷ bytes) = hex_digit (byte / 16) ∷ hex_digit (byte % 16) ∷ hex_lower bytes

-- `open_at`. The tree has no symbolic links above the root, so canonicalizing changes nothing.
unfoldable pub open_at : FilePath → Io FilesystemObjectStore
open_at root = do
  create_private_dir root
  call "canonicalize storage root"
  create_private_dir (root ++ objects_dir ∷ [])
  create_private_dir (root ++ staging_dir ∷ [])
  pure (record {
    root = root;
    objects_root = root ++ objects_dir ∷ [];
    staging_root = root ++ staging_dir ∷ [];
  })

-- A stream of chunks that may fail on the way.
abbrev pub ByteStream : Type 0
ByteStream = List (Result (List ℕ) StreamError)

-- The loop of `put_stream`: what the hasher has been fed and `size_bytes`, a `u64`.
unfoldable pub write_chunks : FilePath → List ℕ → ℕ → ByteStream → Io (List ℕ × ℕ)
write_chunks staging hashed size [] = pure (hashed, size)
write_chunks staging hashed size (err e ∷ body) = lift (err (stream e))
write_chunks staging hashed size (ok chunk ∷ body) = do
  append_file "write staging file" staging chunk
  write_chunks staging (hashed ++ chunk) ((size + length chunk) % 2 ^ 64) body

-- `already_present`: a regular file of the same size.
unfoldable pub same_size : Option Entry → ℕ → Bool
same_size (some (file bytes t)) size = length bytes == size
same_size _ size = false

-- The drop of an armed `StagingGuard`. A file that cannot be removed is logged and swept later.
guard_removed : FilePath → Result Bool StorageError × Disk → Disk
guard_removed staging (ok found, d) = d
guard_removed staging (err failed, d) = record d { left_behind = staging ∷ d.left_behind }

unfoldable pub drop_guard : FilePath → Disk → Disk
unfolding guard_removed
drop_guard staging d = guard_removed staging (remove_file "remove staging file" staging d)

-- `Path::parent`
abbrev pub parent : FilePath → FilePath
parent [] = []
parent (s ∷ []) = []
parent (s ∷ t ∷ path) = s ∷ parent (t ∷ path)

-- The staging file moves to its place, unless the object is there already: then the guard, which
-- stays armed, removes it.
settle : Bool → FilePath → FilePath → StoredObject → Io (StoredObject × Bool)
settle true staging final stored = pure (stored, true)
settle false staging final stored = do
  rename "publish staging file" staging final
  pure (stored, false)

-- `already_present` is decided by what lies at the final path.
place_object : FilePath → FilePath → ObjectKey → Text → ℕ → Io (StoredObject × Bool)
unfolding settle
place_object staging final key digest size = do
  create_private_dir (parent final)
  existing ← stat "stat stored object" final
  let present = same_size existing size
  settle present staging final
      (record { key = key; sha256 = digest; size_bytes = size; already_present = present })

-- The future of `put_stream` is dropped while it waits for the body: a part of the stream has been
-- written, and the guard runs.
unfoldable pub abandon : FilesystemObjectStore → Text → ByteStream → Disk → Disk
unfolding write_chunks drop_guard
abandon store name received d =
    let staging = store.staging_root ++ name ∷ [] in
    drop_guard staging
      ((do create_new "create staging file" staging; write_chunks staging [] 0 received) d).1

module _ (U : UuidText) (sha256 : List ℕ → List ℕ) (store : FilesystemObjectStore) where
  -- What becomes of a complete staging file: published under its key, or the copy that is there is
  -- used. The flag says whether the guard is still armed.
  unfoldable pub publish : FilePath → ObjectNamespace → List ℕ → ℕ → Io (StoredObject × Bool)
  unfolding place_object
  publish staging ns hashed size = do
    let digest = hex_lower (sha256 hashed)
    key ← lift (key_for_digest U ns digest)
    final ← lift (resolve_within key store.objects_root)
    place_object staging final key digest size

  -- The part of `put_stream` that the guard watches.
  staged : FilePath → ObjectNamespace → ByteStream → Io (StoredObject × Bool)
  unfolding publish write_chunks
  staged staging ns body = do
    create_new "create staging file" staging
    (hashed, size) ← write_chunks staging [] 0 body
    call "flush staging file"
    call "fsync staging file"
    publish staging ns hashed size

  guarded :
      FilePath
      → Result (StoredObject × Bool) StorageError × Disk
      → Result StoredObject StorageError × Disk
  unfolding drop_guard
  guarded staging (err e, d) = (err e, drop_guard staging d)
  guarded staging (ok (stored, true), d) = (ok stored, drop_guard staging d)
  guarded staging (ok (stored, false), d) = (ok stored, d)

  -- `name` is the fresh `<uuid>.part` of the staging file.
  unfoldable pub put_stream : Text → ObjectNamespace → ByteStream → Io StoredObject
  unfolding staged guarded
  put_stream name ns body d =
      let staging = store.staging_root ++ name ∷ [] in guarded staging (staged staging ns body d)
