-- ===== src/Storage/Fs/Listing.antt =====
-- crates/otdel-storage/src/fs.rs: `list_objects`, the bounded walk over the stored objects. A name is
-- a text, so the branch for a name that is not UTF-8 does not arise.
pub mod Ends
pub mod Returns
pub mod Rule
pub mod Listed
pub mod Complete
pub mod Effects
use otdel.Prelude.{
  ℕ, zero, suc, ◌+◌, ◌*◌, Bool, true, false, Option, none, some, List, [], ◌∷◌, ◌++◌, leb, ◌==◌,
  if◌then◌else◌, length, ok, err,
}
use otdel.Prelude.Text.{Text, join}
use otdel.Storage.Uuid.{UuidText}
use otdel.Storage.StorageError.{StorageError, io}
use otdel.Storage.Key.{ObjectKey, FilePath, parse}
use otdel.Storage.Disk.{Entry, file, dir, other, Disk, Io, call, stat, pure, lift, ◌>>=◌, ◌>>◌}
use otdel.Storage.Disk.Directories.{read_dir}
use otdel.Storage.Fs.{FilesystemObjectStore}

pub record ObjectListing : Type 0 where
  pub keys : List ObjectKey
  pub truncated : Bool

abbrev pub no_objects : ObjectListing
no_objects = record { keys = []; truncated = false }

-- A directory to visit, with the names that led to it. The top of the stack stands first.
abbrev pub Stack : Type 0
Stack = List (FilePath × List Text)

-- The walk goes on, or has reached the limit.
pub data Progress : Type 0 where
  going : Stack → ObjectListing → Progress
  stopped : ObjectListing → Progress

-- At most so many directories lie at and below one with `levels` levels under it.
abbrev pub weight : ℕ → ℕ → ℕ
weight entries zero = 1
weight entries (suc levels) = 1 + entries * weight entries levels

module _ (U : UuidText) (limit : ℕ) where
  -- One more key, and the end at the limit.
  push_key : Stack → ObjectListing → ObjectKey → Progress
  push_key stack listing key =
      let keys = listing.keys ++ key ∷ [] in
      if leb limit (length keys)
      then stopped (record { keys = keys; truncated = true })
      else going stack (record listing { keys = keys })

  -- What one entry adds.
  unfoldable pub examine :
      FilePath → List Text → Text → Option Entry → Stack → ObjectListing → Progress
  unfolding push_key
  examine path prefix name none stack listing = going stack listing
  examine path prefix name (some dir) stack listing =
      let segments = prefix ++ name ∷ [] in
      if leb (length segments) 3
      then going ((path ++ name ∷ [], segments) ∷ stack) listing
      else going stack listing
  examine path prefix name (some other) stack listing = going stack listing
  examine path prefix name (some (file bytes t)) stack listing =
      elim (parse U (join (prefix ++ name ∷ []) b'/')) [
        | err failure ↦ going stack listing
        | ok key ↦ push_key stack listing key
      ]

  -- The loop over the names of one directory.
  unfoldable pub scan : FilePath → List Text → List Text → Stack → ObjectListing → Io Progress
  unfolding examine
  scan path prefix [] stack listing = do
    call "iterate objects directory"
    pure (going stack listing)
  scan path prefix (name ∷ names) stack listing = do
    call "iterate objects directory"
    found ← stat "stat object entry" (path ++ name ∷ [])
    elim (examine path prefix name found stack listing) [
      | stopped full ↦ pure (stopped full)
      | going stack' listing' ↦ scan path prefix names stack' listing'
    ]

  -- A directory that is gone by now is passed over.
  scan_dir : FilePath → List Text → Option (List Text) → Stack → ObjectListing → Io Progress
  unfolding scan
  scan_dir path prefix none stack listing = pure (going stack listing)
  scan_dir path prefix (some names) stack listing = scan path prefix names stack listing

  -- The loop over the stack; `none` says that the fuel ran out.
  unfoldable pub walk : ℕ → Stack → ObjectListing → Io (Option ObjectListing)
  unfolding scan_dir
  walk fuel [] listing = pure (some listing)
  walk zero ((path, prefix) ∷ stack) listing = pure none
  walk (suc fuel) ((path, prefix) ∷ stack) listing = do
    names ← read_dir "read objects directory" path
    progress ← scan_dir path prefix names stack listing
    elim progress [
      | stopped full ↦ pure (some full)
      | going stack' listing' ↦ walk fuel stack' listing'
    ]

  unfoldable pub list_objects : FilesystemObjectStore → Io (Option ObjectListing)
  unfolding walk
  list_objects store d =
      if limit == 0
      then (ok (some no_objects), d)
      else walk (weight (length d.entries) 3) ((store.objects_root, []) ∷ []) no_objects d
