-- ===== src/Storage/Fs/Staging.antt =====
-- crates/otdel-storage/src/fs.rs: `sweep_staging`, the removal of what interrupted uploads left.
pub mod Swept
pub mod Cleared
pub mod Returns
use otdel.Prelude.{
  ℕ, ◌+◌, ◌-◌, ◌%◌, ◌^◌, Bool, true, false, Option, none, some, List, [], ◌∷◌, ◌++◌, ltb,
  if◌then◌else◌, length, ok_or,
}
use otdel.Prelude.Text.{Text}
use otdel.Storage.StorageError.{StorageError, io}
use otdel.Storage.Key.{FilePath}
use otdel.Storage.Disk.{
  Entry, file, dir, other, Disk, Io, call, stat, remove_file, pure, lift, ◌>>=◌, ◌>>◌,
}
use otdel.Storage.Disk.Directories.{read_dir}
use otdel.Storage.Fs.{FilesystemObjectStore}

-- Two `u64` counters.
pub record StagingSweep : Type 0 where
  pub removed_files : ℕ
  pub removed_bytes : ℕ

abbrev pub no_sweep : StagingSweep
no_sweep = record { removed_files = 0; removed_bytes = 0 }

-- One more file, if it was still there.
abbrev counted : ℕ → StagingSweep → Bool → StagingSweep
counted size sweep false = sweep
counted size sweep true = record {
  removed_files = (sweep.removed_files + 1) % 2 ^ 64;
  removed_bytes = (sweep.removed_bytes + size) % 2 ^ 64;
}

remove_old : FilePath → ℕ → StagingSweep → Io StagingSweep
remove_old path size sweep = do
  found ← remove_file "remove staging entry" path
  pure (counted size sweep found)

-- What the metadata of an entry decide: only a regular file that is not younger than the cutoff goes.
sweep_entry : ℕ → FilePath → StagingSweep → Option Entry → Io StagingSweep
unfolding remove_old
sweep_entry cutoff path sweep none = pure sweep
sweep_entry cutoff path sweep (some dir) = pure sweep
sweep_entry cutoff path sweep (some other) = pure sweep
sweep_entry cutoff path sweep (some (file bytes modified)) =
    if ltb cutoff modified then pure sweep else remove_old path (length bytes) sweep

-- The loop over the names. The end of the directory is a call too.
unfoldable pub sweep_entries : FilePath → ℕ → StagingSweep → List Text → Io StagingSweep
unfolding sweep_entry
sweep_entries root cutoff sweep [] = do call "iterate staging directory"; pure sweep
sweep_entries root cutoff sweep (name ∷ names) = do
  call "iterate staging directory"
  found ← stat "stat staging entry" (root ++ name ∷ [])
  swept ← sweep_entry cutoff (root ++ name ∷ []) sweep found
  sweep_entries root cutoff swept names

-- Times count from the epoch, which is 0. For an age beyond the clock `checked_sub` may give a time
-- before the epoch; here the cutoff stops at the epoch.
unfoldable pub sweep_staging : FilesystemObjectStore → ℕ → Io StagingSweep
unfolding sweep_entries
sweep_staging store older_than = do
  listing ← read_dir "read staging directory" store.staging_root
  names ← lift (ok_or listing (io "read staging directory"))
  λ d. sweep_entries store.staging_root (d.clock - older_than) no_sweep names d
