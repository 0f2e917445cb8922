-- ===== src/Storage/Fs/Staging/Returns.antt =====
-- A sweep that no call hinders succeeds.
use otdel.Prelude.{
  ℕ, ◌-◌, String, ◌≡◌, refl, inl, inr, true, Option, none, some, List, [], ◌∷◌, ◌++◌, ltb,
  Bool-cases, length, ok,
}
use otdel.Prelude.Text.{Text}
use otdel.Storage.Disk.{Entry, file, dir, other, Disk, lookup, erase, call, remove_file}
use otdel.Storage.Disk.Directories.{child_names, read_dir_healthy}
use otdel.Storage.Disk.Healthy.{call_healthy, stat_healthy, Returns}
use otdel.Storage.Fs.{FilesystemObjectStore}
use otdel.Storage.Fs.Staging.{
  StagingSweep, no_sweep, counted, remove_old, sweep_entry, sweep_entries, sweep_staging,
}
use otdel.Storage.Fs.Staging.Swept.{IsOld}
use otdel.Storage.Fs.Staging.Cleared.{sweep_staging_ok}
use otdel.Storage.Key.{FilePath}

remove_old-Returns :
    (path : FilePath) (content : List ℕ) (modified size : ℕ) (sweep : StagingSweep) (d : Disk)
    → d.faults ≡ []
    → lookup path d.entries ≡ some (file content modified)
    → Returns (remove_old path size sweep d)
unfolding remove_old remove_file call
remove_old-Returns path content modified size sweep d healthy held = (
  counted size sweep true,
  record d { entries = erase path d.entries },
  rw (healthy, held) refl,
  healthy,
)

sweep_entry-Returns :
    (cutoff : ℕ) (path : FilePath) (sweep : StagingSweep) (d : Disk)
    → d.faults ≡ []
    → Returns (sweep_entry cutoff path sweep (lookup path d.entries) d)
unfolding sweep_entry
sweep_entry-Returns cutoff path sweep d healthy = by_entry (lookup path d.entries) refl
  where
    by_entry :
        (found : Option Entry)
        → lookup path d.entries ≡ found
        → Returns (sweep_entry cutoff path sweep found d)
    by_entry none held = (sweep, d, refl, healthy)
    by_entry (some dir) held = (sweep, d, refl, healthy)
    by_entry (some other) held = (sweep, d, refl, healthy)
    by_entry (some (file content modified)) held = elim (Bool-cases (ltb cutoff modified)) [
      | inl young ↦ (sweep, d, rw young refl, healthy)
      | inr old ↦
          rw old (remove_old-Returns path content modified (length content) sweep d healthy held)
    ]

sweep_entries-Returns :
    (root : FilePath) (cutoff : ℕ) (sweep : StagingSweep) (names : List Text) (d : Disk)
    → d.faults ≡ []
    → Returns (sweep_entries root cutoff sweep names d)
unfolding sweep_entries
sweep_entries-Returns root cutoff sweep [] d healthy =
    (sweep, d, rw (call_healthy "iterate staging directory" d healthy) refl, healthy)
sweep_entries-Returns root cutoff sweep (name ∷ names) d healthy =
    let path = root ++ name ∷ [] in
    let (swept, d₁, e, h₁) = sweep_entry-Returns cutoff path sweep d healthy in
    let (out, d₂, rest, h₂) = sweep_entries-Returns root cutoff swept names d₁ h₁ in
    (
      out,
      d₂,
      rw
          (
            call_healthy "iterate staging directory" d healthy,
            stat_healthy "stat staging entry" path d healthy,
            e,
          )
          rest,
      h₂,
    )

-- With no fault to come and a staging directory that is there, a sweep succeeds; and then no regular
-- file that had not been modified after the cutoff lies directly in the staging directory.
pub sweep_staging_returns :
    (store : FilesystemObjectStore) (older_than : ℕ) (d : Disk) (name : Text)
    → d.faults ≡ []
    → lookup store.staging_root d.entries ≡ some dir
    → (swept : StagingSweep) × (d' : Disk) × (sweep_staging store older_than d ≡ (ok swept, d'))
      × ¬ IsOld (d.clock - older_than) (lookup (store.staging_root ++ name ∷ []) d'.entries)
unfolding sweep_staging
sweep_staging_returns store older_than d name healthy there =
    let root = store.staging_root in
    let op : String = "read staging directory" in
    let (swept, d', e, h) =
      sweep_entries-Returns root (d.clock - older_than) no_sweep (child_names root d.entries) d
        healthy in
    let run : sweep_staging store older_than d ≡ (ok swept, d') =
      rw (read_dir_healthy op root d healthy there) e in
    (swept, d', run, sweep_staging_ok store older_than d {swept = swept} {d' = d'} run name)
