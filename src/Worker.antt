-- ===== src/Worker.antt =====
-- crates/otdel-worker/src/lib.rs: one maintenance pass over the sessions, the job queue and the store.
-- A `Duration` is its number of seconds. The database answers: a lost connection does not arise here.
pub mod Orphans
pub mod Pass
use otdel.Prelude.{
  ℕ, ◌+◌, ◌^◌, Bool, Option, none, some, List, [], ◌∷◌, ltb, ◌==◌, if◌then◌else◌, length, Result,
  ok, err, ◌>>=◌, map_err,
}
use otdel.Prelude.Text.{Text}
use otdel.Core.Config.{Config}
use otdel.Core.Model.{DateTime, Material}
use otdel.Db.DbError.{DbError}
use otdel.Db.Jobs.{reclaim_expired_leases}
use otdel.Db.Materials.{find_by_digest}
use otdel.Db.Rows.{Tables, ScopedTx}
use otdel.Db.Sessions.{Bureau, SessionRow, bureau_id_by_slug, purge_expired}
use otdel.Storage.Disk.{Disk}
use otdel.Storage.Fs.{FilesystemObjectStore}
use otdel.Storage.Fs.Listing.{ObjectListing, no_objects, list_objects}
use otdel.Storage.Fs.Staging.{StagingSweep, sweep_staging}
use otdel.Storage.Key.{ObjectNamespace, ObjectKey, namespace, digest}
use otdel.Storage.StorageError.{StorageError}
use otdel.Storage.Uuid.{Uuid, UuidText}

pub record MaintenanceSettings : Type 0 where
  pub interval : ℕ
  pub staging_max_age : ℕ
  pub orphan_scan_limit : ℕ

abbrev pub default_settings : MaintenanceSettings
default_settings = record { interval = 300; staging_max_age = 3600; orphan_scan_limit = 5000 }

pub record MaintenanceReport : Type 0 where
  pub sessions_purged : ℕ
  pub leases_reclaimed : ℕ
  pub staging_files_removed : ℕ
  pub objects_scanned : ℕ
  pub orphan_objects : ℕ
  pub scan_truncated : Bool

pub data MaintenanceError : Type 0 where
  db : DbError → MaintenanceError
  storage : StorageError → MaintenanceError
  bureau_missing : Text → MaintenanceError

-- What a pass works on.
pub record State : Type 0 where
  pub sessions : List SessionRow
  pub tables : Tables
  pub disk : Disk

-- `i32::try_from(..).unwrap_or(7200)`
unfoldable pub idle_timeout : Config → ℕ
idle_timeout config =
    if ltb config.session_idle_timeout (2 ^ 31) then config.session_idle_timeout else 7200

-- A walk always ends with a listing or an error, so the first case does not arise.
abbrev pub listing_or_empty : Option ObjectListing → ObjectListing
listing_or_empty none = no_objects
listing_or_empty (some listing) = listing

module _ (U : UuidText) where
  -- One more orphan, if no material of the bureau refers to the key.
  unreferenced : ScopedTx → ObjectKey → Uuid → ℕ → Result ℕ MaintenanceError
  unreferenced tx key partner_id orphans =
      map_err db (find_by_digest tx partner_id (digest key)) >>= λ referenced. elim referenced [
        | none ↦ ok (orphans + 1)
        | some material ↦ ok orphans
      ]

  -- Another bureau's object is passed over.
  check_key : ScopedTx → ObjectKey → ℕ → Result ℕ MaintenanceError
  unfolding unreferenced
  check_key tx key orphans = map_err storage (namespace U key) >>= λ ns.
      if ns.bureau_id == tx.bureau_id then unreferenced tx key ns.partner_id orphans else ok orphans

  -- The loop over the keys.
  unfoldable pub count_orphans : ScopedTx → List ObjectKey → ℕ → Result ℕ MaintenanceError
  unfolding check_key
  count_orphans tx [] orphans = ok orphans
  count_orphans tx (key ∷ keys) orphans =
      check_key tx key orphans >>= λ counted. count_orphans tx keys counted

  -- The orphans, the number of scanned objects, and whether the scan was cut off.
  unfoldable pub report_orphans :
      MaintenanceSettings
      → FilesystemObjectStore
      → DateTime
      → Uuid
      → Tables
      → Disk
      → Result (ℕ × ℕ × Bool) MaintenanceError × Disk
  unfolding count_orphans
  report_orphans settings store now bureau_id tables d =
      let (listed, d') = list_objects U settings.orphan_scan_limit store d in
      (
        map_err storage listed >>= λ found.
            let listing = listing_or_empty found in
            count_orphans (record { bureau_id = bureau_id; now = now; tables = tables })
              listing.keys 0
            >>= λ orphans. ok (orphans, length listing.keys, listing.truncated),
        d',
      )

  -- What follows the sweep.
  finish :
      MaintenanceSettings
      → FilesystemObjectStore
      → DateTime
      → Uuid
      → ℕ
      → ℕ
      → ℕ
      → State
      → Result MaintenanceReport MaintenanceError × State
  unfolding report_orphans
  finish settings store now bureau_id purged reclaimed removed s =
      let (reported, d) = report_orphans settings store now bureau_id s.tables s.disk in
      (
        reported >>= λ (orphans, scanned, truncated). ok record {
          sessions_purged = purged;
          leases_reclaimed = reclaimed;
          staging_files_removed = removed;
          objects_scanned = scanned;
          orphan_objects = orphans;
          scan_truncated = truncated;
        },
        record s { disk = d },
      )

  -- What follows the transaction on the queue.
  sweep_and_report :
      MaintenanceSettings
      → FilesystemObjectStore
      → DateTime
      → Uuid
      → ℕ
      → ℕ
      → State
      → Result MaintenanceReport MaintenanceError × State
  unfolding finish
  sweep_and_report settings store now bureau_id purged reclaimed s =
      let (swept, d) = sweep_staging store settings.staging_max_age s.disk in
      elim swept [
        | err failure ↦ (err (storage failure), record s { disk = d })
        | ok sweep ↦
            finish settings store now bureau_id purged reclaimed sweep.removed_files
              (record s { disk = d })
      ]

  -- `run_once`. A part that has been done stays done when a later one fails.
  unfoldable pub run_once :
      MaintenanceSettings
      → Config
      → List Bureau
      → FilesystemObjectStore
      → DateTime
      → State
      → Result MaintenanceReport MaintenanceError × State
  unfolding sweep_and_report idle_timeout
  run_once settings config bureaus store now s =
      elim (purge_expired now s.sessions (idle_timeout config)) [
        | err failure ↦ (err (db failure), s)
        | ok (purged, sessions) ↦ elim (bureau_id_by_slug bureaus config.bureau_slug) [
          | none ↦ (err (bureau_missing config.bureau_slug), record s { sessions = sessions })
          | some bureau_id ↦
              let (reclaimed, tx) =
                reclaim_expired_leases
                  (record { bureau_id = bureau_id; now = now; tables = s.tables }) in
              sweep_and_report settings store now bureau_id purged reclaimed
                (record s { sessions = sessions; tables = tx.tables })
        ]
      ]
