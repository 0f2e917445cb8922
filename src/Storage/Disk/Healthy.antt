-- ===== src/Storage/Disk/Healthy.antt =====
-- Calls with no fault to come.
use otdel.Prelude.{String, ◌≡◌, refl, [], Result, ok}
use otdel.Storage.StorageError.{StorageError}
use otdel.Storage.Key.{FilePath}
use otdel.Storage.Disk.{Disk, lookup, call, stat}

pub call_healthy : (operation : String) (d : Disk) → d.faults ≡ [] → call operation d ≡ (ok tt, d)
unfolding call
call_healthy operation d healthy = rw healthy refl

pub stat_healthy :
    (operation : String) (p : FilePath) (d : Disk)
    → d.faults ≡ []
    → stat operation p d ≡ (ok (lookup p d.entries), d)
unfolding stat
stat_healthy operation p d healthy = rw (call_healthy operation d healthy) refl

-- What returns, with no fault to come.
abbrev pub Returns : {A : Type 0} → Result A StorageError × Disk → Type 0
Returns {A} r = (a : A) × (d' : Disk) × (r ≡ (ok a, d')) × (d'.faults ≡ [])
