-- ===== src/Storage/Fs/Listing/Returns.antt =====
-- A listing that no call hinders answers.
use otdel.Prelude.{
  ℕ, zero, suc, ◌≡◌, refl, ap, ◌∙◌, subst, inl, inr, Option, none, some, List, [], ◌∷◌, ◌++◌, leb,
  ◌==◌, Bool-cases, Option-cases, length, Result, ok, Result-cases,
}
use otdel.Prelude.Text.{Text, join}
use otdel.Storage.Uuid.{UuidText}
use otdel.Storage.StorageError.{StorageError}
use otdel.Storage.Key.{FilePath, ObjectKey, parse}
use otdel.Storage.Disk.{Entry, file, dir, other, Disk, lookup, continue_with}
use otdel.Storage.Disk.Directories.{child_names, read_dir_healthy}
use otdel.Storage.Disk.Healthy.{call_healthy, stat_healthy}
use otdel.Storage.Fs.{FilesystemObjectStore}
use otdel.Storage.Fs.Listing.{
  ObjectListing, no_objects, Stack, Progress, push_key, going, stopped, examine, scan, scan_dir,
  weight, walk, list_objects,
}
use otdel.Storage.Fs.Listing.Ends.{list_objects_ends}

module _ (U : UuidText) (limit : ℕ) (d : Disk) (healthy : d.faults ≡ []) where
  -- Every directory that waits is there.
  abbrev AllThere : Stack → Type 0
  AllThere [] = Unit
  AllThere ((path, prefix) ∷ stack) = (lookup path d.entries ≡ some dir) × AllThere stack

  abbrev Waiting : Progress → Type 0
  Waiting (going stack listing) = AllThere stack
  Waiting (stopped listing) = Unit

  push_key-Waiting :
      (stack : Stack) (listing : ObjectListing) (key : ObjectKey)
      → AllThere stack
      → Waiting (push_key U limit stack listing key)
  unfolding push_key
  push_key-Waiting stack listing key there =
      elim (Bool-cases (leb limit (length (listing.keys ++ key ∷ [])))) [
        | inl full ↦ rw full tt
        | inr more ↦ rw more there
      ]

  examine-Waiting :
      (path : FilePath) (prefix : List Text) (name : Text) (found : Option Entry) (stack : Stack)
      (listing : ObjectListing)
      → lookup (path ++ name ∷ []) d.entries ≡ found
      → AllThere stack
      → Waiting (examine U limit path prefix name found stack listing)
  unfolding examine
  examine-Waiting path prefix name none stack listing held there = there
  examine-Waiting path prefix name (some other) stack listing held there = there
  examine-Waiting path prefix name (some dir) stack listing held there =
      elim (Bool-cases (leb (length (prefix ++ name ∷ [])) 3)) [
        | inl shallow ↦ rw shallow (held, there)
        | inr deep ↦ rw deep there
      ]
  examine-Waiting path prefix name (some (file content t)) stack listing held there =
      elim (Result-cases (parse U (join (prefix ++ name ∷ []) b'/'))) [
        | inl (key, parsed) ↦
            let e : push_key U limit stack listing key
                ≡ examine U limit path prefix name (some (file content t)) stack listing =
              rw (parsed, examine) refl in
            subst Waiting e (push_key-Waiting stack listing key there)
        | inr (failure, refused) ↦
            let e : going stack listing
                ≡ examine U limit path prefix name (some (file content t)) stack listing =
              rw (refused, examine) refl in
            subst Waiting e there
      ]

  Scanned : Result Progress StorageError × Disk → Type 0
  Scanned r = (progress : Progress) × (r ≡ (ok progress, d)) × Waiting progress

  scan-Scanned :
      (path : FilePath) (prefix names : List Text) (stack : Stack) (listing : ObjectListing)
      → AllThere stack
      → Scanned (scan U limit path prefix names stack listing d)
  unfolding scan Scanned
  scan-Scanned path prefix [] stack listing there =
      (going stack listing, rw (call_healthy "iterate objects directory" d healthy) refl, there)
  scan-Scanned path prefix (name ∷ names) stack listing there =
      let found = lookup (path ++ name ∷ []) d.entries in
      by_progress (examine U limit path prefix name found stack listing) refl
        (examine-Waiting path prefix name found stack listing refl there)
        (λ stack' listing' w. scan-Scanned path prefix names stack' listing' w)
    where
      by_progress :
          (progress : Progress)
          → examine U limit path prefix name (lookup (path ++ name ∷ []) d.entries) stack listing
            ≡ progress
          → Waiting progress
          → ((stack' : Stack) (listing' : ObjectListing)
              → AllThere stack'
              → Scanned (scan U limit path prefix names stack' listing' d))
          → Scanned (scan U limit path prefix (name ∷ names) stack listing d)
      by_progress (stopped full) e w again = (
        stopped full,
        rw
            (
              call_healthy "iterate objects directory" d healthy,
              stat_healthy "stat object entry" (path ++ name ∷ []) d healthy,
              e,
              continue_with,
            )
            refl,
        tt,
      )
      by_progress (going stack' listing') e w again =
          let (progress, run, waits) = again stack' listing' w in
          (
            progress,
            rw
                (
                  call_healthy "iterate objects directory" d healthy,
                  stat_healthy "stat object entry" (path ++ name ∷ []) d healthy,
                )
                (rw (e, continue_with) run),
            waits,
          )

  walk_returns :
      (fuel : ℕ) (stack : Stack) (listing : ObjectListing)
      → AllThere stack
      → (out : Option ObjectListing) × (walk U limit fuel stack listing d ≡ (ok out, d))
  unfolding walk scan_dir Scanned
  walk_returns fuel [] listing there = (some listing, refl)
  walk_returns zero ((path, prefix) ∷ stack) listing there = (none, refl)
  walk_returns (suc fuel) ((path, prefix) ∷ stack) listing (held, there) =
      let (progress, run, waits) =
        scan-Scanned path prefix (child_names path d.entries) stack listing there in
      by_progress progress run waits (λ stack' listing' w. walk_returns fuel stack' listing' w)
    where
      by_progress :
          (progress : Progress)
          → scan U limit path prefix (child_names path d.entries) stack listing d ≡ (ok progress, d)
          → Waiting progress
          → ((stack' : Stack) (listing' : ObjectListing)
              → AllThere stack'
              → (out : Option ObjectListing) × (walk U limit fuel stack' listing' d ≡ (ok out, d)))
          → (out : Option ObjectListing) × (walk U limit
                (suc fuel)
                ((path, prefix) ∷ stack)
                listing
                d
              ≡ (ok out, d))
      by_progress (stopped full) run w again =
          (some full, rw (read_dir_healthy "read objects directory" path d healthy held, run) refl)
      by_progress (going stack' listing') run w again =
          let (out, rest) = again stack' listing' w in
          (out, rw (read_dir_healthy "read objects directory" path d healthy held, run) rest)

-- With no fault to come and an objects directory that is there, list_objects answers with a listing,
-- and leaves the tree as it is.
pub list_objects_returns :
    (U : UuidText) (limit : ℕ) (store : FilesystemObjectStore) (d : Disk)
    → d.faults ≡ []
    → lookup store.objects_root d.entries ≡ some dir
    → (out : ObjectListing) × (list_objects U limit store d ≡ (ok (some out), d))
unfolding list_objects
list_objects_returns U limit store d healthy there = elim (Bool-cases (limit == 0)) [
  | inl nothing ↦ (no_objects, rw nothing refl)
  | inr some_limit ↦
      let (out, run) =
        walk_returns U limit d healthy (weight (length d.entries) 3) ((store.objects_root, []) ∷ [])
          no_objects (there, tt) in
      let answer : list_objects U limit store d ≡ (ok out, d) = rw some_limit run in
      elim (Option-cases out) [
        | inl gone ↦
            absurd (list_objects_ends U limit store d d (answer ∙ ap (λ o. (ok o, d)) gone))
        | inr (listing, found) ↦ (listing, answer ∙ ap (λ o. (ok o, d)) found)
      ]
]
