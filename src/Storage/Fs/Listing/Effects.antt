-- ===== src/Storage/Fs/Listing/Effects.antt =====
-- The walk over the objects changes nothing, whatever it answers.
use otdel.Prelude.{
  ℕ, zero, suc, refl, inl, inr, Option, none, some, List, [], ◌∷◌, ◌++◌, ◌==◌, Bool-cases, length,
}
use otdel.Prelude.Text.{Text}
use otdel.Storage.Uuid.{UuidText}
use otdel.Storage.Key.{FilePath}
use otdel.Storage.Disk.{Disk, call, stat}
use otdel.Storage.Disk.Calls.{bind_from, Same, Same-trans, call-entries, stat-entries}
use otdel.Storage.Disk.Directories.{read_dir, read_dir-entries}
use otdel.Storage.Fs.{FilesystemObjectStore}
use otdel.Storage.Fs.Listing.{
  ObjectListing, no_objects, Stack, examine, scan, scan_dir, weight, walk, list_objects,
}
use otdel.Storage.Fs.Listing.Ends.{Progress-cases}

module _ (U : UuidText) (limit : ℕ) where
  scan-Same :
      (path : FilePath) (prefix names : List Text) (stack : Stack) (listing : ObjectListing)
      (d : Disk)
      → Same d.entries (scan U limit path prefix names stack listing d).1.entries
  unfolding scan
  scan-Same path prefix [] stack listing d =
      bind_from Same Same-trans (call "iterate objects directory") _ d
        (call-entries "iterate objects directory" d) λ u d₁ e₁. refl
  scan-Same path prefix (name ∷ names) stack listing d =
      bind_from Same Same-trans (call "iterate objects directory") _ d
        (call-entries "iterate objects directory" d)
        λ u d₁ e₁.
          bind_from Same Same-trans (stat "stat object entry" (path ++ name ∷ [])) _ d₁
            (stat-entries "stat object entry" (path ++ name ∷ []) d₁)
            λ found d₂ e₂.
              elim (Progress-cases (examine U limit path prefix name found stack listing)) [
                | inl (full, eq) ↦ rw eq refl
                | inr (stack', listing', eq) ↦
                    rw eq (scan-Same path prefix names stack' listing' d₂)
              ]

  scan_dir-Same :
      (path : FilePath) (prefix : List Text) (found : Option (List Text)) (stack : Stack)
      (listing : ObjectListing) (d : Disk)
      → Same d.entries (scan_dir U limit path prefix found stack listing d).1.entries
  unfolding scan_dir
  scan_dir-Same path prefix none stack listing d = refl
  scan_dir-Same path prefix (some names) stack listing d =
      scan-Same path prefix names stack listing d

  walk-Same :
      (fuel : ℕ) (stack : Stack) (listing : ObjectListing) (d : Disk)
      → Same d.entries (walk U limit fuel stack listing d).1.entries
  unfolding walk
  walk-Same fuel [] listing d = refl
  walk-Same zero ((path, prefix) ∷ stack) listing d = refl
  walk-Same (suc fuel) ((path, prefix) ∷ stack) listing d =
      bind_from Same Same-trans (read_dir "read objects directory" path) _ d
        (read_dir-entries "read objects directory" path d)
        λ found d₁ e₁.
          bind_from Same Same-trans (scan_dir U limit path prefix found stack listing) _ d₁
            (scan_dir-Same path prefix found stack listing d₁)
            λ p d₂ e₂. elim (Progress-cases p) [
              | inl (full, eq) ↦ rw eq refl
              | inr (stack', listing', eq) ↦ rw eq (walk-Same fuel stack' listing' d₂)
            ]

  pub list_objects-Same :
      (store : FilesystemObjectStore) (d : Disk)
      → Same d.entries (list_objects U limit store d).1.entries
  unfolding list_objects
  list_objects-Same store d = elim (Bool-cases (limit == 0)) [
    | inl nothing ↦ rw nothing refl
    | inr more ↦
        rw more
          (walk-Same (weight (length d.entries) 3) ((store.objects_root, []) ∷ []) no_objects d)
  ]
