-- ===== src/Tests/Stores.antt =====
-- The store behind an upload: what is listed, swept and opened, over small trees.
use otdel.Prelude.{
  ℕ, ◌-◌, ◌≡◌, refl, ◌≢◌, true, false, Option, none, some, List, [], ◌∷◌, arith, length, ◌∈◌, All,
  ok,
}
use otdel.Prelude.Text.{codes, text_eq, strip_prefix, split, join, Lacks, bytes}
use otdel.Storage.Key.{FilePath, key_text, parse, is_sha256_hex}
use otdel.Storage.Disk.{Entry, file, dir, Disk, path_eq, lookup, erase, call, stat, remove_file}
use otdel.Storage.Disk.Directories.{child_name, child_names, read_dir}
use otdel.Storage.Fs.{objects_dir, staging_dir, hex_lower}
use otdel.Storage.Fs.Objects.{open_object}
use otdel.Storage.Fs.Objects.Intact.{IsIntact, IsSame, open_object-put_stream}
use otdel.Storage.Fs.Listing.{ObjectListing, examine, scan, walk, list_objects}
use otdel.Storage.Fs.Listing.Listed.{Lacks-HasSegments, Listed, list_objects_ok}
use otdel.Storage.Fs.Listing.Complete.{LeadsToFile, list_objects_complete}
use otdel.Storage.Fs.Listing.Returns.{list_objects_returns}
use otdel.Storage.Fs.Listing.Ends.{list_objects_ends}
use otdel.Storage.Fs.Staging.{StagingSweep, no_sweep, sweep_entries, sweep_staging}
use otdel.Storage.Fs.Staging.Swept.{IsOld, Swept}
use otdel.Storage.Fs.Staging.Returns.{sweep_staging_returns}
use otdel.Storage.Fs.Staging.Cleared.{sweep_staging-Swept}
use otdel.Storage.Fs.Steps.{put, sweep, none_yet, then_one, Steps-IsIntact}
use otdel.Tests.Keys.{bureau_one}
use otdel.Tests.Uploads.{zeros, store, empty_tree, body, name, run, first, after_first, run-first}
use otdel.Tests.Uuids.{uuids, uuids-IsUuidText}

-- Before the first upload there is no object at all.
empty-IsIntact : IsIntact uuids zeros store empty_tree.entries
unfolding lookup
empty-IsIntact raw key place bytes t h r held = absurd (ground (arith, held))

Steps-IsIntact_example :
    IsIntact uuids zeros store (sweep_staging store 3600 (run body empty_tree).1).1.entries
unfolding run
Steps-IsIntact_example =
    Steps-IsIntact uuids zeros store uuids-IsUuidText (refl, refl) {d = empty_tree} empty-IsIntact
      (then_one (then_one none_yet (put name bureau_one body (omega arith) (omega arith)))
        (sweep 3600))

open_object-put_stream_example :
    (object : List ℕ) × (bytes : List ℕ) × (open_object store first.key after_first
      ≡ (ok (record { size_bytes = length object; content = object }), after_first))
    × (◌≡◌ {A = Option (List ℕ)} (some (1 ∷ 2 ∷ 3 ∷ [])) (some bytes))
    × IsSame uuids zeros store object bytes
unfolding run after_first
open_object-put_stream_example =
    open_object-put_stream uuids zeros store uuids-IsUuidText (refl, refl) name bureau_one body
      empty_tree (omega arith) (omega arith) empty-IsIntact {stored = first} {d' = after_first}
      run-first refl

-- Two files in the staging directory, one of them old.
abbrev stale : Disk
stale = record {
  entries =
      (codes "r" ∷ [], dir)
      ∷ (codes "r" ∷ objects_dir ∷ [], dir)
      ∷ (codes "r" ∷ staging_dir ∷ [], dir)
      ∷ (codes "r" ∷ staging_dir ∷ codes "a.part" ∷ [], file (1 ∷ 2 ∷ []) 1)
      ∷ (codes "r" ∷ staging_dir ∷ codes "b.part" ∷ [], file (3 ∷ []) 99)
      ∷ [];
  faults = [];
  clock = 100;
  left_behind = [];
}

sweep_staging-Swept_example :
    Swept
      (codes "r" ∷ staging_dir ∷ [])
      (100 - 50)
      stale.entries
      (sweep_staging store 50 stale).1.entries
sweep_staging-Swept_example = sweep_staging-Swept store 50 stale

abbrev swept : Disk
swept = record stale {
  entries =
      (codes "r" ∷ [], dir)
      ∷ (codes "r" ∷ objects_dir ∷ [], dir)
      ∷ (codes "r" ∷ staging_dir ∷ [], dir)
      ∷ (codes "r" ∷ staging_dir ∷ codes "b.part" ∷ [], file (3 ∷ []) 99)
      ∷ [];
}

sweep_run :
    sweep_staging store 50 stale ≡ (ok (record { removed_files = 1; removed_bytes = 2 }), swept)
unfolding sweep_staging sweep_entries read_dir child_name child_names lookup erase path_eq text_eq
    stat call remove_file
sweep_run = refl

again_run : sweep_staging store 50 swept ≡ (ok no_sweep, swept)
unfolding sweep_staging sweep_entries read_dir child_name child_names lookup erase path_eq text_eq
    stat call remove_file
again_run = refl

-- The one object of the tree after an upload is listed; with a limit of one the listing counts as cut
-- off, though there is no other object.
abbrev one_key : ObjectListing
unfolding first
one_key = record { keys = first.key ∷ []; truncated = false }

abbrev one_key_cut : ObjectListing
unfolding first
one_key_cut = record { keys = first.key ∷ []; truncated = true }

list_run : list_objects uuids 5 store after_first ≡ (ok (some one_key), after_first)
unfolding list_objects walk scan examine read_dir child_name child_names run after_first one_key
    first parse is_sha256_hex split join text_eq strip_prefix uuids key_text hex_lower lookup
    path_eq stat call
list_run = refl

list_cut : list_objects uuids 1 store after_first ≡ (ok (some one_key_cut), after_first)
unfolding list_objects walk scan examine read_dir child_name child_names run after_first one_key_cut
    first parse is_sha256_hex split join text_eq strip_prefix uuids key_text hex_lower lookup
    path_eq stat call
list_cut = refl

segments : All (λ (entry : FilePath × Entry). All (Lacks b'/') entry.0) after_first.entries
unfolding after_first run uuids key_text hex_lower split
segments = omega arith

pub first_parses : parse uuids first.key.raw ≡ ok first.key
unfolding parse is_sha256_hex split text_eq strip_prefix uuids key_text hex_lower first
first_parses = refl

leads : LeadsToFile after_first.entries (codes "r" ∷ objects_dir ∷ []) (split first.key.raw b'/')
unfolding after_first run first split uuids key_text hex_lower lookup path_eq text_eq
leads = (refl, (refl, (refl, (1 ∷ 2 ∷ 3 ∷ [], 7, refl))))

list_objects_ok_example :
    Listed uuids 1 (codes "r" ∷ objects_dir ∷ []) after_first.entries one_key_cut
    × (after_first.entries ≡ after_first.entries)
list_objects_ok_example =
    list_objects_ok uuids 1 store after_first {out = one_key_cut} {d' = after_first}
      (Lacks-HasSegments after_first.entries segments) list_cut

list_objects_complete_example : first.key ∈ one_key.keys
unfolding after_first run one_key
list_objects_complete_example =
    list_objects_complete uuids 5 store after_first {out = one_key} {d' = after_first} first.key.raw
      first.key (omega arith) refl list_run refl first_parses leads

list_objects_ends_example : list_objects uuids 1 store after_first ≢ (ok none, empty_tree)
list_objects_ends_example = list_objects_ends uuids 1 store after_first empty_tree

sweep_staging_returns_example :
    (done : StagingSweep) × (after : Disk) × (sweep_staging store 50 stale ≡ (ok done, after))
    × ¬ IsOld (100 - 50) (lookup (codes "r" ∷ staging_dir ∷ codes "a.part" ∷ []) after.entries)
unfolding lookup path_eq text_eq
sweep_staging_returns_example = sweep_staging_returns store 50 stale (codes "a.part") refl refl

list_objects_returns_example :
    (out : ObjectListing) × (list_objects uuids 5 store stale ≡ (ok (some out), stale))
unfolding lookup path_eq text_eq
list_objects_returns_example = list_objects_returns uuids 5 store stale refl refl
