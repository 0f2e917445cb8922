-- ===== src/Storage/Disk/Directories.antt =====
-- `read_dir`: the names of what lies directly in a directory. The operating system gives them in any
-- order; here it is that of the entries.
use otdel.Prelude.{
  String, ◌≡◌, refl, ◌≢◌, Option, none, some, List, [], ◌∷◌, ◌++◌, arith, if◌then◌else◌, ◌∈◌, ok,
  err,
}
use otdel.Prelude.Text.{Text, text_eq, text_eq_iff, text_eq_refl}
use otdel.Storage.Disk.Entries.{path_eq_iff}
use otdel.Storage.StorageError.{io}
use otdel.Storage.Key.{FilePath}
use otdel.Storage.Disk.{Entry, file, dir, other, Entries, Disk, Io, lookup, call, ◌>>◌}
use otdel.Storage.Disk.Calls.{call-entries, call-clock}

-- The name of a path in a directory, if it lies directly there.
unfoldable pub child_name : FilePath → FilePath → Option Text
child_name [] [] = none
child_name [] (n ∷ []) = some n
child_name [] (n ∷ m ∷ path) = none
child_name (s ∷ parent) [] = none
child_name (s ∷ parent) (t ∷ path) = if text_eq s t then child_name parent path else none

unfoldable pub child_names : FilePath → Entries → List Text
child_names parent [] = []
child_names parent ((path, e) ∷ es) =
    let rest = child_names parent es in
    elim (child_name parent path) [ none ↦ rest | some name ↦ name ∷ rest ]

-- Nothing there is `NotFound`, which is told from other failures; a file there is one of these.
listed : String → FilePath → Option Entry → Io (Option (List Text))
unfolding child_names
listed operation path none d = (ok none, d)
listed operation path (some dir) d = (ok (some (child_names path d.entries)), d)
listed operation path (some (file bytes t)) d = (err (io operation), d)
listed operation path (some other) d = (err (io operation), d)

unfoldable pub read_dir : String → FilePath → Io (Option (List Text))
unfolding call listed
read_dir operation path = do call operation; λ d. listed operation path (lookup path d.entries) d

pub child_name_child :
    (parent : FilePath) (name : Text) → child_name parent (parent ++ name ∷ []) ≡ some name
unfolding child_name
child_name_child [] name = refl
child_name_child (s ∷ parent) name = rw text_eq_refl (child_name_child parent name)

pub child_name-eq_some :
    (parent path : FilePath) {name : Text}
    → child_name parent path ≡ some name
    → path ≡ parent ++ name ∷ []
unfolding child_name
child_name-eq_some [] [] h = cc
child_name-eq_some [] (n ∷ []) h = cc
child_name-eq_some [] (n ∷ m ∷ path) h = cc
child_name-eq_some (s ∷ parent) [] h = cc
child_name-eq_some (s ∷ parent) (t ∷ path) {name} h =
    ground (arith, text_eq_iff s t, child_name-eq_some parent path {name = name})

module _ (parent path : FilePath) (e : Entry) (es : Entries) where
  pub child_names_skip :
      child_name parent path ≡ none → child_names parent ((path, e) ∷ es) ≡ child_names parent es
  unfolding child_names
  child_names_skip h = ground arith

  pub child_names_take :
      {name : Text}
      → child_name parent path ≡ some name
      → child_names parent ((path, e) ∷ es) ≡ name ∷ child_names parent es
  unfolding child_names
  child_names_take h = ground arith

-- Whatever lies directly in the directory is listed.
pub child_names-complete :
    (parent : FilePath) (name : Text) (es : Entries)
    → lookup (parent ++ name ∷ []) es ≢ none
    → name ∈ child_names parent es
unfolding child_names lookup
child_names-complete parent name [] h = h refl
child_names-complete parent name ((path, e) ∷ es) h = ground (
  arith,
  child_name_child parent name,
  path_eq_iff path (parent ++ name ∷ []),
  child_names-complete parent name es,
)

pub read_dir-entries :
    (op : String) (p : FilePath) (d : Disk) → (read_dir op p d).1.entries ≡ d.entries
unfolding read_dir listed
read_dir-entries op p d = ground (arith, call-entries op d)

pub read_dir-clock : (op : String) (p : FilePath) (d : Disk) → (read_dir op p d).1.clock ≡ d.clock
unfolding read_dir listed
read_dir-clock op p d = ground (arith, call-clock op d)

pub read_dir-eq_some :
    (op : String) (p : FilePath) (d : Disk) {names : List Text} {d' : Disk}
    → read_dir op p d ≡ (ok (some names), d')
    → (names ≡ child_names p d.entries) × (d'.entries ≡ d.entries) × (d'.clock ≡ d.clock)
unfolding read_dir listed
read_dir-eq_some op p d h = ground (arith, call-entries op d, call-clock op d)

pub read_dir-eq_none :
    (op : String) (p : FilePath) (d : Disk) {d' : Disk}
    → read_dir op p d ≡ (ok none, d')
    → (lookup p d.entries ≡ none) × (d'.entries ≡ d.entries)
unfolding read_dir listed
read_dir-eq_none op p d h = ground (arith, call-entries op d)

-- With no fault to come, a directory is listed.
pub read_dir_healthy :
    (op : String) (p : FilePath) (d : Disk)
    → d.faults ≡ []
    → lookup p d.entries ≡ some dir
    → read_dir op p d ≡ (ok (some (child_names p d.entries)), d)
unfolding read_dir call listed
read_dir_healthy op p d healthy held = rw (healthy, held) refl
