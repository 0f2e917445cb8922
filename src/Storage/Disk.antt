-- ===== src/Storage/Disk.antt =====
-- What the store sees of the operating system: the entries of a file tree, the calls that may fail,
-- and the log. tokio::fs and std::fs give the same calls; the scheduler between them is left out.
pub mod Entries
pub mod Calls
pub mod Directories
pub mod Healthy
use otdel.Prelude.{
  ℕ, String, Bool, true, false, ◌&&◌, Option, none, some, List, [], ◌∷◌, ◌++◌, Result, ok, err,
  if◌then◌else◌,
}
use otdel.Prelude.Text.{Text, text_eq}
use otdel.Storage.StorageError.{StorageError, io}
use otdel.Storage.Key.{FilePath}

-- A regular file with its bytes and its modification time, a directory, or anything else.
pub data Entry : Type 0 where
  file : List ℕ → ℕ → Entry
  dir other : Entry

unfoldable pub path_eq : FilePath → FilePath → Bool
path_eq [] [] = true
path_eq [] (q ∷ qs) = false
path_eq (p ∷ ps) [] = false
path_eq (p ∷ ps) (q ∷ qs) = text_eq p q && path_eq ps qs

abbrev pub Entries : Type 0
Entries = List (FilePath × Entry)

unfoldable pub lookup : FilePath → Entries → Option Entry
lookup p [] = none
lookup p ((q, e) ∷ es) = if path_eq q p then some e else lookup p es

unfoldable pub insert : FilePath → Entry → Entries → Entries
insert p v [] = (p, v) ∷ []
insert p v ((q, e) ∷ es) = if path_eq q p then (q, v) ∷ es else (q, e) ∷ insert p v es

unfoldable pub erase : FilePath → Entries → Entries
erase p [] = []
erase p ((q, e) ∷ es) = let rest = erase p es in if path_eq q p then rest else (q, e) ∷ rest

-- `faults` says of each coming call whether the operating system fails it; `clock` is its time;
-- `left_behind` is the log of staging files that could not be removed.
pub record Disk : Type 0 where
  pub entries : Entries
  pub faults : List Bool
  pub clock : ℕ
  pub left_behind : List FilePath

abbrev pub Io : Type 0 → Type 0
Io A = Disk → Result A StorageError × Disk

abbrev pub continue_with :
    {A B : Type 0} → Result A StorageError × Disk → (A → Io B) → Result B StorageError × Disk
continue_with (ok a, d) f = f a d
continue_with (err e, d) f = (err e, d)

infixl 5 ◌>>=◌ ◌>>◌
abbrev pub ◌>>=◌ : {A B : Type 0} → Io A → (A → Io B) → Io B
◌>>=◌ m f d = continue_with (m d) f

abbrev pub ◌>>◌ : {B : Type 0} → Io (Unit {0}) → Io B → Io B
m >> k = m >>= λ _. k

abbrev pub pure : {A : Type 0} → A → Io A
pure a d = (ok a, d)

abbrev pub lift : {A : Type 0} → Result A StorageError → Io A
lift r d = (r, d)

-- The call named `operation`, which the operating system may fail.
unfoldable pub call : String → Io (Unit {0})
call operation d = elim d.faults [
  | [] ↦ (ok tt, d)
  | b ∷ rest ↦ (if b then err (io operation) else ok tt, record d { faults = rest })
]

unfoldable pub stat : String → FilePath → Io (Option Entry)
unfolding call
stat operation p = do call operation; λ d. (ok (lookup p d.entries), d)

-- `create_new(true)`: an entry that is there makes the call fail.
unfoldable pub create_new : String → FilePath → Io (Unit {0})
unfolding call
create_new operation p = do
  call operation
  λ d. elim (lookup p d.entries) [
    | none ↦ (ok tt, record d { entries = insert p (file [] d.clock) d.entries })
    | some e ↦ (err (io operation), d)
  ]

-- Bytes written at the end of an open file.
abbrev appended : List ℕ → ℕ → Option Entry → Entry
appended bytes now (some (file old t)) = file (old ++ bytes) now
appended bytes now _ = file bytes now

unfoldable pub append_file : String → FilePath → List ℕ → Io (Unit {0})
unfolding call
append_file operation p bytes = do
  call operation
  λ d. (
    ok tt,
    record d { entries = insert p (appended bytes d.clock (lookup p d.entries)) d.entries },
  )

-- A file moves onto the new path. A directory there makes the call fail; anything else is replaced.
abbrev renamed : String → FilePath → FilePath → Option Entry → Option Entry → Io (Unit {0})
renamed operation p q none target d = (err (io operation), d)
renamed operation p q (some e) (some dir) d = (err (io operation), d)
renamed operation p q (some e) target d =
    (ok tt, record d { entries = insert q e (erase p d.entries) })

unfoldable pub rename : String → FilePath → FilePath → Io (Unit {0})
unfolding call
rename operation p q = do
  call operation
  λ d. renamed operation p q (lookup p d.entries) (lookup q d.entries) d

-- `remove_file`: whether a file was there; a directory makes the call fail.
abbrev removed : String → FilePath → Option Entry → Io Bool
removed operation p none d = (ok false, d)
removed operation p (some dir) d = (err (io operation), d)
removed operation p (some e) d = (ok true, record d { entries = erase p d.entries })

unfoldable pub remove_file : String → FilePath → Io Bool
unfolding call
remove_file operation p = do call operation; λ d. removed operation p (lookup p d.entries) d

-- `create_dir_all`: every missing directory on the way is created; a file on the way fails it.
create_dirs : String → FilePath → List Text → Io (Unit {0})
create_dirs operation base [] d = (ok tt, d)
create_dirs operation base (s ∷ ss) d = elim (lookup (base ++ s ∷ []) d.entries) [
  | none ↦
      create_dirs operation (base ++ s ∷ []) ss
        (record d { entries = insert (base ++ s ∷ []) dir d.entries })
  | some dir ↦ create_dirs operation (base ++ s ∷ []) ss d
  | some e ↦ (err (io operation), d)
]

-- `create_private_dir`: the directories, then the permissions of the last one.
unfoldable pub create_private_dir : FilePath → Io (Unit {0})
unfolding call create_dirs
create_private_dir path = do
  call "create storage directory"
  create_dirs "create storage directory" [] path
  call "restrict storage directory"
