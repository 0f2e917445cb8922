-- ===== src/Storage/Disk/Calls.antt =====
-- What each call does to the entries of the file tree, and when a chain of calls succeeds.
use otdel.Prelude.{
  ℕ, String, ◌≡◌, refl, sym, ◌∙◌, ◌≢◌, ◌⊎◌, Bool, Option, none, some, List, [], ◌∷◌, ◌++◌, arith,
  Result, ok, err,
}
use otdel.Prelude.Text.{Text, bytes}
use otdel.Storage.StorageError.{StorageError}
use otdel.Storage.Key.{FilePath}
use otdel.Storage.Disk.{
  Entries, Entry, file, dir, other, Disk, Io, lookup, insert, erase, call, stat, create_new,
  append_file, rename, remove_file, create_dirs, create_private_dir, appended, continue_with, ◌>>=◌,
}
use otdel.Storage.Disk.Entries.{lookup-insert, lookup-erase, path_eq_iff, path_eq_refl, path_ne}

-- The regular file that an entry is.
abbrev pub file_at : Option Entry → Option (List ℕ × ℕ)
file_at (some (file bytes t)) = some (bytes, t)
file_at (some dir) = none
file_at (some other) = none
file_at none = none

-- A chain that succeeds is a first part that succeeds and the rest after it.
pub bind-ok :
    {A B : Type 0} (m : Io A) (f : A → Io B) (d : Disk) {b : B} {d' : Disk}
    → (m >>= f) d ≡ (ok b, d')
    → (a : A) × (d₁ : Disk) × (m d ≡ (ok a, d₁)) × (f a d₁ ≡ (ok b, d'))
bind-ok {A} {B} m f d {b} {d'} h = go (m d) refl h
  where
    go :
        (r : Result A StorageError × Disk)
        → m d ≡ r
        → continue_with r f ≡ (ok b, d')
        → (a : A) × (d₁ : Disk) × (m d ≡ (ok a, d₁)) × (f a d₁ ≡ (ok b, d'))
    go (ok a, d₁) e h = (a, d₁, e, h)
    go (err x, d₁) e h = absurd (ground (arith, h))

-- A transitive relation between trees holds over a chain if it holds over its first part, and over the
-- rest from where that ends.
module _ (R : Entries → Entries → Type 0)
    (R-trans : (es es' es'' : Entries) → R es es' → R es' es'' → R es es'') where
  pub bind_from :
      {A B : Type 0} (m : Io A) (f : A → Io B) (d : Disk)
      → R d.entries (m d).1.entries
      → ((a : A) (d' : Disk) → m d ≡ (ok a, d') → R d'.entries (f a d').1.entries)
      → R d.entries ((m >>= f) d).1.entries
  bind_from {A} {B} m f d first rest = go (m d) refl first
    where
      go :
          (r : Result A StorageError × Disk)
          → m d ≡ r
          → R d.entries r.1.entries
          → R d.entries (continue_with r f).1.entries
      go (ok a, d₁) e s = R-trans d.entries d₁.entries (f a d₁).1.entries s (rest a d₁ e)
      go (err x, d₁) e s = s

-- The tree is the same.
abbrev pub Same : Entries → Entries → Type 0
Same es es' = es' ≡ es

pub Same-trans : (es es' es'' : Entries) → Same es es' → Same es' es'' → Same es es''
Same-trans es es' es'' s t = t ∙ s

pub call-entries : (op : String) (d : Disk) → (call op d).1.entries ≡ d.entries
unfolding call
call-entries op d = ground arith

pub call-clock : (op : String) (d : Disk) → (call op d).1.clock ≡ d.clock
unfolding call
call-clock op d = ground arith

pub call-left_behind : (op : String) (d : Disk) → (call op d).1.left_behind ≡ d.left_behind
unfolding call
call-left_behind op d = ground arith

-- A call that fails leaves the entries as they were; these are the effects of the others.
pub stat-entries : (op : String) (p : FilePath) (d : Disk) → (stat op p d).1.entries ≡ d.entries
unfolding stat
stat-entries op p d = ground (arith, call-entries op d)

pub stat-eq_ok :
    (op : String) (p : FilePath) (d : Disk) {o : Option Entry} {d' : Disk}
    → stat op p d ≡ (ok o, d')
    → (o ≡ lookup p d.entries) × (d'.entries ≡ d.entries)
unfolding stat
stat-eq_ok op p d h = ground (arith, call-entries op d)

module _ (op : String) (p : FilePath) (d : Disk) where
  pub create_new-other :
      (q : FilePath) → q ≢ p → lookup q (create_new op p d).1.entries ≡ lookup q d.entries
  unfolding create_new
  create_new-other q h = ground (
    arith,
    call-entries op d,
    lookup-insert p q (file [] (call op d).1.clock) d.entries,
    path_ne p q,
  )

  pub create_new-eq_ok :
      {u : Unit {0}} {d' : Disk}
      → create_new op p d ≡ (ok u, d')
      → (lookup p d.entries ≡ none)
        × (file_at (lookup p d'.entries) ≡ some ([], (call op d).1.clock))
  unfolding create_new
  create_new-eq_ok h = ground (
    arith,
    call-entries op d,
    lookup-insert p p (file [] (call op d).1.clock) d.entries,
    path_eq_refl p,
  )

  pub append_file-other :
      (bytes : List ℕ) (q : FilePath)
      → q ≢ p
      → lookup q (append_file op p bytes d).1.entries ≡ lookup q d.entries
  unfolding append_file
  append_file-other bytes q h = ground (
    arith,
    call-entries op d,
    path_ne p q,
    lookup-insert p q (appended bytes (call op d).1.clock (lookup p d.entries)) d.entries,
  )

  pub append_file-eq_ok :
      (bytes : List ℕ) {u : Unit {0}} {d' : Disk} {old : List ℕ} {t : ℕ}
      → file_at (lookup p d.entries) ≡ some (old, t)
      → append_file op p bytes d ≡ (ok u, d')
      → (now : ℕ) × (file_at (lookup p d'.entries) ≡ some (old ++ bytes, now))
  unfolding append_file
  append_file-eq_ok chunk h e = (
    (call op d).1.clock,
    ground (
      arith,
      call-entries op d,
      path_eq_refl p,
      lookup-insert p p (appended chunk (call op d).1.clock (lookup p d.entries)) d.entries,
    ),
  )

  pub remove_file-other :
      (q : FilePath) → q ≢ p → lookup q (remove_file op p d).1.entries ≡ lookup q d.entries
  unfolding remove_file
  remove_file-other q h = ground (arith, call-entries op d, path_ne p q, lookup-erase p q d.entries)

  -- Whatever the call answers, a path is as before, or is the one that is gone.
  pub remove_file-cases :
      (q : FilePath)
      → (lookup q (remove_file op p d).1.entries ≡ lookup q d.entries)
        ⊎ (p ≡ q) × (lookup q (remove_file op p d).1.entries ≡ none)
  unfolding remove_file
  remove_file-cases q =
      ground (arith, call-entries op d, path_eq_iff p q, lookup-erase p q d.entries)

  pub remove_file-eq_ok :
      {found : Bool} {d' : Disk} → remove_file op p d ≡ (ok found, d') → lookup p d'.entries ≡ none
  unfolding remove_file
  remove_file-eq_ok h =
      ground (arith, call-entries op d, path_eq_refl p, lookup-erase p p d.entries)

module _ (op : String) (p q : FilePath) (d : Disk) where
  pub rename-err :
      {e : StorageError} {d' : Disk} → rename op p q d ≡ (err e, d') → d'.entries ≡ d.entries
  unfolding rename
  rename-err h = ground (arith, call-entries op d)

  rename-entries :
      {u : Unit {0}} {d' : Disk} {bytes : List ℕ} {t : ℕ}
      → file_at (lookup p d.entries) ≡ some (bytes, t)
      → rename op p q d ≡ (ok u, d')
      → d'.entries ≡ insert q (file bytes t) (erase p d.entries)
  unfolding rename
  rename-entries h e = ground (arith, call-entries op d)

  pub rename-eq_ok :
      {u : Unit {0}} {d' : Disk} {bytes : List ℕ} {t : ℕ}
      → file_at (lookup p d.entries) ≡ some (bytes, t)
      → p ≢ q
      → rename op p q d ≡ (ok u, d')
      → (file_at (lookup q d'.entries) ≡ some (bytes, t))
        × (lookup p d'.entries ≡ none)
        × ((r : FilePath) → r ≢ p → r ≢ q → lookup r d'.entries ≡ lookup r d.entries)
  rename-eq_ok {bytes = content} {t} h ne e =
      let after = rename-entries h e in
      (
        rw (after, lookup-insert, path_eq_refl),
        rw (after, lookup-insert, path_ne q p (λ same. ne (sym same)), lookup-erase, path_eq_refl),
        λ r rp rq. rw (
          after,
          lookup-insert,
          path_ne q r (λ same. rq (sym same)),
          lookup-erase,
          path_ne p r (λ same. rp (sym same)),
        ),
      )

create_dirs-files :
    (op : String) (base : FilePath) (segments : List Text) (d : Disk) (q : FilePath)
    → file_at (lookup q (create_dirs op base segments d).1.entries) ≡ file_at (lookup q d.entries)
unfolding create_dirs
create_dirs-files op base [] d q = refl
create_dirs-files op base (s ∷ ss) d q = ground (
  arith,
  create_dirs-files op (base ++ s ∷ []) ss d q,
  create_dirs-files op (base ++ s ∷ []) ss
      (record d { entries = insert (base ++ s ∷ []) dir d.entries }) q,
  lookup-insert (base ++ s ∷ []) q dir d.entries,
  path_eq_iff (base ++ s ∷ []) q,
)

-- Creating directories touches no file.
pub create_private_dir-files :
    (path : FilePath) (d : Disk) (q : FilePath)
    → file_at (lookup q (create_private_dir path d).1.entries) ≡ file_at (lookup q d.entries)
unfolding create_private_dir
create_private_dir-files path d q = ground (
  arith,
  call-entries "create storage directory" d,
  create_dirs-files "create storage directory" [] path (call "create storage directory" d).1 q,
  call-entries "restrict storage directory"
      (create_dirs "create storage directory" [] path (call "create storage directory" d).1).1,
)
