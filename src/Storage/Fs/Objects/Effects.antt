-- ===== src/Storage/Fs/Objects/Effects.antt =====
-- What reading, removing and probing do to the tree, whatever they answer.
use otdel.Prelude.{
  ℕ, ◌≡◌, refl, sym, ap, ◌∙◌, ◌≢◌, ◌⊎◌, inl, inr, Option, none, some, List, [], ◌∷◌, ◌++◌, arith,
  length, ok,
}
use otdel.Prelude.Text.{Text, codes}
use otdel.Storage.Key.{ObjectKey, FilePath, resolve_within}
use otdel.Storage.Disk.{
  Entry, file, dir, other, Entries, Disk, lookup, call, stat, create_new, append_file, remove_file,
  lift,
}
use otdel.Storage.Disk.Calls.{
  file_at, bind-ok, stat-eq_ok, bind_from, Same, Same-trans, call-entries, stat-entries,
  create_new-other, append_file-other, remove_file-cases,
}
use otdel.Storage.Fs.{FilesystemObjectStore, drop_guard}
use otdel.Storage.Fs.Failure.{drop_guard-other}
use otdel.Storage.Fs.Objects.{
  ObjectBody, open_object, regular, delete, health, check_directories, directory, write_probe,
  probed,
}

-- Reading changes nothing.
pub open_object-Same :
    (store : FilesystemObjectStore) (key : ObjectKey) (d : Disk)
    → Same d.entries (open_object store key d).1.entries
unfolding open_object
open_object-Same store key d =
    bind_from Same Same-trans (lift (resolve_within key store.objects_root)) _ d refl λ path d₁ e₁.
      bind_from Same Same-trans (stat "stat object" path) _ d₁ (stat-entries "stat object" path d₁)
        λ found d₂ e₂.
          bind_from Same Same-trans (lift (regular key found)) _ d₂ refl λ content d₃ e₃.
            bind_from Same Same-trans (call "open object") _ d₃ (call-entries "open object" d₃)
              λ u d₄ e₄. refl

-- Every file is as before, or is gone.
abbrev pub FilesShrink : Entries → Entries → Type 0
FilesShrink es es' =
    (q : FilePath)
    → (file_at (lookup q es') ≡ file_at (lookup q es)) ⊎ (file_at (lookup q es') ≡ none)

FilesShrink-trans :
    (es es' es'' : Entries) → FilesShrink es es' → FilesShrink es' es'' → FilesShrink es es''
FilesShrink-trans es es' es'' s t q = elim (t q) [
  | inr gone ↦ inr gone
  | inl same ↦ elim (s q) [ inl before ↦ inl (same ∙ before) | inr gone ↦ inr (same ∙ gone) ]
]

pub delete-FilesShrink :
    (store : FilesystemObjectStore) (key : ObjectKey) (d : Disk)
    → FilesShrink d.entries (delete store key d).1.entries
unfolding delete
delete-FilesShrink store key d =
    bind_from FilesShrink FilesShrink-trans (lift (resolve_within key store.objects_root)) _ d
      (λ q. inl refl)
      λ path d₁ e₁.
        bind_from FilesShrink FilesShrink-trans (remove_file "delete object" path) _ d₁
          (λ q. ground (arith, remove_file-cases "delete object" path d₁ q))
          λ found d₂ e₂ q. inl refl

-- A probe changes no other file.
abbrev Keeps : FilePath → Entries → Entries → Type 0
Keeps probe es es' = (q : FilePath) → q ≢ probe → file_at (lookup q es') ≡ file_at (lookup q es)

Keeps-trans :
    (probe : FilePath) (es es' es'' : Entries)
    → Keeps probe es es'
    → Keeps probe es' es''
    → Keeps probe es es''
Keeps-trans probe es es' es'' s t q ne = t q ne ∙ s q ne

Keeps_of_Same : (probe : FilePath) (es es' : Entries) → Same es es' → Keeps probe es es'
Keeps_of_Same probe es es' e q ne = ap (λ es. file_at (lookup q es)) e

check_directories-Same :
    (paths : List FilePath) (d : Disk) → Same d.entries (check_directories paths d).1.entries
unfolding check_directories
check_directories-Same [] d = refl
check_directories-Same (path ∷ paths) d =
    bind_from Same Same-trans (stat "stat storage directory" path) _ d
      (stat-entries "stat storage directory" path d)
      λ found d₁ e₁.
        bind_from Same Same-trans (lift (directory found)) _ d₁ refl
          λ u d₂ e₂. check_directories-Same paths d₂

write_probe-Keeps :
    (probe : FilePath) (d : Disk) → Keeps probe d.entries (write_probe probe d).1.entries
unfolding write_probe
write_probe-Keeps probe d =
    bind_from (Keeps probe) (Keeps-trans probe) (create_new "create staging file" probe) _ d
      (λ q ne. ap file_at (create_new-other "create staging file" probe d q ne))
      λ u d₁ e₁.
        bind_from (Keeps probe) (Keeps-trans probe)
          (append_file "write health probe" probe (codes "ok")) _ d₁
          (λ q ne. ap file_at (append_file-other "write health probe" probe d₁ (codes "ok") q ne))
          λ u d₂ e₂.
            Keeps_of_Same probe d₂.entries (call "flush health probe" d₂).1.entries
              (call-entries "flush health probe" d₂)

pub health-other :
    (store : FilesystemObjectStore) (name : Text) (d : Disk)
    → Keeps (store.staging_root ++ name ∷ []) d.entries (health store name d).1.entries
unfolding health probed
health-other store name d =
    let probe = store.staging_root ++ name ∷ [] in
    let dirs = store.objects_root ∷ store.staging_root ∷ [] in
    bind_from (Keeps probe) (Keeps-trans probe) (check_directories dirs)
      (λ u d'. probed probe (write_probe probe d')) d
      (Keeps_of_Same probe d.entries (check_directories dirs d).1.entries
        (check_directories-Same dirs d))
      λ u d₁ e₁.
        Keeps-trans probe d₁.entries (write_probe probe d₁).1.entries
          (drop_guard probe (write_probe probe d₁).1).entries (write_probe-Keeps probe d₁)
          (drop_guard-other probe (write_probe probe d₁).1)

regular-eq_ok :
    (key : ObjectKey) (o : Option Entry) {content : List ℕ}
    → regular key o ≡ ok content
    → (t : ℕ) × (o ≡ some (file content t))
unfolding regular
regular-eq_ok key none h = absurd (ground (arith, h))
regular-eq_ok key (some dir) h = absurd (ground (arith, h))
regular-eq_ok key (some other) h = absurd (ground (arith, h))
regular-eq_ok key (some (file bytes t)) h = (t, ground (arith, h))

-- What opens is the regular file under the key.
pub open_object-eq_ok :
    (store : FilesystemObjectStore) (key : ObjectKey) (d : Disk) {body : ObjectBody} {d' : Disk}
    → open_object store key d ≡ (ok body, d')
    → (place : FilePath) × (t : ℕ) × (resolve_within key store.objects_root ≡ ok place)
      × (lookup place d.entries ≡ some (file body.content t))
      × (body.size_bytes ≡ length body.content)
unfolding open_object
open_object-eq_ok store key d {body} {d'} h =
    let (place, d₁, e₁, r₁) = bind-ok (lift (resolve_within key store.objects_root)) _ d h in
    let (found, d₂, e₂, r₂) = bind-ok (stat "stat object" place) _ d₁ r₁ in
    let (content, d₃, e₃, r₃) = bind-ok (lift (regular key found)) _ d₂ r₂ in
    let (u, d₄, e₄, r₄) = bind-ok (call "open object") _ d₃ r₃ in
    let (t, is_file) = regular-eq_ok key found (ap (λ r. r.0) e₃) in
    let same : d₁ ≡ d = ap (λ r. r.1) (sym e₁) in
    let sent : record { size_bytes = length content; content = content } ≡ body =
      ground (arith, r₄) in
    (
      place,
      t,
      ap (λ r. r.0) e₁,
      ap (λ d. lookup place d.entries) (sym same)
          ∙ sym (stat-eq_ok "stat object" place d₁ e₂).0
          ∙ is_file
          ∙ ap (λ b. some (file b.content t)) sent,
      ap (λ b. b.size_bytes) (sym sent) ∙ ap (λ b. length b.content) sent,
    )
