-- ===== src/Storage/Fs/Failure.antt =====
-- `put_stream` that fails leaves no trace: no file is changed and the staging file is removed.
use otdel.Prelude.{
  ℕ, ◌+◌, ◌%◌, ◌^◌, String, ◌≡◌, refl, ap, ◌∙◌, ◌≢◌, ◌⊎◌, inl, inr, Bool, true, false, none, List,
  [], ◌∷◌, ◌++◌, arith, length, Result, ok, err,
}
use otdel.Prelude.Text.{Text}
use otdel.Storage.Uuid.{UuidText}
use otdel.Storage.StorageError.{StorageError}
use otdel.Storage.Key.{ObjectNamespace, ObjectKey, FilePath, key_for_digest, resolve_within}
use otdel.Storage.Disk.{
  Entries, Disk, Io, lookup, call, stat, create_new, append_file, rename, remove_file,
  create_private_dir, pure, lift, continue_with, ◌>>=◌,
}
use otdel.Storage.Disk.Calls.{
  file_at, call-entries, stat-entries, create_new-other, append_file-other, remove_file-other,
  remove_file-eq_ok, rename-err, create_private_dir-files,
}
use otdel.Storage.Fs.{
  FilesystemObjectStore, StoredObject, ByteStream, write_chunks, drop_guard, guard_removed, settle,
  place_object, parent, publish, staged, guarded, put_stream, abandon, hex_lower,
}

-- Every file but the one at `staging` is the same in both trees.
abbrev pub FilesKept : FilePath → Entries → Entries → Type 0
FilesKept staging es es' =
    (q : FilePath) → q ≢ staging → file_at (lookup q es') ≡ file_at (lookup q es)

module _ (staging : FilePath) where
  -- A computation that keeps the files, and one that keeps them if it fails.
  abbrev Keeps : {A : Type 0} → Io A → Type 0
  Keeps m = (d : Disk) → FilesKept staging d.entries (m d).1.entries

  abbrev KeepsOnErr : {A : Type 0} → Io A → Type 0
  KeepsOnErr m =
      (d : Disk) (e : StorageError) (d' : Disk)
      → m d ≡ (err e, d')
      → FilesKept staging d.entries d'.entries

  bind-Keeps :
      {A B : Type 0} (m : Io A) (f : A → Io B) → Keeps m → ((a : A) → Keeps (f a)) → Keeps (m >>= f)
  bind-Keeps {A} {B} m f km kf d q h = go (m d) (km d q h)
    where
      go :
          (r : Result A StorageError × Disk)
          → file_at (lookup q r.1.entries) ≡ file_at (lookup q d.entries)
          → file_at (lookup q (continue_with r f).1.entries) ≡ file_at (lookup q d.entries)
      go (ok a, d₁) e = kf a d₁ q h ∙ e
      go (err x, d₁) e = e

  bind-KeepsOnErr :
      {A B : Type 0} (m : Io A) (f : A → Io B)
      → Keeps m
      → ((a : A) → KeepsOnErr (f a))
      → KeepsOnErr (m >>= f)
  bind-KeepsOnErr {A} {B} m f km kf d e d' h q ne = go (m d) h (km d q ne)
    where
      go :
          (r : Result A StorageError × Disk)
          → continue_with r f ≡ (err e, d')
          → file_at (lookup q r.1.entries) ≡ file_at (lookup q d.entries)
          → file_at (lookup q d'.entries) ≡ file_at (lookup q d.entries)
      go (ok a, d₁) h k = kf a d₁ e d' h q ne ∙ k
      go (err x, d₁) h k = ground (arith, h, k)

  Keeps-OnErr : {A : Type 0} (m : Io A) → Keeps m → KeepsOnErr m
  Keeps-OnErr m k d e d' h q ne = rw h at (k d q ne)

  call-Keeps : (op : String) → Keeps (call op)
  call-Keeps op d q h = rw (call-entries op d)

  write_chunks-Keeps :
      (hashed : List ℕ) (size : ℕ) (body : ByteStream)
      → Keeps (write_chunks staging hashed size body)
  unfolding write_chunks
  write_chunks-Keeps hashed size [] d q h = refl
  write_chunks-Keeps hashed size (err e ∷ body) d q h = refl
  write_chunks-Keeps hashed size (ok chunk ∷ body) d q h =
      bind-Keeps (append_file "write staging file" staging chunk) _
        (λ d q h. rw (append_file-other "write staging file" staging d chunk q h))
        (λ u. write_chunks-Keeps (hashed ++ chunk) ((size + length chunk) % 2 ^ 64) body) d q h

  bind-pure-KeepsOnErr :
      {A B : Type 0} (m : Io A) (g : A → B) → KeepsOnErr m → KeepsOnErr (m >>= λ a. pure (g a))
  bind-pure-KeepsOnErr {A} {B} m g k d e d' h = go (m d) refl h
    where
      go :
          (r : Result A StorageError × Disk)
          → m d ≡ r
          → continue_with {B = B} r (λ a. pure (g a)) ≡ (err e, d')
          → FilesKept staging d.entries d'.entries
      go (ok a, d₁) eq h = absurd (ground (arith, h))
      go (err x, d₁) eq h = k d e d' (ground (arith, eq, h))

  settle-KeepsOnErr :
      (present : Bool) (final : FilePath) (stored : StoredObject)
      → KeepsOnErr (settle present staging final stored)
  unfolding settle
  settle-KeepsOnErr true final stored = λ d e d' h. absurd (ground (arith, h))
  settle-KeepsOnErr false final stored =
      bind-pure-KeepsOnErr (rename "publish staging file" staging final) (λ u. (stored, false))
        (λ d e d' h q ne. rw (rename-err "publish staging file" staging final d h))

  place_object-KeepsOnErr :
      (final : FilePath) (key : ObjectKey) (digest : Text) (size : ℕ)
      → KeepsOnErr (place_object staging final key digest size)
  unfolding place_object
  place_object-KeepsOnErr final key digest size =
      bind-KeepsOnErr (create_private_dir (parent final)) _
        (λ d q h. create_private_dir-files (parent final) d q)
        λ u.
          bind-KeepsOnErr (stat "stat stored object" final) _
            (λ d q h. rw (stat-entries "stat stored object" final d))
            λ existing. settle-KeepsOnErr _ final _

  module _ (U : UuidText) (sha256 : List ℕ → List ℕ) (store : FilesystemObjectStore)
      (ns : ObjectNamespace) where
    publish-KeepsOnErr :
        (hashed : List ℕ) (size : ℕ) → KeepsOnErr (publish U sha256 store staging ns hashed size)
    unfolding publish
    publish-KeepsOnErr hashed size =
        bind-KeepsOnErr (lift (key_for_digest U ns (hex_lower (sha256 hashed)))) _ (λ d q h. refl)
          λ key.
            bind-KeepsOnErr (lift (resolve_within key store.objects_root)) _ (λ d q h. refl)
              λ final. place_object-KeepsOnErr final key (hex_lower (sha256 hashed)) size

    staged-KeepsOnErr : (body : ByteStream) → KeepsOnErr (staged U sha256 store staging ns body)
    unfolding staged
    staged-KeepsOnErr body =
        bind-KeepsOnErr (create_new "create staging file" staging) _
          (λ d q h. rw (create_new-other "create staging file" staging d q h))
          λ u.
            bind-KeepsOnErr (write_chunks staging [] 0 body) _ (write_chunks-Keeps [] 0 body)
              λ (hashed, size).
                bind-KeepsOnErr (call "flush staging file") _ (call-Keeps "flush staging file") λ u.
                  bind-KeepsOnErr (call "fsync staging file") _ (call-Keeps "fsync staging file")
                    λ u. publish-KeepsOnErr hashed size

pub drop_guard-other :
    (staging : FilePath) (d : Disk) → FilesKept staging d.entries (drop_guard staging d).entries
unfolding drop_guard guard_removed
drop_guard-other staging d q h =
    ground (arith, remove_file-other "remove staging file" staging d q h)

-- So does an upload that is cut off.
pub abandon-other :
    (store : FilesystemObjectStore) (name : Text) (received : ByteStream) (d : Disk)
    → FilesKept (store.staging_root ++ name ∷ []) d.entries (abandon store name received d).entries
unfolding abandon
abandon-other store name received d q ne =
    let staging = store.staging_root ++ name ∷ [] in
    let m = create_new "create staging file" staging in
    let written = (m >>= λ u. write_chunks staging [] 0 received) d in
    drop_guard-other staging written.1 q ne
    ∙ bind-Keeps staging m (λ u. write_chunks staging [] 0 received)
        (λ d q h. rw (create_new-other "create staging file" staging d q h))
        (λ u. write_chunks-Keeps staging [] 0 received) d q ne

-- The log of the guard names the staging file.
abbrev pub LeftBehind : FilePath → Disk → Type 0
LeftBehind staging d = (rest : List FilePath) × (d.left_behind ≡ staging ∷ rest)

-- The guard removes the staging file, or the log names it.
pub drop_guard-removes :
    (staging : FilePath) (d : Disk)
    → (lookup staging (drop_guard staging d).entries ≡ none)
      ⊎ LeftBehind staging (drop_guard staging d)
unfolding drop_guard
drop_guard-removes staging d = go (remove_file "remove staging file" staging d) refl
  where
    go :
        (r : Result Bool StorageError × Disk)
        → remove_file "remove staging file" staging d ≡ r
        → (lookup staging (guard_removed staging r).entries ≡ none)
          ⊎ LeftBehind staging (guard_removed staging r)
    go (ok found, d') e = inl (remove_file-eq_ok "remove staging file" staging d e)
    go (err x, d') e = inr (d'.left_behind, refl)

module _ (U : UuidText) (sha256 : List ℕ → List ℕ) (store : FilesystemObjectStore) where
  guarded-err :
      (staging : FilePath) (d : Disk) (r : Result (StoredObject × Bool) StorageError × Disk)
      → ((e : StorageError) (d' : Disk) → r ≡ (err e, d') → FilesKept staging d.entries d'.entries)
      → {e : StorageError} {d' : Disk} → guarded U sha256 store staging r ≡ (err e, d')
      → FilesKept staging d.entries d'.entries
        × ((lookup staging d'.entries ≡ none) ⊎ LeftBehind staging d')
  unfolding guarded
  guarded-err staging d (err x, d₁) k h =
      let same : drop_guard staging d₁ ≡ _ = ap (λ r. r.1) h in
      rw (← same)
        (λ q ne. drop_guard-other staging d₁ q ne ∙ k x d₁ refl q ne, drop_guard-removes staging d₁)
  guarded-err staging d (ok (s, true), d₁) k h = absurd (ground (arith, h))
  guarded-err staging d (ok (s, false), d₁) k h = absurd (ground (arith, h))

  -- An upload that fails, whether by its stream, by the key or by any call of the operating system,
  -- changes no file outside its own staging file. That file is gone, unless its removal failed too,
  -- which the log then says.
  pub put_stream_err :
      (name : Text) (ns : ObjectNamespace) (body : ByteStream) (d : Disk) {e : StorageError}
      {d' : Disk}
      → put_stream U sha256 store name ns body d ≡ (err e, d')
      → let staging = store.staging_root ++ name ∷ [] in
        FilesKept staging d.entries d'.entries
        × ((lookup staging d'.entries ≡ none) ⊎ LeftBehind staging d')
  unfolding put_stream
  put_stream_err name ns body d h =
      let staging = store.staging_root ++ name ∷ [] in
      guarded-err staging d (staged U sha256 store staging ns body d)
        (staged-KeepsOnErr staging U sha256 store ns body d) h
