-- ===== src/Storage/Fs/Upload.antt =====
-- `put_stream` from the first byte to the guard: what a caller that gets `Ok` can rely on.
use otdel.Prelude.{
  ℕ, ◌%◌, ◌^◌, ◌≡◌, refl, sym, ap, ◌∙◌, ◌≢◌, ◌⊎◌, inl, Bool, true, false, none, some, List, [], ◌∷◌,
  ◌++◌, arith, length, Result, ok, err,
}
use otdel.Prelude.Text.{Text}
use otdel.Storage.Uuid.{UuidText}
use otdel.Storage.StorageError.{StorageError}
use otdel.Storage.Key.{ObjectNamespace, FilePath, key_for_digest, resolve_within}
use otdel.Storage.Disk.{Disk, lookup, call, create_new, ◌>>◌}
use otdel.Storage.Disk.Calls.{file_at, bind-ok, call-entries, create_new-eq_ok, create_new-other}
use otdel.Storage.Fs.{
  FilesystemObjectStore, StoredObject, ByteStream, write_chunks, drop_guard, publish, staged,
  guarded, put_stream, hex_lower,
}
use otdel.Storage.Fs.Failure.{FilesKept, LeftBehind, drop_guard-other, drop_guard-removes}
use otdel.Storage.Fs.Publish.{
  contents, IsTree, moved, Written, write_chunks-Written, Finished, publish-Finished,
  final-ne-staging,
}

module _ (U : UuidText) (sha256 : List ℕ → List ℕ) (store : FilesystemObjectStore) where
  -- What holds after an upload that succeeded: all of its bytes arrived; the key is that of their
  -- digest; the object under the key has those bytes if it is new, and has their length and is
  -- untouched if it was there; no other file changed; the staging file is gone or logged.
  pub record Uploaded (name : Text) (ns : ObjectNamespace) (body : ByteStream) (d : Disk)
      (stored : StoredObject) (d' : Disk) : Type 0 where
    pub bytes : List ℕ
    pub complete : contents body ≡ some bytes
    pub digest : stored.sha256 ≡ hex_lower (sha256 bytes)
    pub keyed : key_for_digest U ns stored.sha256 ≡ ok stored.key
    pub sized : stored.size_bytes ≡ length bytes % 2 ^ 64
    pub final : FilePath
    pub resolved : resolve_within stored.key store.objects_root ≡ ok final
    pub object : List ℕ
    pub time : ℕ
    pub found : file_at (lookup final d'.entries) ≡ some (object, time)
    pub fresh : stored.already_present ≡ false → object ≡ bytes
    pub reused :
        stored.already_present ≡ true
        → (length object ≡ stored.size_bytes)
          × (file_at (lookup final d.entries) ≡ some (object, time))
    pub kept :
        (q : FilePath)
        → q ≢ store.staging_root ++ name ∷ []
        → q ≢ final
        → file_at (lookup q d'.entries) ≡ file_at (lookup q d.entries)
    pub swept :
        (lookup (store.staging_root ++ name ∷ []) d'.entries ≡ none)
        ⊎ LeftBehind (store.staging_root ++ name ∷ []) d'

  module _ (name : Text) (ns : ObjectNamespace) (body : ByteStream) (d : Disk)
      (tree : IsTree store) where
    staging : FilePath
    staging = store.staging_root ++ name ∷ []

    -- The stream as it lies in the staging file when it is complete.
    record Received (stored : StoredObject) (armed : Bool) (d' : Disk) : Type 0 where
      bytes : List ℕ
      complete : contents body ≡ some bytes
      before : Disk
      time : ℕ
      kept : FilesKept staging d.entries before.entries
      finished :
          Finished U sha256 store staging ns bytes
            (length bytes % 2 ^ 64)
            time
            before
            stored
            armed
            d'

    -- Flushing and syncing change no entry.
    synced :
        (hashed : List ℕ) (size : ℕ) (d₁ : Disk) {stored : StoredObject} {armed : Bool} {d' : Disk}
        → (do
          call "flush staging file"
          call "fsync staging file"
          publish U sha256 store staging ns hashed size)
            d₁
          ≡ (ok (stored, armed), d')
        → (d₂ : Disk) × (d₂.entries ≡ d₁.entries)
          × (publish U sha256 store staging ns hashed size d₂ ≡ (ok (stored, armed), d'))
    synced hashed size d₁ e =
        let (u, d₂, e₂, r₂) = bind-ok (call "flush staging file") _ d₁ e in
        let (v, d₃, e₃, r₃) = bind-ok (call "fsync staging file") _ d₂ r₂ in
        (
          d₃,
          ap (λ r. r.1.entries) (sym e₃)
              ∙ call-entries "fsync staging file" d₂
              ∙ ap (λ r. r.1.entries) (sym e₂)
              ∙ call-entries "flush staging file" d₁,
          r₃,
        )

    Written-Received :
        (d₁ d₂ : Disk) (hashed : List ℕ) (size : ℕ) {stored : StoredObject} {armed : Bool}
        {d' : Disk}
        → FilesKept staging d.entries d₁.entries
        → Written staging body [] d₁ hashed size d₂
        → (do
          call "flush staging file"
          call "fsync staging file"
          publish U sha256 store staging ns hashed size)
            d₂
          ≡ (ok (stored, armed), d')
        → Received stored armed d'
    unfolding staging
    Written-Received d₁ d₂ hashed size {stored} {armed} {d'} kept w e =
        let (d₃, same, last) =
          synced hashed size d₂ {stored = stored} {armed = armed} {d' = d'} e in
        let h = ap (λ es. file_at (lookup staging es)) same ∙ w.holds in
        record {
          bytes = w.bytes;
          complete = w.complete;
          before = d₃;
          time = w.time;
          kept = λ q ne. ap (λ es. file_at (lookup q es)) same ∙ w.kept q ne ∙ kept q ne;
          finished =
              rw (← w.hashes, ← w.counts)
                (publish-Finished U sha256 store staging ns hashed size w.time d₃ name tree refl h
                  last);
        }

    staged-Received :
        {stored : StoredObject} {armed : Bool} {d' : Disk}
        → staged U sha256 store staging ns body d ≡ (ok (stored, armed), d')
        → Received stored armed d'
    unfolding staged
    staged-Received {stored} {armed} {d'} e =
        let (u, d₁, e₁, r₁) = bind-ok (create_new "create staging file" staging) _ d e in
        let ((hashed, size), d₂, e₂, r₂) = bind-ok (write_chunks staging [] 0 body) _ d₁ r₁ in
        let (absent, empty) = create_new-eq_ok "create staging file" staging d e₁ in
        Written-Received d₁ d₂ hashed size
          (λ q ne. moved q e₁ ∙ ap file_at (create_new-other "create staging file" staging d q ne))
          (write_chunks-Written staging body [] 0 d₁ _ (omega arith) empty e₂) r₂

    -- The guard's last act changes no file but the staging file.
    Received-Uploaded :
        (stored : StoredObject) (armed : Bool) (d₁ d' : Disk)
        → Received stored armed d₁
        → FilesKept staging d₁.entries d'.entries
        → ((lookup staging d'.entries ≡ none) ⊎ LeftBehind staging d')
        → Uploaded name ns body d stored d'
    unfolding staging Finished
    Received-Uploaded stored armed d₁ d' r kept swept =
        let s = r.finished.0 in
        let apart = λ (e : s.final ≡ store.staging_root ++ name ∷ []).
          final-ne-staging U store name stored.sha256 ns tree s.keyed s.resolved (sym e) in
        record {
          bytes = r.bytes;
          complete = r.complete;
          digest = s.digest;
          keyed = s.keyed;
          sized = s.sized;
          final = s.final;
          resolved = s.resolved;
          object = s.object;
          time = s.time;
          found = kept s.final apart ∙ s.found;
          fresh = s.fresh;
          reused = λ p. ((s.reused p).0 ∙ sym s.sized, sym (r.kept s.final apart) ∙ (s.reused p).1);
          kept = λ q nq nf. kept q nq ∙ s.kept q nq nf ∙ r.kept q nq;
          swept = swept;
        }

    guarded-Uploaded :
        (r : Result (StoredObject × Bool) StorageError × Disk) {stored : StoredObject} {d' : Disk}
        → ((s : StoredObject) (armed : Bool) (d₁ : Disk)
            → r ≡ (ok (s, armed), d₁)
            → Received s armed d₁)
        → guarded U sha256 store staging r ≡ (ok stored, d')
        → Uploaded name ns body d stored d'
    unfolding guarded Finished
    guarded-Uploaded (err x, d₁) k e = absurd (ground (arith, e))
    guarded-Uploaded (ok (s, true), d₁) {stored} {d'} k e =
        let same : stored ≡ s = ground (arith, e) in
        let after : d' ≡ drop_guard staging d₁ = ground (arith, e) in
        rw (same, after)
          (Received-Uploaded s true d₁ (drop_guard staging d₁) (k s true d₁ refl)
            (drop_guard-other staging d₁) (drop_guard-removes staging d₁))
    guarded-Uploaded (ok (s, false), d₁) {stored} {d'} k e =
        let same : stored ≡ s = ground (arith, e) in
        let after : d' ≡ d₁ = ground (arith, e) in
        rw (same, after)
          (Received-Uploaded s false d₁ d₁ (k s false d₁ refl) (λ q ne. refl)
            (inl ((k s false d₁ refl).finished.2 refl)))

    -- An upload that reports success has stored the whole stream: see `Uploaded`.
    pub put_stream_ok :
        {stored : StoredObject} {d' : Disk}
        → put_stream U sha256 store name ns body d ≡ (ok stored, d')
        → Uploaded name ns body d stored d'
    unfolding put_stream staging
    put_stream_ok e =
        guarded-Uploaded (staged U sha256 store staging ns body d) (λ s armed d₁. staged-Received) e
