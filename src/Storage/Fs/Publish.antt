-- ===== src/Storage/Fs/Publish.antt =====
-- `put_stream` that succeeds: the bytes of the whole stream lie under the key of their digest.
use otdel.Prelude.{
  ℕ, ◌+◌, ◌%◌, ◌^◌, ◌≡◌, refl, sym, ap, ◌∙◌, ◌≢◌, Bool, true, false, Option, none, some, List, [],
  ◌∷◌, ◌++◌, append_assoc, append-nil, arith, length, length-append, Result, ok, err,
}
use otdel.Prelude.Text.{Text, split, bytes}
use otdel.Storage.Uuid.{UuidText}
use otdel.Storage.StorageError.{StorageError}
use otdel.Storage.Key.{
  ObjectNamespace, ObjectKey, FilePath, key_for_digest, resolve_within, parse, key_text,
}
use otdel.Storage.Key.Paths.{resolve_within-parse}
use otdel.Storage.Disk.{
  Entry, file, dir, other, Disk, lookup, stat, append_file, rename, create_private_dir,
}
use otdel.Storage.Disk.Calls.{
  file_at, bind-ok, stat-eq_ok, append_file-other, append_file-eq_ok, rename-eq_ok,
  create_private_dir-files,
}
use otdel.Storage.Fs.{
  FilesystemObjectStore, StoredObject, ByteStream, objects_dir, staging_dir, write_chunks,
  same_size, settle, place_object, parent, publish, hex_lower,
}
use otdel.Storage.Fs.Failure.{FilesKept}

-- The bytes of a stream that ends without an error.
abbrev pub contents : ByteStream → Option (List ℕ)
contents [] = some []
contents (err e ∷ body) = none
contents (ok chunk ∷ body) = elim (contents body) [ none ↦ none | some rest ↦ some (chunk ++ rest) ]

-- What `open_at` returns: two sibling directories below the root.
abbrev pub IsTree : FilesystemObjectStore → Type 0
IsTree store =
    (store.objects_root ≡ store.root ++ objects_dir ∷ [])
    × (store.staging_root ≡ store.root ++ staging_dir ∷ [])

-- The state of the staging file behind a part of the stream.
pub record Written (staging : FilePath) (body : ByteStream) (hashed : List ℕ) (d : Disk)
    (hashed' : List ℕ) (size' : ℕ) (d' : Disk) : Type 0 where
  pub bytes : List ℕ
  pub complete : contents body ≡ some bytes
  pub hashes : hashed' ≡ hashed ++ bytes
  pub counts : size' ≡ length hashed' % 2 ^ 64
  pub time : ℕ
  pub holds : file_at (lookup staging d'.entries) ≡ some (hashed', time)
  pub kept : FilesKept staging d.entries d'.entries

-- A file in the state that a call returned.
pub moved :
    {A : Type 0} {r : Result A StorageError × Disk} {x : Result A StorageError} {d' : Disk}
    (q : FilePath)
    → r ≡ (x, d')
    → file_at (lookup q d'.entries) ≡ file_at (lookup q r.1.entries)
moved q e = ap (λ r. file_at (lookup q r.1.entries)) (sym e)

pub write_chunks-Written :
    (staging : FilePath) (body : ByteStream) (hashed : List ℕ) (size : ℕ) (d : Disk) (t : ℕ)
    {hashed' : List ℕ} {size' : ℕ} {d' : Disk}
    → size ≡ length hashed % 2 ^ 64
    → file_at (lookup staging d.entries) ≡ some (hashed, t)
    → write_chunks staging hashed size body d ≡ (ok (hashed', size'), d')
    → Written staging body hashed d hashed' size' d'
unfolding write_chunks
write_chunks-Written staging [] hashed size d t {hashed'} {size'} {d'} s h e = record {
  bytes = [];
  complete = refl;
  hashes = ground (arith, e, append-nil hashed);
  counts = ground (arith, e);
  time = t;
  holds = ground (arith, e);
  kept = λ q ne. ground (arith, e);
}
write_chunks-Written staging (err x ∷ body) hashed size d t s h e = absurd (ground (arith, e))
write_chunks-Written staging (ok chunk ∷ body) hashed size d t {hashed'} {size'} {d'} s h e =
    let (u, d₁, first, rest) = bind-ok (append_file "write staging file" staging chunk) _ d e in
    let (now, holds) = append_file-eq_ok "write staging file" staging d chunk h first in
    let w =
      write_chunks-Written staging body (hashed ++ chunk) ((size + length chunk) % 2 ^ 64) d₁ now
        {hashed' = hashed'} {size' = size'} {d' = d'} (omega (arith, length-append hashed chunk))
        holds rest in
    record {
      bytes = chunk ++ w.bytes;
      complete = ground (arith, w.complete);
      hashes = w.hashes ∙ append_assoc hashed chunk w.bytes;
      counts = w.counts;
      time = w.time;
      holds = w.holds;
      kept = λ q ne.
          w.kept q ne
          ∙ moved q first
          ∙ ap file_at (append_file-other "write staging file" staging d chunk q ne);
    }

same_child :
    (root xs ys : FilePath) (a b : Text) → (root ++ a ∷ []) ++ xs ≡ (root ++ b ∷ []) ++ ys → a ≡ b
same_child [] xs ys a b h = cc
same_child (r ∷ root) xs ys a b h = same_child root xs ys a b (cc)

pub key_for_digest-parse :
    (U : UuidText) (ns : ObjectNamespace) (sha : Text) {key : ObjectKey}
    → key_for_digest U ns sha ≡ ok key
    → parse U (key_text U ns sha) ≡ ok key
unfolding key_for_digest
key_for_digest-parse U ns sha h = ground arith

-- The place of an object differs from the place of every staging file.
pub place-ne-staging :
    (U : UuidText) (store : FilesystemObjectStore) (name raw : Text) {key : ObjectKey}
    {final : FilePath}
    → IsTree store
    → parse U raw ≡ ok key
    → resolve_within key store.objects_root ≡ ok final
    → (store.staging_root ++ name ∷ []) ≢ final
place-ne-staging U store name raw {key} {final} (objects, staging) k r same =
    let place = (resolve_within-parse U raw store.objects_root k).0 in
    let at : final ≡ store.objects_root ++ split raw b'/' = cc (sym r ∙ place) in
    let both : (store.root ++ staging_dir ∷ []) ++ name ∷ []
        ≡ (store.root ++ objects_dir ∷ []) ++ split raw b'/' =
      ap (λ p. p ++ name ∷ []) (sym staging) ∙ same ∙ at ∙ ap (λ p. p ++ split raw b'/') objects in
    let clash = same_child store.root (name ∷ []) (split raw b'/') staging_dir objects_dir both in
    absurd (ground (arith, clash))

pub final-ne-staging :
    (U : UuidText) (store : FilesystemObjectStore) (name sha : Text) (ns : ObjectNamespace)
    {key : ObjectKey} {final : FilePath}
    → IsTree store
    → key_for_digest U ns sha ≡ ok key
    → resolve_within key store.objects_root ≡ ok final
    → (store.staging_root ++ name ∷ []) ≢ final
final-ne-staging U store name sha ns tree k r =
    place-ne-staging U store name (key_text U ns sha) tree (key_for_digest-parse U ns sha k) r

module _ (U : UuidText) (sha256 : List ℕ → List ℕ) (store : FilesystemObjectStore) where
  -- The object lies in its place, as it was published or as it was found.
  pub record Settled (staging : FilePath) (ns : ObjectNamespace) (hashed : List ℕ) (size : ℕ)
      (d : Disk) (stored : StoredObject) (d' : Disk) : Type 0 where
    pub digest : stored.sha256 ≡ hex_lower (sha256 hashed)
    pub keyed : key_for_digest U ns stored.sha256 ≡ ok stored.key
    pub sized : stored.size_bytes ≡ size
    pub final : FilePath
    pub resolved : resolve_within stored.key store.objects_root ≡ ok final
    pub object : List ℕ
    pub time : ℕ
    pub found : file_at (lookup final d'.entries) ≡ some (object, time)
    pub fresh : stored.already_present ≡ false → object ≡ hashed
    pub reused :
        stored.already_present ≡ true
        → (length object ≡ size) × (file_at (lookup final d.entries) ≡ some (object, time))
    pub kept :
        (q : FilePath)
        → q ≢ staging
        → q ≢ final
        → file_at (lookup q d'.entries) ≡ file_at (lookup q d.entries)

  same_size-file :
      (o : Option Entry) (size : ℕ)
      → same_size o size ≡ true
      → (bytes : List ℕ) × (t : ℕ) × (file_at o ≡ some (bytes, t)) × (length bytes ≡ size)
  unfolding same_size
  same_size-file (some (file bytes t)) size h = (bytes, t, refl, ground arith)
  same_size-file (some dir) size h = cc
  same_size-file (some other) size h = cc
  same_size-file none size h = cc

  settle-Settled :
      (present : Bool) (staging final : FilePath) (stored : StoredObject) (ns : ObjectNamespace)
      (hashed : List ℕ) (t : ℕ) (d : Disk) {stored' : StoredObject} {armed : Bool} {d' : Disk}
      → present ≡ stored.already_present
      → same_size (lookup final d.entries) stored.size_bytes ≡ present
      → stored.sha256 ≡ hex_lower (sha256 hashed)
      → key_for_digest U ns stored.sha256 ≡ ok stored.key
      → resolve_within stored.key store.objects_root ≡ ok final
      → file_at (lookup staging d.entries) ≡ some (hashed, t)
      → staging ≢ final
      → settle present staging final stored d ≡ (ok (stored', armed), d')
      → Settled staging ns hashed stored.size_bytes d stored' d'
        × (armed ≡ stored'.already_present)
        × (armed ≡ false → lookup staging d'.entries ≡ none)
  unfolding settle
  settle-Settled true staging final stored ns hashed t d {stored'} {armed} {d'} p same dig key res h
        ne e =
      let stays : stored' ≡ stored = ground (arith, e) in
      let (object, time, found, long) =
        same_size-file (lookup final d.entries) stored.size_bytes same in
      let after : d' ≡ d = ground (arith, e) in
      rw (stays, after)
        (
          record {
            digest = dig;
            keyed = key;
            sized = refl;
            final = final;
            resolved = res;
            object = object;
            time = time;
            found = found;
            fresh = λ f. cc (p);
            reused = λ r. (long, found);
            kept = λ q nq nf. refl;
          },
          ground (arith, e, p),
          λ f. ground (arith, e, f),
        )
  settle-Settled false staging final stored ns hashed t d {stored'} {armed} {d'} p same dig key res
        h ne e =
      let (u, d₁, first, rest) = bind-ok (rename "publish staging file" staging final) _ d e in
      let (found, gone, others) = rename-eq_ok "publish staging file" staging final d h ne first in
      let stays : stored' ≡ stored = ground (arith, rest) in
      let after : d' ≡ d₁ = ground (arith, rest) in
      rw (stays, after)
        (
          record {
            digest = dig;
            keyed = key;
            sized = refl;
            final = final;
            resolved = res;
            object = hashed;
            time = t;
            found = found;
            fresh = λ f. refl;
            reused = λ r. absurd (ground (arith, p, r));
            kept = λ q nq nf. ap file_at (others q nq nf);
          },
          ground (arith, rest, p),
          λ f. gone,
        )

  module _ (staging : FilePath) (ns : ObjectNamespace) (hashed : List ℕ) (size : ℕ) (t : ℕ)
      (d : Disk) where
    -- The outcome of the last part of `put_stream`, with the state of its guard.
    unfoldable pub Finished : StoredObject → Bool → Disk → Type 0
    Finished stored armed d' =
        Settled staging ns hashed size d stored d'
        × (armed ≡ stored.already_present)
        × (armed ≡ false → lookup staging d'.entries ≡ none)

    place_object-Finished :
        (final : FilePath) (key : ObjectKey) {stored : StoredObject} {armed : Bool} {d' : Disk}
        → key_for_digest U ns (hex_lower (sha256 hashed)) ≡ ok key
        → resolve_within key store.objects_root ≡ ok final
        → staging ≢ final
        → file_at (lookup staging d.entries) ≡ some (hashed, t)
        → place_object staging final key (hex_lower (sha256 hashed)) size d
          ≡ (ok (stored, armed), d')
        → Finished stored armed d'
    unfolding place_object Finished
    place_object-Finished final key {stored} {armed} {d'} keyed resolved ne h e =
        let (u, d₁, e₁, r₁) = bind-ok (create_private_dir (parent final)) _ d e in
        let (existing, d₂, e₂, r₂) = bind-ok (stat "stat stored object" final) _ d₁ r₁ in
        let (seen, same) = stat-eq_ok "stat stored object" final d₁ e₂ in
        let before = λ (q : FilePath).
          ap (λ es. file_at (lookup q es)) same
          ∙ moved q e₁
          ∙ create_private_dir-files (parent final) d q in
        let (s, armed_if, gone) =
          settle-Settled (same_size existing size) staging final _ ns hashed t d₂ {stored' = stored}
            {armed = armed} {d' = d'} refl
            (ap (λ o. same_size o size) (ap (lookup final) same ∙ sym seen)) refl keyed resolved
            (before staging ∙ h) ne r₂ in
        (
          record {
            digest = s.digest;
            keyed = s.keyed;
            sized = s.sized;
            final = s.final;
            resolved = s.resolved;
            object = s.object;
            time = s.time;
            found = s.found;
            fresh = s.fresh;
            reused = λ r. ((s.reused r).0, sym (before s.final) ∙ (s.reused r).1);
            kept = λ q nq nf. s.kept q nq nf ∙ before q;
          },
          armed_if,
          gone,
        )

    publish-parts :
        {stored : StoredObject} {armed : Bool} {d' : Disk}
        → publish U sha256 store staging ns hashed size d ≡ (ok (stored, armed), d')
        → (key : ObjectKey) × (final : FilePath) × (key_for_digest U ns (hex_lower (sha256 hashed))
            ≡ ok key)
          × (resolve_within key store.objects_root ≡ ok final)
          × (place_object staging final key (hex_lower (sha256 hashed)) size d
              ≡ (ok (stored, armed), d'))
    unfolding publish
    publish-parts e = ground arith

    pub publish-Finished :
        (name : Text) {stored : StoredObject} {armed : Bool} {d' : Disk}
        → IsTree store
        → staging ≡ store.staging_root ++ name ∷ []
        → file_at (lookup staging d.entries) ≡ some (hashed, t)
        → publish U sha256 store staging ns hashed size d ≡ (ok (stored, armed), d')
        → Finished stored armed d'
    publish-Finished name {stored} {armed} {d'} tree place h e =
        let (key, final, keyed, resolved, rest) =
          publish-parts {stored = stored} {armed = armed} {d' = d'} e in
        place_object-Finished final key keyed resolved
          (rw place (final-ne-staging U store name _ ns tree keyed resolved)) h rest
