-- ===== src/Storage/Fs/Objects/Intact.antt =====
-- Every object lies under the key of its own digest, and what is opened is what was uploaded.
use otdel.Prelude.{
  ℕ, ◌<◌, ◌≡◌, refl, sym, ap, ◌∙◌, ◌≢◌, ◌⊎◌, inl, inr, true, false, some, List, [], ◌∷◌, ◌++◌,
  arith, Bool-cases, length, Result, ok, err,
}
use otdel.Prelude.Text.{Text, text_eq, text_eq_iff, split, join, join-split}
use otdel.Storage.Uuid.{UuidText, IsUuidText, uuid_limit}
use otdel.Storage.StorageError.{StorageError}
use otdel.Storage.Key.{
  ObjectNamespace, ObjectKey, FilePath, key_for_digest, resolve_within, parse, key_text, digest,
  is_sha256_hex,
}
use otdel.Storage.Key.Paths.{resolve_within-parse}
use otdel.Storage.Key.Shape.{key_for_digest_roundtrip}
use otdel.Storage.Disk.{Entries, Disk, path_eq, lookup, call, stat}
use otdel.Storage.Disk.Entries.{path_eq_iff}
use otdel.Storage.Disk.Calls.{file_at}
use otdel.Storage.Fs.{FilesystemObjectStore, StoredObject, ByteStream, hex_lower, put_stream}
use otdel.Storage.Fs.Publish.{IsTree, contents, key_for_digest-parse, place-ne-staging}
use otdel.Storage.Fs.Failure.{put_stream_err}
use otdel.Storage.Fs.Upload.{Uploaded, put_stream_ok}
use otdel.Storage.Fs.Objects.{open_object, regular}

append_cancel : (p q r : FilePath) → p ++ q ≡ p ++ r → q ≡ r
append_cancel [] q r h = h
append_cancel (s ∷ p) q r h = append_cancel p q r (cc)

-- Two keys with one place are one key.
resolve_within_injective :
    (U : UuidText) (root : FilePath) (raw raw' : Text) {key key' : ObjectKey} {final : FilePath}
    → parse U raw ≡ ok key
    → parse U raw' ≡ ok key'
    → resolve_within key root ≡ ok final
    → resolve_within key' root ≡ ok final
    → key ≡ key'
resolve_within_injective U root raw raw' {key} {key'} {final} h h' r r' =
    let place = (resolve_within-parse U raw root h).0 in
    let place' = (resolve_within-parse U raw' root h').0 in
    let same : root ++ split raw b'/' ≡ root ++ split raw' b'/' = cc in
    let parts = append_cancel root (split raw b'/') (split raw' b'/') same in
    let raws : raw ≡ raw' =
      sym (join-split raw b'/') ∙ ap (λ ps. join ps b'/') parts ∙ join-split raw' b'/' in
    cc

key_for_digest-hex :
    (U : UuidText) (ns : ObjectNamespace) (sha : Text) {key : ObjectKey}
    → key_for_digest U ns sha ≡ ok key
    → is_sha256_hex sha ≡ true
unfolding key_for_digest
key_for_digest-hex U ns sha h = ground arith

path_apart : {p q : FilePath} → path_eq p q ≡ false → p ≢ q
path_apart {p} {q} h e = cc (sym h ∙ (path_eq_iff p q).1 e)

-- With no fault to come, the regular file that lies under a key opens.
pub open_object_of :
    (store : FilesystemObjectStore) (key : ObjectKey) (place : FilePath) (object : List ℕ) (t : ℕ)
    (d : Disk)
    → resolve_within key store.objects_root ≡ ok place
    → file_at (lookup place d.entries) ≡ some (object, t)
    → d.faults ≡ []
    → open_object store key d ≡ (ok (record { size_bytes = length object; content = object }), d)
unfolding open_object regular stat call
open_object_of store key place object t d r held healthy = rw r (ground arith)

module _ (U : UuidText) (sha256 : List ℕ → List ℕ) (store : FilesystemObjectStore) where
  -- The bytes of every regular file that a key leads to have the digest that the key names.
  abbrev pub IsIntact : Entries → Type 0
  IsIntact es =
      (raw : Text) (key : ObjectKey) (place : FilePath) (bytes : List ℕ) (t : ℕ)
      → parse U raw ≡ ok key
      → resolve_within key store.objects_root ≡ ok place
      → file_at (lookup place es) ≡ some (bytes, t)
      → hex_lower (sha256 bytes) ≡ digest key

  -- The same bytes, or different ones with one digest.
  abbrev pub IsSame : List ℕ → List ℕ → Type 0
  IsSame object bytes =
      (object ≡ bytes) ⊎ (object ≢ bytes) × (hex_lower (sha256 object) ≡ hex_lower (sha256 bytes))

  module _ (L : IsUuidText U) (tree : IsTree store) (name : Text) (ns : ObjectNamespace)
      (body : ByteStream) (d : Disk) (b : ns.bureau_id < uuid_limit)
      (p : ns.partner_id < uuid_limit) (intact : IsIntact d.entries) where
    -- The object that was stored, if a key leads to its place.
    Stored-digest :
        {stored : StoredObject} {d' : Disk} (u : Uploaded U sha256 store name ns body d stored d')
        (raw : Text) (key : ObjectKey) (place : FilePath) (bytes : List ℕ) (t : ℕ)
        → parse U raw ≡ ok key
        → resolve_within key store.objects_root ≡ ok place
        → file_at (lookup place d'.entries) ≡ some (bytes, t)
        → place ≡ u.final
        → hex_lower (sha256 bytes) ≡ digest key
    Stored-digest {stored} {d'} u raw key place bytes t h r held same =
        let hex = key_for_digest-hex U ns stored.sha256 u.keyed in
        let (k, keyed, _, named, _) = key_for_digest_roundtrip U L ns stored.sha256 b p hex in
        let mine : stored.key ≡ k = cc (sym u.keyed ∙ keyed) in
        let one : key ≡ stored.key =
          resolve_within_injective U store.objects_root raw (key_text U ns stored.sha256) h
            (key_for_digest-parse U ns stored.sha256 u.keyed) r (u.resolved ∙ ap ok (sym same)) in
        let content : bytes ≡ u.object = ground (arith, held, u.found, same) in
        elim (Bool-cases stored.already_present) [
          | inl present ↦ intact raw key place bytes t h r (
              ap (λ q. file_at (lookup q d.entries)) same
              ∙ (u.reused present).1
              ∙ sym u.found
              ∙ ap (λ q. file_at (lookup q d'.entries)) (sym same)
              ∙ held)
          | inr new ↦
              ap (λ x. hex_lower (sha256 x)) (content ∙ u.fresh new)
              ∙ sym u.digest
              ∙ sym named
              ∙ ap digest (sym mine ∙ sym one)
        ]

    Uploaded-IsIntact :
        {stored : StoredObject} {d' : Disk}
        → Uploaded U sha256 store name ns body d stored d'
        → IsIntact d'.entries
    Uploaded-IsIntact {stored} {d'} u raw key place bytes t h r held =
        let away : place ≢ store.staging_root ++ name ∷ [] =
          λ e. place-ne-staging U store name raw tree h r (sym e) in
        elim (Bool-cases (path_eq place u.final)) [
          | inr apart ↦
              intact raw key place bytes t h r
                (sym (u.kept place away (λ e. path_apart apart e)) ∙ held)
          | inl same ↦
              Stored-digest u raw key place bytes t h r held ((path_eq_iff place u.final).0 same)
        ]

    -- `put_stream` keeps the store intact, whether it succeeds or fails.
    pub put_stream-IsIntact : IsIntact (put_stream U sha256 store name ns body d).1.entries
    put_stream-IsIntact = go (put_stream U sha256 store name ns body d) refl
      where
        go :
            (out : Result StoredObject StorageError × Disk)
            → put_stream U sha256 store name ns body d ≡ out
            → IsIntact out.1.entries
        go (ok stored, d') e =
            Uploaded-IsIntact (put_stream_ok U sha256 store name ns body d tree e)
        go (err failure, d') e = λ raw key place bytes t h r held.
            intact raw key place bytes t h r (
              sym (
                (put_stream_err U sha256 store name ns body d e).0 place
                  (λ e. place-ne-staging U store name raw tree h r (sym e)))
              ∙ held)

    Uploaded-parse :
        {stored : StoredObject} {d' : Disk}
        → Uploaded U sha256 store name ns body d stored d'
        → (parse U (key_text U ns stored.sha256) ≡ ok stored.key)
          × (digest stored.key ≡ stored.sha256)
    Uploaded-parse {stored} u =
        let hex = key_for_digest-hex U ns stored.sha256 u.keyed in
        let (k, keyed, _, named, _) = key_for_digest_roundtrip U L ns stored.sha256 b p hex in
        let mine : k ≡ stored.key = cc (sym keyed ∙ u.keyed) in
        (key_for_digest-parse U ns stored.sha256 u.keyed, ap digest (sym mine) ∙ named)

    -- After an upload that returned into an intact store, with no fault to come, its key opens an
    -- object of the size that is announced, and the tree does not change. The upload's stream was
    -- complete, and the object's bytes are those of the stream, or else the two are different byte
    -- strings with one SHA-256 digest.
    pub open_object-put_stream :
        {stored : StoredObject} {d' : Disk}
        → put_stream U sha256 store name ns body d ≡ (ok stored, d')
        → d'.faults ≡ []
        → (object : List ℕ) × (bytes : List ℕ) × (open_object store stored.key d'
            ≡ (ok (record { size_bytes = length object; content = object }), d'))
          × (contents body ≡ some bytes)
          × IsSame object bytes
    open_object-put_stream {stored} {d'} e healthy =
        let u = put_stream_ok U sha256 store name ns body d tree e in
        let (parsed, named) = Uploaded-parse u in
        let after =
          Uploaded-IsIntact u (key_text U ns stored.sha256) stored.key u.final u.object u.time
            parsed u.resolved u.found in
        let alike : hex_lower (sha256 u.object) ≡ hex_lower (sha256 u.bytes) =
          after ∙ named ∙ u.digest in
        (
          u.object,
          u.bytes,
          open_object_of store stored.key u.final u.object u.time d' u.resolved u.found healthy,
          u.complete,
          elim (Bool-cases (text_eq u.object u.bytes)) [
            | inl same ↦ inl ((text_eq_iff u.object u.bytes).0 same)
            | inr differ ↦
                inr (λ same. cc (sym differ ∙ (text_eq_iff u.object u.bytes).1 same), alike)
          ],
        )
