-- ===== src/Api/Intake/Received.antt =====
-- An upload from the multipart request to the object store.
use otdel.Prelude.{
  ℕ, ◌≤◌, ◌≡◌, refl, ◌⊎◌, inl, inr, true, false, Option, none, some, List, [], ◌∷◌, arith,
  if◌then◌else◌, Bool-cases, length, Result, ok, err, Result-cases,
}
use otdel.Prelude.Text.{Text}
use otdel.Core.Media
use otdel.Core.Media.{MediaType}
use otdel.Api.ApiError.{ApiError}
use otdel.Api.Intake.{
  Field, ReceivedFile, is_file_part, check_declared, prepare, drain, receive_fields, receive_file,
  read_file_field,
}
use otdel.Api.Intake.Limits.{field_contents, prepare_sound}
use otdel.Storage.Disk.{Disk}
use otdel.Storage.Fs.{FilesystemObjectStore, StoredObject, ByteStream, put_stream, hex_lower}
use otdel.Storage.Fs.Publish.{IsTree}
use otdel.Storage.Fs.Upload.{Uploaded, put_stream_ok}
use otdel.Storage.Key.{ObjectNamespace}
use otdel.Storage.StorageError.{StorageError}
use otdel.Storage.Uuid.{UuidText}

-- The file parts of a request.
abbrev pub file_fields : List (Option Field) → List Field
file_fields [] = []
file_fields (none ∷ fields) = file_fields fields
file_fields (some field ∷ fields) =
    let rest = file_fields fields in if is_file_part field then field ∷ rest else rest

Read-cases :
    (r : Result ReceivedFile ApiError × Disk)
    → ((file : ReceivedFile) × (d : Disk) × (r ≡ (ok file, d)))
      ⊎ ((failure : ApiError) × (d : Disk) × (r ≡ (err failure, d)))
Read-cases (ok file, d) = inl (file, d, refl)
Read-cases (err failure, d) = inr (failure, d, refl)

Put-cases :
    (r : Result StoredObject StorageError × Disk)
    → ((stored : StoredObject) × (d : Disk) × (r ≡ (ok stored, d)))
      ⊎ ((failure : StorageError) × (d : Disk) × (r ≡ (err failure, d)))
Put-cases (ok stored, d) = inl (stored, d, refl)
Put-cases (err failure, d) = inr (failure, d, refl)

module _ (U : UuidText) (sha256 : List ℕ → List ℕ) (store : FilesystemObjectStore) (max_bytes : ℕ)
    (name : Text) (namespace : ObjectNamespace) where
  -- After the first file no other file part is accepted.
  receive_fields-rest :
      (fields : List (Option Field)) (used : ℕ) (d : Disk) {previous file : ReceivedFile}
      {d' : Disk}
      → receive_fields U sha256 store max_bytes name namespace (some previous) used fields d
        ≡ (ok file, d')
      → (file_fields fields ≡ []) × (file ≡ previous) × (d' ≡ d)
  unfolding receive_fields
  receive_fields-rest [] used d {previous} {file} {d'} h = (refl, ground arith, ground arith)
  receive_fields-rest (none ∷ fields) used d {previous} {file} {d'} h = absurd (ground arith)
  receive_fields-rest (some field ∷ fields) used d {previous} {file} {d'} h =
      elim (Bool-cases (is_file_part field)) [
        | inl is_file ↦ absurd (ground arith)
        | inr other ↦ elim (Result-cases (drain used field.chunks)) [
          | inr (failure, e) ↦ absurd (ground arith)
          | inl (used', e) ↦
              let (none_left, same, kept) =
                receive_fields-rest fields used' d {previous = previous} {file = file} {d' = d'}
                  (ground arith) in
              (ground arith, same, kept)
        ]
      ]

  receive_fields-one :
      (fields : List (Option Field)) (used : ℕ) (d : Disk) {file : ReceivedFile} {d' : Disk}
      → receive_fields U sha256 store max_bytes name namespace none used fields d ≡ (ok file, d')
      → (field : Field) × (file_fields fields ≡ field ∷ [])
        × (read_file_field U sha256 store max_bytes name namespace field d ≡ (ok file, d'))
  unfolding receive_fields
  receive_fields-one [] used d {file} {d'} h = absurd (ground arith)
  receive_fields-one (none ∷ fields) used d {file} {d'} h = absurd (ground arith)
  receive_fields-one (some field ∷ fields) used d {file} {d'} h =
      elim (Bool-cases (is_file_part field)) [
        | inl is_file ↦
            elim (Read-cases (read_file_field U sha256 store max_bytes name namespace field d)) [
              | inr (failure, d₁, r) ↦ absurd (ground arith)
              | inl (first, d₁, r) ↦
                  let (none_left, same, kept) =
                    receive_fields-rest fields used d₁ {previous = first} {file = file} {d' = d'}
                      (ground arith) in
                  (field, ground arith, ground arith)
            ]
        | inr other ↦ elim (Result-cases (drain used field.chunks)) [
          | inr (failure, e) ↦ absurd (ground arith)
          | inl (used', e) ↦
              let (found, one, r) =
                receive_fields-one fields used' d {file = file} {d' = d'} (ground arith) in
              (found, ground arith, r)
        ]
      ]

  read_file_field-steps :
      (field : Field) (d : Disk) {file : ReceivedFile} {d' : Disk}
      → read_file_field U sha256 store max_bytes name namespace field d ≡ (ok file, d')
      → (body : ByteStream) × (prepare max_bytes field ≡ ok (file.filename, file.media_type, body))
        × (put_stream U sha256 store name namespace body d ≡ (ok file.stored, d'))
  unfolding read_file_field
  read_file_field-steps field d {file} {d'} h = elim (Result-cases (prepare max_bytes field)) [
    | inr (failure, p) ↦ absurd (ground arith)
    | inl ((filename, media_type, body), p) ↦
        elim (Put-cases (put_stream U sha256 store name namespace body d)) [
          | inr (failure, d₁, r) ↦ absurd (ground arith)
          | inl (stored, d₁, r) ↦ (body, ground arith, ground arith)
        ]
  ]

  -- A file part that is prepared and stored is received.
  pub read_file_field_of :
      (field : Field) (d : Disk) {filename : Text} {media_type : MediaType} {body : ByteStream}
      {stored : StoredObject} {d' : Disk}
      → prepare max_bytes field ≡ ok (filename, media_type, body)
      → put_stream U sha256 store name namespace body d ≡ (ok stored, d')
      → read_file_field U sha256 store max_bytes name namespace field d
        ≡ (ok (record { filename = filename; media_type = media_type; stored = stored }), d')
  unfolding read_file_field
  read_file_field_of field d {filename} {media_type} {body} {stored} {d'} p put = ground arith

  -- A request of a small field and a file part is received if its file part is.
  pub receive_file_of :
      (other field : Field) (d : Disk) {used : ℕ} {file : ReceivedFile} {d' : Disk}
      → is_file_part other ≡ false
      → drain 0 other.chunks ≡ ok used
      → is_file_part field ≡ true
      → read_file_field U sha256 store max_bytes name namespace field d ≡ (ok file, d')
      → receive_file U sha256 store max_bytes name namespace (some other ∷ some field ∷ []) d
        ≡ (ok file, d')
  unfolding receive_file receive_fields
  receive_file_of other field d {used} {file} {d'} small drained is_file r = ground arith

  -- A request that is accepted has exactly one file part. The object that is stored for it is that
  -- of all bytes of this part, as an upload to the object store that succeeds leaves it; they are
  -- no more than the limit, their signature is that of the type recorded, and no declared type
  -- contradicts it.
  pub receive_file_ok :
      (fields : List (Option Field)) (d : Disk) {file : ReceivedFile} {d' : Disk}
      → IsTree store
      → receive_file U sha256 store max_bytes name namespace fields d ≡ (ok file, d')
      → (field : Field) × (all_bytes : List ℕ) × (body : ByteStream) × (file_fields fields
          ≡ field ∷ [])
        × (field_contents field.chunks ≡ some all_bytes)
        × (length all_bytes ≤ max_bytes)
        × (Media.detect all_bytes ≡ some file.media_type)
        × (check_declared field.content_type file.media_type ≡ ok tt)
        × (file.stored.sha256 ≡ hex_lower (sha256 all_bytes))
        × Uploaded U sha256 store name namespace body d file.stored d'
  unfolding receive_file
  receive_file_ok fields d {file} {d'} tree h =
      let (field, one, r) = receive_fields-one fields 0 d h in
      let (body, p, put) = read_file_field-steps field d r in
      let uploaded = put_stream_ok U sha256 store name namespace body d tree put in
      let (whole, bound, shown, declared) = prepare_sound max_bytes field p uploaded.complete in
      (field, uploaded.bytes, body, one, whole, bound, shown, declared, uploaded.digest, uploaded)
