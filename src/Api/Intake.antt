-- ===== src/Api/Intake.antt =====
-- crates/otdel-api/src/upload.rs: intake of one file from a multipart request.
pub mod Limits
pub mod Received
use otdel.Prelude.{
  ℕ, ◌+◌, ◌*◌, Bool, true, false, not, Option, none, some, List, [], ◌∷◌, ◌++◌, map, ltb,
  if◌then◌else◌, length, is_empty, Result, ok, err, ◌>>=◌, map_err, ok_or, lit, arg, num,
}
use otdel.Prelude.Text.{Text, codes, text_eq, bytes}
use otdel.Core.AppError
use otdel.Core.AppError.{AppError}
use otdel.Core.ErrorCode
use otdel.Core.Media
use otdel.Core.Media.{MediaType, signature_prefix_len}
use otdel.Core.Validate.{display_filename}
use otdel.Api.ApiError
use otdel.Api.ApiError.{ApiError}
use otdel.Storage.Disk.{Disk, Io}
use otdel.Storage.Fs.{FilesystemObjectStore, StoredObject, ByteStream, put_stream}
use otdel.Storage.Key.{ObjectNamespace}
use otdel.Storage.StorageError.{StreamError, too_large, upstream}
use otdel.Storage.Uuid.{UuidText}

abbrev pub max_other_field_bytes : ℕ
max_other_field_bytes = 64 * 1024

-- A field of the request and the chunks that it gives, of which one may be an error of the parser.
pub record Field : Type 0 where
  pub name : Option Text
  pub file_name : Option Text
  pub content_type : Option Text
  pub chunks : List (Option (List ℕ))

pub record ReceivedFile : Type 0 where
  pub filename : Text
  pub media_type : MediaType
  pub stored : StoredObject

abbrev interrupted : ApiError
interrupted = ApiError.new (
    AppError.bad_request (lit "the upload was interrupted before the file was fully received" ∷ []))

abbrev upstream_error : StreamError
upstream_error = record {
  kind = upstream;
  message = lit "the upload was interrupted before the file was fully received" ∷ [];
}

abbrev too_large_error : ℕ → StreamError
too_large_error max_bytes = record {
  kind = too_large;
  message = lit "file exceeds the " ∷ num max_bytes ∷ lit "-byte upload limit" ∷ [];
}

-- `field_stream`: it ends with the first error.
unfoldable pub field_stream : List (Option (List ℕ)) → ByteStream
field_stream [] = []
field_stream (none ∷ chunks) = err upstream_error ∷ []
field_stream (some chunk ∷ chunks) = ok chunk ∷ field_stream chunks

-- `limit_size`, from `written` bytes on.
unfoldable pub limit_size : ℕ → ℕ → ByteStream → ByteStream
limit_size max_bytes written [] = []
limit_size max_bytes written (err failure ∷ body) = err failure ∷ []
limit_size max_bytes written (ok chunk ∷ body) =
    let rest = limit_size max_bytes (written + length chunk) body in
    if ltb max_bytes (written + length chunk)
    then err (too_large_error max_bytes) ∷ []
    else ok chunk ∷ rest

-- The chunks held back until the signature can be read: the prefix, the head, and what is left.
unfoldable pub read_head :
    List ℕ
    → List (List ℕ)
    → List (Option (List ℕ))
    → Result (List ℕ × List (List ℕ) × List (Option (List ℕ))) ApiError
read_head prefix head [] = ok (prefix, head, [])
read_head prefix head (chunk ∷ chunks) =
    let rest = λ (bytes : List ℕ). read_head (prefix ++ bytes) (head ++ (bytes ∷ [])) chunks in
    if ltb (length prefix) signature_prefix_len
    then elim chunk [ none ↦ err interrupted | some bytes ↦ rest bytes ]
    else ok (prefix, head, chunk ∷ chunks)

abbrev same_media_type : MediaType → MediaType → Bool
same_media_type a b = text_eq (Media.as_str a) (Media.as_str b)

-- A declared type that names another accepted format is refused, any other is ignored.
unfoldable pub check_declared : Option Text → MediaType → Result (Unit {0}) ApiError
unfolding Media.parse Media.as_str text_eq
check_declared none media_type = ok tt
check_declared (some declared) media_type = elim (Media.parse declared) [
  | none ↦ ok tt
  | some parsed ↦
      if same_media_type parsed media_type
      then ok tt
      else err (
          ApiError.new (
            AppError.new ErrorCode.unsupported_media_type (
              lit "declared content type `"
              ∷ arg (Media.as_str parsed)
              ∷ lit "` does not match the file content ("
              ∷ arg (Media.as_str media_type)
              ∷ lit ")"
              ∷ [])))
]

abbrev not_accepted : ApiError
not_accepted = ApiError.new (
    AppError.new ErrorCode.unsupported_media_type (
      lit "file content is not one of the formats accepted in this phase ("
      ∷ lit "application/pdf, image/png, image/jpeg"
      ∷ lit ")"
      ∷ []))

-- The type that the content shows.
unfoldable pub detect_type : List ℕ → Result MediaType ApiError
unfolding Media.detect
detect_type prefix =
    if is_empty prefix
    then err (ApiError.new (AppError.validation (lit "the uploaded file is empty" ∷ [])))
    else ok_or (Media.detect prefix) not_accepted

-- What is known of a file before its bytes are stored: its name, its type and its stream.
unfoldable pub prepare : ℕ → Field → Result (Text × MediaType × ByteStream) ApiError
unfolding read_head check_declared display_filename detect_type limit_size field_stream
prepare max_bytes field = read_head [] [] field.chunks >>= λ read.
    detect_type read.0 >>= λ media_type. check_declared field.content_type media_type >>= λ checked.
    ok (
      display_filename (elim field.file_name as (λ _. Text) [ none ↦ [] | some name ↦ name ])
          media_type,
      media_type,
      limit_size max_bytes 0 (map ok read.1 ++ field_stream read.2),
    )

-- The other fields are drained; `used` counts their bytes over the whole request.
unfoldable pub drain : ℕ → List (Option (List ℕ)) → Result ℕ ApiError
drain used [] = ok used
drain used (none ∷ chunks) = err interrupted
drain used (some chunk ∷ chunks) =
    let rest = drain (used + length chunk) chunks in
    if ltb max_other_field_bytes (used + length chunk)
    then err (
        ApiError.new (
          AppError.new ErrorCode.payload_too_large
            (lit "unexpected form fields are too large; send only the `file` part" ∷ [])))
    else rest

abbrev pub is_file_part : Field → Bool
is_file_part field = elim field.name [ none ↦ false | some name ↦ text_eq name (codes "file") ]

module _ (U : UuidText) (sha256 : List ℕ → List ℕ) (store : FilesystemObjectStore)
    (max_bytes : ℕ) where
  -- `name` is the fresh name of the staging file.
  unfoldable pub read_file_field :
      Text → ObjectNamespace → Field → Disk → Result ReceivedFile ApiError × Disk
  unfolding prepare put_stream
  read_file_field name namespace field d = elim (prepare max_bytes field) [
    | err failure ↦ (err failure, d)
    | ok (filename, media_type, body) ↦
        let (stored, d') = put_stream U sha256 store name namespace body d in
        (
          map_err ApiError.from_storage_error stored >>= λ object.
              ok record { filename = filename; media_type = media_type; stored = object },
          d',
        )
  ]

  -- The fields of the request, of which one may be malformed. A second file part ends the request,
  -- so one fresh name is enough; the object of the first one stays, and is logged as an orphan.
  unfoldable pub receive_fields :
      Text
      → ObjectNamespace
      → Option ReceivedFile
      → ℕ
      → List (Option Field)
      → Disk
      → Result ReceivedFile ApiError × Disk
  unfolding read_file_field drain
  receive_fields name namespace received used [] d = (
    ok_or received (
        ApiError.new
          (AppError.validation (lit "multipart request must contain a `file` part" ∷ []))),
    d,
  )
  receive_fields name namespace received used (none ∷ fields) d = (
    err (
        ApiError.new
          (AppError.bad_request (lit "request body is not valid multipart form data" ∷ []))),
    d,
  )
  receive_fields name namespace received used (some field ∷ fields) d = elim (is_file_part field) [
    | false ↦ elim (drain used field.chunks) [
      | err failure ↦ (err failure, d)
      | ok used' ↦ receive_fields name namespace received used' fields d
    ]
    | true ↦ elim received [
      | some previous ↦ (
        err (ApiError.new (AppError.validation (lit "send exactly one file per request" ∷ []))),
        d,
      )
      | none ↦
          let (read, d') = read_file_field name namespace field d in
          elim read [
            | err failure ↦ (err failure, d')
            | ok file ↦ receive_fields name namespace (some file) used fields d'
          ]
    ]
  ]

  unfoldable pub receive_file :
      Text → ObjectNamespace → List (Option Field) → Disk → Result ReceivedFile ApiError × Disk
  unfolding receive_fields
  receive_file name namespace fields = receive_fields name namespace none 0 fields
