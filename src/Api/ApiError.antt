-- ===== src/Api/ApiError.antt =====
-- crates/otdel-api/src/error.rs: how failures leave the server.
use otdel.Prelude.{ℕ, max, String, Bool, Option, none, some, [], ◌∷◌, lit, Message}
use otdel.Core.ErrorCode
use otdel.Core.ErrorCode.{ErrorCode}
use otdel.Core.AppError
use otdel.Core.AppError.{AppError}
use otdel.Db.DbError
use otdel.Db.DbError.{DbError}
use otdel.Storage.StorageError.{
  StorageError, StreamError, too_large, unsupported_content, upstream, invalid_key, not_found,
  stream, io, unavailable,
}

-- `retry_after` is in seconds.
pub record ApiError : Type 0 where
  pub inner : AppError
  pub retry_after : Option ℕ

abbrev pub new : AppError → ApiError
new inner = record { inner = inner; retry_after = none }

abbrev pub with_retry_after : ApiError → ℕ → ApiError
with_retry_after e retry_after = record e { retry_after = some retry_after }

abbrev pub unauthorized : ApiError
unauthorized = new (AppError.unauthorized (lit "authentication required" ∷ []))

abbrev pub not_found_error : String → ApiError
not_found_error message = new (AppError.not_found (lit message ∷ []))

-- What the client gets: the status, the error's body, and the `Retry-After` header.
pub record ErrorResponse : Type 0 where
  pub status : ℕ
  pub code : String
  pub message : Message
  pub retryable : Bool
  pub retry_after : Option ℕ

unfoldable pub into_response : ApiError → ErrorResponse
unfolding ErrorCode.http_status ErrorCode.as_str
into_response e = record {
  status = AppError.http_status e.inner;
  code = ErrorCode.as_str e.inner.code;
  message = e.inner.message;
  retryable = e.inner.retryable;
  retry_after = elim e.retry_after [ none ↦ none | some seconds ↦ some (max seconds 1) ];
}

unfoldable pub from_db_error : DbError → ApiError
unfolding DbError.to_app_error
from_db_error value = new (DbError.to_app_error value)

from_stream_error : StreamError → AppError
from_stream_error e = elim e.kind [
  | too_large ↦ AppError.new ErrorCode.payload_too_large e.message
  | unsupported_content ↦ AppError.new ErrorCode.unsupported_media_type e.message
  | upstream ↦
      AppError.new ErrorCode.bad_request
        (lit "the upload was interrupted before the file was fully received" ∷ [])
]

unfoldable pub from_storage_error : StorageError → ApiError
unfolding from_stream_error
from_storage_error (stream e) = new (from_stream_error e)
from_storage_error (not_found key) =
    new (AppError.internal_error (lit "the stored original is currently unavailable" ∷ []))
from_storage_error (invalid_key message) =
    new (AppError.internal_error (lit "internal server error" ∷ []))
from_storage_error (unavailable message) =
    new (AppError.unavailable (lit "file storage is not available right now" ∷ []))
from_storage_error (io operation) =
    new (AppError.unavailable (lit "file storage is not available right now" ∷ []))
