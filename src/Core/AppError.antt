-- ===== src/Core/AppError.antt =====
-- crates/otdel-core/src/error.rs: the error that is safe to show to a client.
use otdel.Prelude.{ℕ, Bool, Message}
use otdel.Core.ErrorCode
use otdel.Core.ErrorCode.{ErrorCode}

pub record AppError : Type 0 where
  pub code : ErrorCode
  pub message : Message
  pub retryable : Bool

abbrev pub new : ErrorCode → Message → AppError
unfolding ErrorCode.retryable
new code message = record { code = code; message = message; retryable = ErrorCode.retryable code }

abbrev pub with_retryable : AppError → Bool → AppError
with_retryable e retryable = record e { retryable = retryable }

abbrev pub validation : Message → AppError
validation = new ErrorCode.validation_failed

abbrev pub bad_request : Message → AppError
bad_request = new ErrorCode.bad_request

abbrev pub unauthorized : Message → AppError
unauthorized = new ErrorCode.unauthorized

abbrev pub forbidden : Message → AppError
forbidden = new ErrorCode.forbidden

abbrev pub not_found : Message → AppError
not_found = new ErrorCode.not_found

abbrev pub conflict : Message → AppError
conflict = new ErrorCode.conflict

abbrev pub internal_error : Message → AppError
internal_error = new ErrorCode.internal

abbrev pub unavailable : Message → AppError
unavailable = new ErrorCode.service_unavailable

abbrev pub http_status : AppError → ℕ
unfolding ErrorCode.http_status
http_status e = ErrorCode.http_status e.code
