-- ===== src/Storage/StorageError.antt =====
-- crates/otdel-storage/src/error.rs: why a stream stopped, and what the store answers.
use otdel.Prelude.{String, Message, Option, none, some}
use otdel.Prelude.Text.{Text}

pub data StreamErrorKind : Type 0 where
  too_large unsupported_content upstream : StreamErrorKind

pub record StreamError : Type 0 where
  pub kind : StreamErrorKind
  pub message : Message

-- An `io` error carries the operation that failed; its `std::io` cause goes to the log only.
pub data StorageError : Type 0 where
  invalid_key : String → StorageError
  not_found : Text → StorageError
  stream : StreamError → StorageError
  io : String → StorageError
  unavailable : String → StorageError

abbrev pub stream_error : StorageError → Option StreamError
stream_error (stream e) = some e
stream_error (invalid_key m) = none
stream_error (not_found k) = none
stream_error (io operation) = none
stream_error (unavailable m) = none
