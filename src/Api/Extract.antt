-- ===== src/Api/Extract.antt =====
-- crates/otdel-api/src/extract.rs: the rejections of axum's extractors in the contract's error shape.
use otdel.Prelude.{ℕ, String, [], ◌∷◌, ◌==◌, if◌then◌else◌, lit}
use otdel.Core.AppError
use otdel.Core.AppError.{AppError}
use otdel.Core.ErrorCode.{ErrorCode}
use otdel.Api.ApiError
use otdel.Api.ApiError.{ApiError}

-- What the code tells apart of `JsonRejection`.
pub data JsonRejection : Type 0 where
  missing_json_content_type bytes_rejection other : JsonRejection

abbrev json_message : JsonRejection → String
json_message missing_json_content_type = "request body must be sent as application/json"
json_message bytes_rejection = "request body could not be read"
json_message other = "request body is not valid JSON for this endpoint"

unfoldable pub json_rejection : JsonRejection → ApiError
json_rejection rejection = ApiError.new (AppError.bad_request (lit (json_message rejection) ∷ []))

-- From the status of the rejection.
unfoldable pub multipart_rejection : ℕ → ApiError
multipart_rejection status =
    let code : ErrorCode =
      if status == 413
      then ErrorCode.payload_too_large
      else if status == 415
      then ErrorCode.unsupported_media_type
      else ErrorCode.bad_request in
    ApiError.new
      (AppError.new code (lit "request must be a multipart/form-data body with a `file` part" ∷ []))

pub data PathRejection : Type 0 where
  failed_to_deserialize missing : PathRejection

unfoldable pub path_rejection : PathRejection → ApiError
path_rejection failed_to_deserialize =
    ApiError.new (AppError.validation (lit "path identifiers must be UUIDs" ∷ []))
path_rejection missing =
    ApiError.new (AppError.bad_request (lit "request path could not be parsed" ∷ []))
