-- ===== src/Core/ErrorCode.antt =====
-- crates/otdel-core/src/error.rs: the stable error codes.
use otdel.Prelude.{ℕ, String, Bool, true, false}

pub data ErrorCode : Type 0 where
  validation_failed bad_request unauthorized invalid_csrf_token : ErrorCode
  forbidden not_found method_not_allowed conflict : ErrorCode
  payload_too_large unsupported_media_type rate_limited : ErrorCode
  service_unavailable internal : ErrorCode

unfoldable pub as_str : ErrorCode → String
as_str validation_failed = "validation_failed"
as_str bad_request = "bad_request"
as_str unauthorized = "unauthorized"
as_str invalid_csrf_token = "invalid_csrf_token"
as_str forbidden = "forbidden"
as_str not_found = "not_found"
as_str method_not_allowed = "method_not_allowed"
as_str conflict = "conflict"
as_str payload_too_large = "payload_too_large"
as_str unsupported_media_type = "unsupported_media_type"
as_str rate_limited = "rate_limited"
as_str service_unavailable = "service_unavailable"
as_str internal = "internal_error"

unfoldable pub http_status : ErrorCode → ℕ
http_status validation_failed = 422
http_status bad_request = 400
http_status unauthorized = 401
http_status invalid_csrf_token = 403
http_status forbidden = 403
http_status not_found = 404
http_status method_not_allowed = 405
http_status conflict = 409
http_status payload_too_large = 413
http_status unsupported_media_type = 415
http_status rate_limited = 429
http_status service_unavailable = 503
http_status internal = 500

unfoldable pub retryable : ErrorCode → Bool
retryable rate_limited = true
retryable service_unavailable = true
retryable internal = true
retryable _ = false
