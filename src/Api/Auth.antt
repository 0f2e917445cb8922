-- ===== src/Api/Auth.antt =====
-- crates/otdel-api/src/auth/mod.rs: the `Session` extractor, with its CSRF and origin checks.
pub mod Admission
use otdel.Prelude.{
  ℕ, ◌^◌, String, Bool, true, false, not, Option, none, some, List, [], ◌∷◌, ltb, if◌then◌else◌,
  any, is_empty, Result, ok, err, ◌>>=◌, ◌>>◌, map_err, ok_or, lit,
}
use otdel.Prelude.Text.{Text, text_eq}
use otdel.Core.AppError
use otdel.Core.AppError.{AppError}
use otdel.Core.ErrorCode
use otdel.Core.Model.{DateTime}
use otdel.Core.Secret.{tokens_match, token_fingerprint}
use otdel.Api.ApiError
use otdel.Api.ApiError.{ApiError}
use otdel.Api.Cookie.{read_cookie}
use otdel.Db.Sessions.{SessionRow, SessionRecord, touch}
use otdel.Storage.Uuid.{Uuid}

pub data Method : Type 0 where
  get head options post put patch delete other_method : Method

-- The headers that the extractor reads; a value that is no text counts as absent.
pub record Parts : Type 0 where
  pub method : Method
  pub cookie : Option Text
  pub origin : Option Text
  pub x_csrf_token : Option Text

-- The fields of `Config` that it reads; the idle timeout is in seconds.
pub record AuthConfig : Type 0 where
  pub cookie_name : Text
  pub session_idle_timeout : ℕ
  pub cors_allowed_origins : List Text

pub record Session : Type 0 where
  pub session_id : Uuid
  pub bureau_id : Uuid
  pub csrf_token : Text
  pub expires_at : DateTime

unfoldable pub changes_state : Method → Bool
changes_state get = false
changes_state head = false
changes_state options = false
changes_state _ = true

abbrev csrf_refused : String → ApiError
csrf_refused message = ApiError.new (AppError.new ErrorCode.invalid_csrf_token (lit message ∷ []))

unfoldable pub check_csrf : Parts → Text → Result (Unit {0}) ApiError
unfolding tokens_match
check_csrf parts expected =
    let provided : Text = elim parts.x_csrf_token [ none ↦ [] | some value ↦ value ] in
    if is_empty provided
    then err (csrf_refused "X-CSRF-Token header is required for this request")
    else if not (tokens_match expected provided)
    then err (csrf_refused "X-CSRF-Token does not match this session")
    else ok tt

unfoldable pub check_origin : Parts → AuthConfig → Result (Unit {0}) ApiError
check_origin parts config = elim parts.origin [
  | none ↦ ok tt
  | some origin ↦
      if any config.cors_allowed_origins (λ allowed. text_eq allowed origin)
      then ok tt
      else err (ApiError.new (AppError.forbidden (lit "this request origin is not allowed" ∷ [])))
]

-- The token of the request: a cookie of the configured name that is not empty.
unfoldable pub request_token : Parts → AuthConfig → Option Text
unfolding read_cookie
request_token parts config = elim parts.cookie [
  | none ↦ none
  | some header ↦ elim (read_cookie header config.cookie_name) [
    | none ↦ none
    | some token ↦ if is_empty token then none else some token
  ]
]

-- `i32::try_from`
unfoldable pub idle_seconds : AuthConfig → Result ℕ ApiError
idle_seconds config =
    if ltb config.session_idle_timeout (2 ^ 31)
    then ok config.session_idle_timeout
    else err (ApiError.new (AppError.internal_error (lit "internal server error" ∷ [])))

-- The checks of a request that changes state.
unfoldable pub check_request : Parts → AuthConfig → Text → Result (Unit {0}) ApiError
unfolding changes_state check_origin check_csrf
check_request parts config csrf_token =
    if changes_state parts.method
    then check_origin parts config >> check_csrf parts csrf_token
    else ok tt

-- The sessions of the database are touched as soon as the token is known, refused request or not.
unfoldable pub from_request_parts :
    (List ℕ → List ℕ)
    → DateTime
    → List SessionRow
    → Parts
    → AuthConfig
    → Result Session ApiError × List SessionRow
unfolding request_token idle_seconds check_request token_fingerprint
from_request_parts sha256 now sessions parts config =
    elim (ok_or (request_token parts config) ApiError.unauthorized >>= λ token.
    idle_seconds config >>= λ idle.
    map_err ApiError.from_db_error (touch now sessions (token_fingerprint sha256 token) idle)) [
      | err failure ↦ (err failure, sessions)
      | ok (found, after) ↦ (
        ok_or found ApiError.unauthorized >>= λ found'.
            check_request parts config found'.csrf_token
            >> ok record {
              session_id = found'.session_id;
              bureau_id = found'.bureau_id;
              csrf_token = found'.csrf_token;
              expires_at = found'.expires_at;
            },
        after,
      )
    ]
