-- ===== src/Api/Routes/Session.antt =====
-- crates/otdel-api/src/routes/session.rs: login, the session, and logout. Argon2 is the parameter
-- `verify`; a token is what the generator gives; a `Duration` of the throttle is in nanoseconds.
use otdel.Prelude.{
  ℕ, ◌/◌, ◌^◌, Bool, true, false, Option, none, some, List, [], ◌∷◌, ltb, if◌then◌else◌, Result, ok,
  err, ◌>>=◌, map_err, lit,
}
use otdel.Prelude.Text.{Text}
use otdel.Core.AppError
use otdel.Core.AppError.{AppError}
use otdel.Core.Config.{Config}
use otdel.Core.ErrorCode
use otdel.Core.Model.{DateTime}
use otdel.Core.Secret.{token_fingerprint}
use otdel.Api.ApiError
use otdel.Api.ApiError.{ApiError}
use otdel.Api.Auth.{AuthConfig, Session}
use otdel.Api.Cookie.{session_cookie, cleared_cookie, read_cookie}
use otdel.Api.Throttle.{Instant, Duration, LoginThrottle, reserve_at, record_success}
use otdel.Db.DbError.{DbError}
use otdel.Db.Sessions.{Bureau, SessionRow, open_session, close}
use otdel.Storage.Uuid.{Uuid}

abbrev pub auth_config : Config → AuthConfig
auth_config config = record {
  cookie_name = config.cookie_name;
  session_idle_timeout = config.session_idle_timeout;
  cors_allowed_origins = config.cors_allowed_origins;
}

-- The answer to a login: the `Set-Cookie` value and the body.
pub record SessionResponse : Type 0 where
  pub set_cookie : Text
  pub csrf_token : Text

abbrev throttled : Duration → ApiError
throttled retry_after =
    ApiError.with_retry_after
      (ApiError.new (
        AppError.with_retryable
          (AppError.new ErrorCode.rate_limited
            (lit "too many failed sign-in attempts; try again later" ∷ []))
          true))
      (retry_after / 1000000000)

abbrev sign_in_failed : ApiError
sign_in_failed = ApiError.new (AppError.unauthorized (lit "sign-in failed" ∷ []))

abbrev sessions_unavailable : ApiError
sessions_unavailable = ApiError.new (
    AppError.unavailable (
      lit
        "sessions are not available; check that the database is migrated and the bureau is provisioned"
      ∷ []))

-- `i32::try_from` of the time to live.
ttl_seconds : Config → Result ℕ ApiError
ttl_seconds config =
    if ltb config.session_ttl (2 ^ 31)
    then ok config.session_ttl
    else err (ApiError.new (AppError.internal_error (lit "internal server error" ∷ [])))

module _ (sha256 : List ℕ → List ℕ) (bureaus : List Bureau) (config : Config) where
  -- What follows the check of the password; every failure of the database is one answer.
  unfoldable pub start_session :
      Uuid
      → DateTime
      → Text
      → Text
      → List SessionRow
      → Result (SessionResponse × List SessionRow) ApiError
  unfolding ttl_seconds
  start_session new_id now token csrf_token sessions = ttl_seconds config >>= λ ttl.
      map_err (λ (failure : DbError). sessions_unavailable)
        (open_session bureaus new_id now sessions config.bureau_slug
          (token_fingerprint sha256 token) csrf_token ttl)
      >>= λ opened. ok (
        record {
          set_cookie =
              session_cookie config.cookie_name token config.session_ttl config.cookie_secure;
          csrf_token = opened.0.csrf_token;
        },
        opened.1,
      )

  -- The attempt is counted before the password is verified, and forgiven when that succeeds.
  unfoldable pub login :
      (Text → Text → Bool)
      → Uuid
      → Instant
      → DateTime
      → Text
      → Text
      → Text
      → Text
      → LoginThrottle
      → List SessionRow
      → Result SessionResponse ApiError × LoginThrottle × List SessionRow
  unfolding start_session reserve_at record_success
  login verify new_id instant now client token csrf_token password throttle sessions =
      let (counted, decision) = reserve_at throttle client instant in
      elim decision [
        | err retry_after ↦ (err (throttled retry_after), counted, sessions)
        | ok admitted ↦ elim (verify config.owner_password_hash password) [
          | false ↦ (err sign_in_failed, counted, sessions)
          | true ↦ elim (start_session new_id now token csrf_token sessions) [
            | err failure ↦ (err failure, record_success counted client, sessions)
            | ok (response, after) ↦ (ok response, record_success counted client, after)
          ]
        ]
      ]

  -- `unwrap_or_default` of the token in the cookie.
  cookie_token : Option Text → Text
  cookie_token none = []
  cookie_token (some header) = elim (read_cookie header config.cookie_name) [
    | none ↦ []
    | some token ↦ token
  ]

  -- The extractor has let the request in; the answer clears the cookie.
  unfoldable pub logout : Option Text → List SessionRow → Text × List SessionRow
  unfolding cookie_token
  logout cookie sessions = (
    cleared_cookie config.cookie_name config.cookie_secure,
    (close sessions (token_fingerprint sha256 (cookie_token cookie))).1,
  )

-- The session that the extractor has let in, with its CSRF token after a page reload.
unfoldable pub show : Session → Text
show session = session.csrf_token
