-- ===== src/Core/Config/Parts.antt =====
-- crates/otdel-core/src/config.rs: the parts of `Config::load`, each with its checks.
use otdel.Prelude.{
  ℕ, ◌*◌, min, max, Bool, true, false, ◌&&◌, ◌||◌, not, Option, none, some, List, [], ◌∷◌, map, ltb,
  ◌==◌, if◌then◌else◌, all, filter, is_empty, Result, ok, err, ◌>>=◌, lit, arg,
}
use otdel.Prelude.Text.{
  Text, codes, text_eq, starts_with, split, is_ascii_digit, is_ascii_lowercase,
  is_ascii_alphanumeric, trim,
}
use otdel.Core.AppError
use otdel.Core.AppError.{AppError}
use otdel.Core.Secret.{looks_like_placeholder}
use otdel.Core.Config.Values.{
  RuntimeEnv, local, production, LoginThrottle, Source, session_seconds_min, session_ttl_max,
  invalid, parse_env, string_or, placeholder_error, required_secret, parse_bool, parse_u64_or,
  duration_secs_or, to_u32,
}

-- The parts of `load`, in the order of the source. Each reads its values and checks them.
unfoldable pub load_env : Source → Result RuntimeEnv AppError
unfolding parse_env
load_env source = elim (source (codes "OTDEL_ENV")) [
  | none ↦ ok local
  | some value ↦ parse_env value
]

unfoldable pub load_admin_url : Source → Result (Option Text) AppError
unfolding looks_like_placeholder placeholder_error
load_admin_url source = elim (source (codes "OTDEL_DATABASE_ADMIN_URL")) [
  | none ↦ ok none
  | some value ↦
      if is_empty (trim value)
      then ok none
      else if looks_like_placeholder value
      then err (placeholder_error (codes "OTDEL_DATABASE_ADMIN_URL"))
      else ok (some value)
]

unfoldable pub load_password_hash : (Text → Option Text) → Source → Result Text AppError
unfolding required_secret starts_with
load_password_hash algorithm source =
    required_secret source (codes "OTDEL_OWNER_PASSWORD_HASH") >>= λ hash.
    elim (algorithm hash) as (λ _. Result Text AppError) [
      | none ↦ err (
          invalid
            "OTDEL_OWNER_PASSWORD_HASH must be an Argon2 PHC hash; run `scripts/dev-init.sh` to generate the local owner credentials")
      | some name ↦
          if starts_with name (codes "argon2")
          then ok hash
          else err (
              invalid
                "OTDEL_OWNER_PASSWORD_HASH must be an Argon2 PHC hash; run `scripts/dev-init.sh` to generate the local owner credentials")
    ]

unfoldable pub is_slug_char : ℕ → Bool
is_slug_char c = is_ascii_lowercase c || is_ascii_digit c || c == b'-'

unfoldable pub load_slug : Source → Result Text AppError
unfolding string_or is_slug_char
load_slug source =
    let slug = string_or source (codes "OTDEL_BUREAU_SLUG") (codes "local") in
    if is_empty slug || not (all slug is_slug_char)
    then err (invalid "OTDEL_BUREAU_SLUG must be lowercase ASCII letters, digits or `-`")
    else ok slug

unfoldable pub check_origins : List Text → Result (Unit {0}) AppError
check_origins [] = ok tt
check_origins (origin ∷ origins) =
    let rest = check_origins origins in
    if text_eq origin (codes "*")
    then err (
        invalid
          "OTDEL_CORS_ALLOWED_ORIGINS must list explicit origins; `*` is not allowed with credentialed requests")
    else if not (starts_with origin (codes "http://"))
        && not (starts_with origin (codes "https://"))
    then err (
        AppError.validation (
          lit "OTDEL_CORS_ALLOWED_ORIGINS entry `"
          ∷ arg origin
          ∷ lit "` must be a full origin, e.g. http://127.0.0.1:15173"
          ∷ []))
    else rest

-- The entries of the list that are not empty.
unfoldable pub listed_origins : Source → List Text
listed_origins source =
    filter
      (map trim (
        split
          (string_or source (codes "OTDEL_CORS_ALLOWED_ORIGINS")
            (codes "http://127.0.0.1:15173,http://localhost:15173"))
          b','))
      (λ value. not (is_empty value))

unfoldable pub load_origins : Source → Result (List Text) AppError
load_origins source =
    check_origins (listed_origins source) >>= λ checked. ok (listed_origins source)

unfoldable pub load_session : Source → Result (ℕ × ℕ) AppError
unfolding parse_u64_or
load_session source =
    duration_secs_or source (codes "OTDEL_SESSION_TTL_SECONDS") (12 * 3600) >>= λ ttl.
    duration_secs_or source (codes "OTDEL_SESSION_IDLE_TIMEOUT_SECONDS") (2 * 3600) >>= λ idle.
    if ltb ttl session_seconds_min || ltb session_ttl_max ttl
    then err (invalid "OTDEL_SESSION_TTL_SECONDS must be between 60 and 604800")
    else if ltb idle session_seconds_min
    then err (
        invalid
          "OTDEL_SESSION_IDLE_TIMEOUT_SECONDS must be at least 60 (the database session functions reject anything shorter)")
    else if ltb ttl idle
    then err
        (invalid "OTDEL_SESSION_IDLE_TIMEOUT_SECONDS must not exceed OTDEL_SESSION_TTL_SECONDS")
    else ok (ttl, idle)

unfoldable pub is_cookie_char : ℕ → Bool
is_cookie_char c = is_ascii_alphanumeric c || c == b'_' || c == b'-'

unfoldable pub load_cookie_name : Source → Result Text AppError
unfolding string_or is_cookie_char
load_cookie_name source =
    let name = string_or source (codes "OTDEL_SESSION_COOKIE_NAME") (codes "otdel_session") in
    if is_empty name || not (all name is_cookie_char)
    then err (invalid "OTDEL_SESSION_COOKIE_NAME must be alphanumeric with `_`/`-`")
    else ok name

abbrev pub is_production : RuntimeEnv → Bool
is_production local = false
is_production production = true

unfoldable pub load_cookie_secure : RuntimeEnv → Source → Result Bool AppError
unfolding parse_bool
load_cookie_secure env source =
    (elim (source (codes "OTDEL_COOKIE_SECURE")) as (λ _. Result Bool AppError) [
      | none ↦ ok (is_production env)
      | some value ↦ parse_bool value (codes "OTDEL_COOKIE_SECURE")
    ])
    >>= λ secure.
        if is_production env && not secure
        then err (invalid "OTDEL_COOKIE_SECURE cannot be disabled when OTDEL_ENV=production")
        else ok secure

unfoldable pub load_max_upload : Source → Result ℕ AppError
unfolding parse_u64_or
load_max_upload source =
    parse_u64_or source (codes "OTDEL_MAX_UPLOAD_BYTES") (25 * 1024 * 1024) >>= λ n.
    if (n == 0) || ltb (512 * 1024 * 1024) n
    then err (invalid "OTDEL_MAX_UPLOAD_BYTES must be between 1 and 536870912")
    else ok n

unfoldable pub load_throttle : Source → Result LoginThrottle AppError
unfolding parse_u64_or
load_throttle source = parse_u64_or source (codes "OTDEL_LOGIN_MAX_FAILURES") 10 >>= λ n.
    to_u32 n "OTDEL_LOGIN_MAX_FAILURES is too large" >>= λ failures.
    duration_secs_or source (codes "OTDEL_LOGIN_FAILURE_WINDOW_SECONDS") 900 >>= λ window.
    duration_secs_or source (codes "OTDEL_LOGIN_LOCKOUT_SECONDS") 900 >>= λ lockout.
    ok record { max_failures = max failures 1; window = window; lockout = lockout }

-- `clamp(1, 64)`
unfoldable pub load_connections : Source → Result ℕ AppError
unfolding parse_u64_or
load_connections source = parse_u64_or source (codes "OTDEL_DATABASE_MAX_CONNECTIONS") 8 >>= λ n.
    to_u32 n "OTDEL_DATABASE_MAX_CONNECTIONS is too large" >>= λ connections.
    ok (min (max connections 1) 64)
