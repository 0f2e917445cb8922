-- ===== src/Core/Config/Valid.antt =====
-- What a configuration that loads is known to satisfy.
use otdel.Prelude.{
  ℕ, ◌*◌, ◌≤◌, ◌≡◌, refl, subst, ◌⊎◌, inl, inr, Bool, true, false, Option, none, some, List, [],
  ◌∷◌, arith, all, any, is_empty, Result, ok, >>=-passed, ok_or, Result-cases, lit, arg,
}
use otdel.Prelude.Text.{Text, codes, text_eq}
use otdel.Core.AppError
use otdel.Core.AppError.{AppError}
use otdel.Core.Config.{
  RuntimeEnv, local, production, Config, Source, LoginThrottle, load_env, load_admin_url,
  load_password_hash, load_slug, check_origins, listed_origins, load_origins, string_or, invalid,
  load_session, is_cookie_char, load_cookie_name, load_cookie_secure, load_max_upload,
  load_throttle, load_connections, required_secret, parse_bool, parse_u64_or, duration_secs_or,
  load,
}
use otdel.Core.Secret.{looks_like_placeholder}

ok-injective : {a b : Config} → ◌≡◌ {A = Result Config AppError} (ok a) (ok b) → a ≡ b
ok-injective e = ground arith

load_session-valid :
    (source : Source) {ttl idle : ℕ}
    → load_session source ≡ ok (ttl, idle)
    → (60 ≤ idle) × (idle ≤ ttl) × (ttl ≤ 604800)
unfolding load_session
load_session-valid source {ttl} {idle} h =
    elim (Result-cases (duration_secs_or source (codes "OTDEL_SESSION_TTL_SECONDS") (12 * 3600))) [
      | inr (failure, e) ↦ absurd (ground arith)
      | inl (t, e) ↦
          elim (Result-cases
            (duration_secs_or source (codes "OTDEL_SESSION_IDLE_TIMEOUT_SECONDS") (2 * 3600))) [
              | inr (failure, g) ↦ absurd (ground arith)
              | inl (i, g) ↦ ground arith
            ]
    ]

load_cookie_secure-valid :
    (env : RuntimeEnv) (source : Source) {secure : Bool}
    → load_cookie_secure env source ≡ ok secure
    → (env ≡ local) ⊎ (secure ≡ true)
unfolding load_cookie_secure
load_cookie_secure-valid local source {secure} h = inl refl
load_cookie_secure-valid production source {secure} h =
    let (found, e, g) =
      >>=-passed
        (elim (source (codes "OTDEL_COOKIE_SECURE")) as (λ _. Result Bool AppError) [
          | none ↦ ok true
          | some value ↦ parse_bool value (codes "OTDEL_COOKIE_SECURE")
        ])
        _ h in
    inr (ground (arith, g))

load_max_upload-valid :
    (source : Source) {n : ℕ} → load_max_upload source ≡ ok n → (1 ≤ n) × (n ≤ 536870912)
unfolding load_max_upload
load_max_upload-valid source {n} h =
    let (found, e, g) =
      >>=-passed (parse_u64_or source (codes "OTDEL_MAX_UPLOAD_BYTES") (25 * 1024 * 1024)) _ h in
    ground (arith, g)

load_connections-valid :
    (source : Source) {n : ℕ} → load_connections source ≡ ok n → (1 ≤ n) × (n ≤ 64)
unfolding load_connections
load_connections-valid source {n} h =
    elim (Result-cases (parse_u64_or source (codes "OTDEL_DATABASE_MAX_CONNECTIONS") 8)) [
      | inr (failure, e) ↦ absurd (ground arith)
      | inl (found, e) ↦ ground arith
    ]

load_cookie_name-valid :
    (source : Source) {name : Text}
    → load_cookie_name source ≡ ok name
    → (is_empty name ≡ false) × (all name is_cookie_char ≡ true)
unfolding load_cookie_name
load_cookie_name-valid source {name} h = ground arith

check_origins-valid :
    (origins : List Text) {u : Unit {0}}
    → check_origins origins ≡ ok u
    → any origins (λ origin. text_eq origin (codes "*")) ≡ false
unfolding check_origins
check_origins-valid [] h = refl
check_origins-valid (origin ∷ origins) {u} h = ground (arith, check_origins-valid origins {u = u})

load_throttle-valid :
    (source : Source) {throttle : LoginThrottle}
    → load_throttle source ≡ ok throttle
    → 1 ≤ throttle.max_failures
unfolding load_throttle
load_throttle-valid source {throttle} h =
    elim (Result-cases (parse_u64_or source (codes "OTDEL_LOGIN_MAX_FAILURES") 10)) [
      | inr (failure, e) ↦ absurd (ground arith)
      | inl (n, e) ↦
          elim (Result-cases
            (duration_secs_or source (codes "OTDEL_LOGIN_FAILURE_WINDOW_SECONDS") 900)) [
              | inr (failure, w) ↦ absurd (ground arith)
              | inl (window, w) ↦
                  elim (Result-cases
                    (duration_secs_or source (codes "OTDEL_LOGIN_LOCKOUT_SECONDS") 900)) [
                      | inr (failure, l) ↦ absurd (ground arith)
                      | inl (lockout, l) ↦ ground arith
                    ]
            ]
    ]

load_origins-valid :
    (source : Source) {origins : List Text}
    → load_origins source ≡ ok origins
    → any origins (λ origin. text_eq origin (codes "*")) ≡ false
unfolding load_origins
load_origins-valid source {origins} h =
    let (checked, e, g) = >>=-passed (check_origins (listed_origins source)) _ h in
    subst (λ listed. any listed (λ origin. text_eq origin (codes "*")) ≡ false) (ground (arith, g))
      (check_origins-valid (listed_origins source) e)

required_secret-valid :
    (source : Source) (key : Text) {value : Text}
    → required_secret source key ≡ ok value
    → looks_like_placeholder value ≡ false
unfolding required_secret
required_secret-valid source key {value} h =
    let (found, e, g) =
      >>=-passed (ok_or (source key) (AppError.validation (arg key ∷ lit " is not set" ∷ []))) _
        h in
    ground (arith, g)

-- What the checks of `load` make sure of, whatever the environment says.
pub record Checked (config : Config) : Type 0 where
  pub idle_bound : 60 ≤ config.session_idle_timeout
  pub idle_within : config.session_idle_timeout ≤ config.session_ttl
  pub ttl_bound : config.session_ttl ≤ 604800
  pub secure : (config.env ≡ local) ⊎ (config.cookie_secure ≡ true)
  pub upload_some : 1 ≤ config.max_upload_bytes
  pub upload_bound : config.max_upload_bytes ≤ 536870912
  pub failures_some : 1 ≤ config.login_throttle.max_failures
  pub connections_some : 1 ≤ config.database_max_connections
  pub connections_bound : config.database_max_connections ≤ 64
  pub named : is_empty config.cookie_name ≡ false
  pub plain_name : all config.cookie_name is_cookie_char ≡ true
  pub explicit : any config.cors_allowed_origins (λ origin. text_eq origin (codes "*")) ≡ false
  pub real_url : looks_like_placeholder config.database_url ≡ false

-- A configuration that loads has an idle timeout of 60 seconds to the time to live, which is at
-- most a week; in production its cookie is secure; it takes uploads of 1 byte to 512 MiB, allows
-- at least one login attempt and 1 to 64 connections; the cookie's name is not empty and has
-- plain characters; no allowed origin is `*`; and the database URL is no placeholder.
pub load-Checked :
    (parse_addr algorithm : Text → Option Text) (source : Source) {config : Config}
    → load parse_addr algorithm source ≡ ok config
    → Checked config
unfolding load
load-Checked parse_addr algorithm source {config} h =
    let (env, e1, h1) = >>=-passed (load_env source) _ h in
    let (addr, e2, h2) =
      >>=-passed
        (ok_or (parse_addr (string_or source (codes "OTDEL_BIND_ADDR") (codes "127.0.0.1:18480")))
          (invalid "OTDEL_BIND_ADDR must be an address like 127.0.0.1:18480"))
        _ h1 in
    let (url, e3, h3) = >>=-passed (required_secret source (codes "OTDEL_DATABASE_URL")) _ h2 in
    let (admin, e4, h4) = >>=-passed (load_admin_url source) _ h3 in
    let (hash, e5, h5) = >>=-passed (load_password_hash algorithm source) _ h4 in
    let (slug, e6, h6) = >>=-passed (load_slug source) _ h5 in
    let (origins, e7, h7) = >>=-passed (load_origins source) _ h6 in
    let (session, e8, h8) = >>=-passed (load_session source) _ h7 in
    let (name, e9, h9) = >>=-passed (load_cookie_name source) _ h8 in
    let (secure, e10, h10) = >>=-passed (load_cookie_secure env source) _ h9 in
    let (upload, e11, h11) = >>=-passed (load_max_upload source) _ h10 in
    let (throttle, e12, h12) = >>=-passed (load_throttle source) _ h11 in
    let (connections, e13, h13) = >>=-passed (load_connections source) _ h12 in
    let same = ok-injective h13 in
    let (idle_bound, idle_within, ttl_bound) =
      load_session-valid source {ttl = session.0} {idle = session.1} e8 in
    let (upload_some, upload_bound) = load_max_upload-valid source e11 in
    let (connections_some, connections_bound) = load_connections-valid source e13 in
    let (named, plain_name) = load_cookie_name-valid source e9 in
    subst Checked same (record {
      idle_bound = idle_bound;
      idle_within = idle_within;
      ttl_bound = ttl_bound;
      secure = load_cookie_secure-valid env source e10;
      upload_some = upload_some;
      upload_bound = upload_bound;
      failures_some = load_throttle-valid source e12;
      connections_some = connections_some;
      connections_bound = connections_bound;
      named = named;
      plain_name = plain_name;
      explicit = load_origins-valid source e7;
      real_url = required_secret-valid source (codes "OTDEL_DATABASE_URL") e3;
    })
