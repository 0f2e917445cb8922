-- ===== src/Api/Routes/Login.antt =====
-- A login and the requests that follow it.
use otdel.Prelude.{
  ℕ, ◌+◌, ◌^◌, ◌≤◌, ◌<◌, ◌≡◌, sym, ap, ◌∙◌, inl, inr, Bool, true, false, ◌&&◌, none, some, List, [],
  ◌∷◌, ◌++◌, arith, ltb, if◌then◌else◌, Bool-cases, is_empty, ok, Result-cases,
}
use otdel.Prelude.Text.{Text, Lacks, trim}
use otdel.Core.Config.{Config}
use otdel.Core.Model.{DateTime}
use otdel.Core.Secret.{token_fingerprint}
use otdel.Api.Auth.Admission.{from_request_parts_of}
use otdel.Api.Auth.{get, Parts, Session, request_token, changes_state, from_request_parts}
use otdel.Api.Cookie.{session_cookie, read_cookie-nil, read_cookie_sent}
use otdel.Api.Routes.Session.{auth_config, SessionResponse, start_session, login}
use otdel.Api.Throttle.{Instant, LoginThrottle, reserve_at, record_success}
use otdel.Db.Sessions.{Bureau, SessionRow, SessionRecord, open_session, touch}
use otdel.Db.Sessions.Lifetime.{open_session-touch}
use otdel.Storage.Uuid.{Uuid}

module _ (sha256 : List ℕ → List ℕ) (bureaus : List Bureau) (config : Config) where
  start_session-steps :
      (new_id : Uuid) (now : DateTime) (token csrf_token : Text) (sessions : List SessionRow)
      {response : SessionResponse} {after : List SessionRow}
      → start_session sha256 bureaus config new_id now token csrf_token sessions
        ≡ ok (response, after)
      → (session : SessionRecord) × (open_session bureaus new_id now sessions config.bureau_slug
            (token_fingerprint sha256 token)
            csrf_token
            config.session_ttl
          ≡ ok (session, after))
        × (response.csrf_token ≡ session.csrf_token)
        × (response.set_cookie
            ≡ session_cookie config.cookie_name token config.session_ttl config.cookie_secure)
  unfolding start_session
  start_session-steps new_id now token csrf_token sessions {response} {after} h =
      elim (Result-cases (
        open_session bureaus new_id now sessions config.bureau_slug (token_fingerprint sha256 token)
          csrf_token config.session_ttl)) [
            | inr (failure, e) ↦ absurd (ground arith)
            | inl ((session, rest), e) ↦ (session, ground arith, ground arith, ground arith)
          ]

  login-steps :
      (verify : Text → Text → Bool) (new_id : Uuid) (instant : Instant) (now : DateTime)
      (client token csrf_token password : Text) (throttle : LoginThrottle)
      (sessions : List SessionRow) {response : SessionResponse} {throttle' : LoginThrottle}
      {after : List SessionRow}
      → login sha256 bureaus config verify new_id instant now client token csrf_token password
          throttle sessions
        ≡ (ok response, throttle', after)
      → (verify config.owner_password_hash password ≡ true)
        × ((reserve_at throttle client instant).1 ≡ ok tt)
        × (start_session sha256 bureaus config new_id now token csrf_token sessions
            ≡ ok (response, after))
  unfolding login
  login-steps verify new_id instant now client token csrf_token password throttle sessions
        {response} {throttle'} {after} h =
      elim (Result-cases (reserve_at throttle client instant).1) [
        | inr (wait, e) ↦ absurd (ground arith)
        | inl (tt, e) ↦ elim (Bool-cases (verify config.owner_password_hash password)) [
          | inr wrong ↦ absurd (ground arith)
          | inl right ↦
              elim (Result-cases
                (start_session sha256 bureaus config new_id now token csrf_token sessions)) [
                  | inr (failure, s) ↦ absurd (ground arith)
                  | inl ((started, rest), s) ↦ (right, e, ground arith)
                ]
        ]
      ]

  -- With an attempt left and the right password a login answers as the session starts.
  pub login_of :
      (verify : Text → Text → Bool) (new_id : Uuid) (instant : Instant) (now : DateTime)
      (client token csrf_token password : Text) (throttle counted : LoginThrottle)
      (sessions : List SessionRow) {response : SessionResponse} {after : List SessionRow}
      → reserve_at throttle client instant ≡ (counted, ok tt)
      → verify config.owner_password_hash password ≡ true
      → start_session sha256 bureaus config new_id now token csrf_token sessions
        ≡ ok (response, after)
      → login sha256 bureaus config verify new_id instant now client token csrf_token password
          throttle sessions
        ≡ (ok response, record_success counted client, after)
  unfolding login
  login_of verify new_id instant now client token csrf_token password throttle counted sessions
        {response} {after} r v s =
      ground arith

  -- The token in the cookie that a browser sends back.
  request_token-sent :
      (token : Text) (parts : Parts)
      → parts.cookie ≡ some (config.cookie_name ++ (b'=' ∷ token))
      → Lacks b'=' config.cookie_name
      → Lacks b';' config.cookie_name
      → Lacks b';' token
      → trim config.cookie_name ≡ config.cookie_name
      → trim token ≡ token
      → is_empty token ≡ false
      → request_token parts (auth_config config) ≡ some token
  unfolding request_token
  request_token-sent token parts sent plain whole value name_trimmed token_trimmed some_token =
      let read =
        read_cookie_sent [] config.cookie_name token tt (read_cookie-nil config.cookie_name) plain
          whole value name_trimmed token_trimmed in
      ground (arith, read.0)

  -- A login that succeeds had an attempt left and the right password. Until the time to live or the
  -- idle timeout has passed, a `GET` request that sends the cookie back gets a session, with the
  -- CSRF token that the login answered.
  pub login_session :
      (verify : Text → Text → Bool) (new_id : Uuid) (instant : Instant) (now later : DateTime)
      (client token csrf_token password : Text) (throttle : LoginThrottle)
      (sessions : List SessionRow) (parts : Parts) {response : SessionResponse}
      {throttle' : LoginThrottle} {after : List SessionRow}
      → login sha256 bureaus config verify new_id instant now client token csrf_token password
          throttle sessions
        ≡ (ok response, throttle', after)
      → parts.method ≡ get
      → parts.cookie ≡ some (config.cookie_name ++ (b'=' ∷ token))
      → Lacks b'=' config.cookie_name
      → Lacks b';' config.cookie_name
      → Lacks b';' token
      → trim config.cookie_name ≡ config.cookie_name
      → trim token ≡ token
      → is_empty token ≡ false
      → 60 ≤ config.session_idle_timeout
      → config.session_idle_timeout < 2 ^ 31
      → later < now + config.session_ttl
      → later < now + config.session_idle_timeout
      → (verify config.owner_password_hash password ≡ true)
        × ((reserve_at throttle client instant).1 ≡ ok tt)
        × (response.set_cookie
            ≡ session_cookie config.cookie_name token config.session_ttl config.cookie_secure)
        × (session : Session) × (rest : List SessionRow) × (from_request_parts sha256 later after
              parts
              (auth_config config)
            ≡ (ok session, rest))
        × (session.csrf_token ≡ response.csrf_token)
  unfolding changes_state
  login_session verify new_id instant now later client token csrf_token password throttle sessions
        parts {response} {throttle'} {after} h reads sent plain whole value name_trimmed
        token_trimmed some_token idle small alive busy =
      let (right, admitted, started) =
        login-steps verify new_id instant now client token csrf_token password throttle sessions
          h in
      let (record', opened, csrf, cookie) =
        start_session-steps new_id now token csrf_token sessions started in
      let (rest, touched) =
        open_session-touch bureaus new_id now later sessions config.bureau_slug
          (token_fingerprint sha256 token) csrf_token config.session_ttl config.session_idle_timeout
          opened idle in
      let in_time : (ltb later (now + config.session_ttl)
            && ltb later (now + config.session_idle_timeout))
          ≡ true =
        ground arith in
      let live : touch later after (token_fingerprint sha256 token) config.session_idle_timeout
          ≡ ok (some record', rest) =
        touched ∙ ap (λ b. ok ((if b then some record' else none), rest)) in_time in
      let session : Session = record {
        session_id = record'.session_id;
        bureau_id = record'.bureau_id;
        csrf_token = record'.csrf_token;
        expires_at = record'.expires_at;
      } in
      (
        right,
        admitted,
        cookie,
        session,
        rest,
        from_request_parts_of sha256 later after parts (auth_config config) (ap changes_state reads)
            (request_token-sent token parts sent plain whole value name_trimmed token_trimmed
              some_token)
            small live,
        sym csrf,
      )
