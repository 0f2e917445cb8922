-- ===== src/Api/Auth/Admission.antt =====
-- Who is let in: the checks that a request has passed when the extractor gives a session.
use otdel.Prelude.{
  ℕ, ◌^◌, ◌<◌, ◌≡◌, ap, ◌∙◌, ◌⊎◌, inl, inr, true, false, none, some, List, [], arith, Option-cases,
  any, ok, >>=-passed, Result-cases,
}
use otdel.Prelude.Text.{Text, text_eq, bytes}
use otdel.Core.Model.{DateTime}
use otdel.Core.Secret.{tokens_match-eq, token_fingerprint}
use otdel.Api.Auth.{
  Parts, AuthConfig, Session, changes_state, check_csrf, check_origin, request_token, idle_seconds,
  check_request, from_request_parts,
}
use otdel.Db.Sessions.{SessionRow, SessionRecord, touch}

-- The header text of the CSRF token, and nothing where it is missing.
csrf_text : Parts → Text
csrf_text parts = elim parts.x_csrf_token [ none ↦ [] | some value ↦ value ]

check_csrf-passed :
    (parts : Parts) (expected : Text)
    → check_csrf parts expected ≡ ok tt
    → (value : Text) × (parts.x_csrf_token ≡ some value) × (bytes expected ≡ bytes value)
unfolding check_csrf
check_csrf-passed parts expected h = elim (Option-cases parts.x_csrf_token) [
  | inl e ↦ absurd (ground arith)
  | inr (value, e) ↦ (value, e, tokens_match-eq expected value (ground arith))
]

check_origin-passed :
    (parts : Parts) (config : AuthConfig) (origin : Text)
    → check_origin parts config ≡ ok tt
    → parts.origin ≡ some origin
    → any config.cors_allowed_origins (λ allowed. text_eq allowed origin) ≡ true
unfolding check_origin
check_origin-passed parts config origin h e = ground arith

check_request-passed :
    (parts : Parts) (config : AuthConfig) (csrf_token : Text)
    → check_request parts config csrf_token ≡ ok tt
    → changes_state parts.method ≡ true
    → (check_origin parts config ≡ ok tt) × (check_csrf parts csrf_token ≡ ok tt)
unfolding check_request
check_request-passed parts config csrf_token h e =
    let (origin, first, rest) =
      >>=-passed (check_origin parts config) (λ _. check_csrf parts csrf_token) (ground arith) in
    (first, rest)

module _ (sha256 : List ℕ → List ℕ) where
  from_request_parts-steps :
      (now : DateTime) (sessions : List SessionRow) (parts : Parts) (config : AuthConfig)
      {session : Session} {after : List SessionRow}
      → from_request_parts sha256 now sessions parts config ≡ (ok session, after)
      → (token : Text) × (found : SessionRecord) × (request_token parts config ≡ some token)
        × (touch now sessions (token_fingerprint sha256 token) config.session_idle_timeout
            ≡ ok (some found, after))
        × (check_request parts config found.csrf_token ≡ ok tt)
        × (session ≡ record {
          session_id = found.session_id;
          bureau_id = found.bureau_id;
          csrf_token = found.csrf_token;
          expires_at = found.expires_at;
        })
  unfolding from_request_parts idle_seconds
  from_request_parts-steps now sessions parts config {session} {after} h =
      elim (Option-cases (request_token parts config)) [
        | inl e ↦ absurd (ground arith)
        | inr (token, e) ↦
            elim (Result-cases
              (touch now sessions (token_fingerprint sha256 token) config.session_idle_timeout)) [
                | inr (failure, t) ↦ absurd (ground arith)
                | inl ((none, rest), t) ↦ absurd (ground arith)
                | inl ((some found, rest), t) ↦
                    elim (Result-cases (check_request parts config found.csrf_token)) [
                      | inr (failure, c) ↦ absurd (ground arith)
                      | inl (tt, c) ↦ (token, found, e, ground arith, c, ground arith)
                    ]
              ]
      ]

  -- A request that changes nothing is let in by its token alone.
  pub from_request_parts_of :
      (now : DateTime) (sessions : List SessionRow) (parts : Parts) (config : AuthConfig)
      {token : Text} {found : SessionRecord} {after : List SessionRow}
      → changes_state parts.method ≡ false
      → request_token parts config ≡ some token
      → config.session_idle_timeout < 2 ^ 31
      → touch now sessions (token_fingerprint sha256 token) config.session_idle_timeout
        ≡ ok (some found, after)
      → from_request_parts sha256 now sessions parts config ≡ (
        ok (record {
          session_id = found.session_id;
          bureau_id = found.bureau_id;
          csrf_token = found.csrf_token;
          expires_at = found.expires_at;
        }),
        after,
      )
  unfolding from_request_parts idle_seconds check_request
  from_request_parts_of now sessions parts config {token} {found} {after} reads t small e =
      ground arith

  -- A request of a method that changes state and that gets a session carries a token whose
  -- fingerprint `touch` answers with a live session, and the session has that one's bureau. It
  -- carries the CSRF token of this session, byte by byte, and its origin, if it names one, is
  -- allowed.
  pub from_request_parts-admitted :
      (now : DateTime) (sessions : List SessionRow) (parts : Parts) (config : AuthConfig)
      {session : Session} {after : List SessionRow}
      → from_request_parts sha256 now sessions parts config ≡ (ok session, after)
      → changes_state parts.method ≡ true
      → (token : Text) × (found : SessionRecord) × (value : Text) × (request_token parts config
          ≡ some token)
        × (touch now sessions (token_fingerprint sha256 token) config.session_idle_timeout
            ≡ ok (some found, after))
        × (session.bureau_id ≡ found.bureau_id)
        × (parts.x_csrf_token ≡ some value)
        × (bytes session.csrf_token ≡ bytes value)
        × ((parts.origin ≡ none)
            ⊎ ((origin : Text) × (parts.origin ≡ some origin)
                × (any config.cors_allowed_origins (λ allowed. text_eq allowed origin) ≡ true)))
  from_request_parts-admitted now sessions parts config {session} {after} h changes =
      let (token, found, t, e, checks, s) = from_request_parts-steps now sessions parts config h in
      let (o, c) = check_request-passed parts config found.csrf_token checks changes in
      let (value, sent, same) = check_csrf-passed parts found.csrf_token c in
      (
        token,
        found,
        value,
        t,
        e,
        ap (λ (r : Session). r.bureau_id) s,
        sent,
        ap (λ (r : Session). bytes r.csrf_token) s ∙ same,
        elim (Option-cases parts.origin) [
          | inl g ↦ inl g
          | inr (origin, g) ↦ inr (origin, g, check_origin-passed parts config origin o g)
        ],
      )
