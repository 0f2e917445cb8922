-- ===== src/Tests/Logins.antt =====
-- A login with the default configuration, and the request after it.
use otdel.Prelude.{◌≡◌, refl, Bool, true, false, none, some, List, [], ◌∷◌, arith, ok}
use otdel.Prelude.Text.{
  Text, codes, text_eq, is_whitespace, is_ascii_digit, trim_start_matches, trim_end_matches,
  trim_matches, trim, encode_utf8, bytes, decimal,
}
use otdel.Core.Secret.{token_fingerprint}
use otdel.Api.Auth.{get, Parts, Session, from_request_parts}
use otdel.Api.Cookie.{session_cookie}
use otdel.Api.Routes.Session.{auth_config, SessionResponse, start_session, login}
use otdel.Api.Routes.Login.{login_of, login_session}
use otdel.Api.Throttle
use otdel.Api.Throttle.{reserve_at, record_success}
use otdel.Db.Sessions.{SessionRow, record_from_row, new_session, bureau_id_by_slug, open_session}
use otdel.Storage.Fs.{hex_lower}
use otdel.Storage.Key.{is_sha256_hex, is_lower_hex}
use otdel.Tests.Requests.{loaded}
use otdel.Tests.Sessions.{bureaus, csrf}
use otdel.Tests.Uploads.{zeros}

abbrev throttle : Throttle.LoginThrottle
unfolding Throttle.new
throttle = Throttle.new loaded.login_throttle

abbrev accepts : Text → Text → Bool
accepts hash password = true

abbrev token : Text
token = codes "t"

abbrev row : SessionRow
unfolding new_session token_fingerprint hex_lower
row = new_session 5 100 1 (token_fingerprint zeros token) csrf 43200

abbrev response : SessionResponse
unfolding session_cookie decimal
response = record {
  set_cookie = session_cookie (codes "otdel_session") token 43200 false;
  csrf_token = csrf;
}

abbrev throttle' : Throttle.LoginThrottle
unfolding throttle reserve_at record_success
throttle' = record_success (reserve_at throttle (codes "c") 1).0 (codes "c")

start_run : start_session zeros bureaus loaded 5 100 token csrf [] ≡ ok (response, row ∷ [])
unfolding start_session open_session bureau_id_by_slug is_sha256_hex is_lower_hex is_ascii_digit
    bytes encode_utf8 text_eq row token_fingerprint hex_lower new_session record_from_row response
    session_cookie decimal
start_run = refl

reserve_run : reserve_at throttle (codes "c") 1 ≡ ((reserve_at throttle (codes "c") 1).0, ok tt)
unfolding reserve_at throttle Throttle.new
reserve_run = refl

login_run :
    login zeros bureaus loaded accepts 5 1 100 (codes "c") token csrf (codes "password") throttle []
    ≡ (ok response, throttle', row ∷ [])
unfolding throttle'
login_run =
    login_of zeros bureaus loaded accepts 5 1 100 (codes "c") token csrf (codes "password") throttle
      (reserve_at throttle (codes "c") 1).0 [] reserve_run refl start_run

abbrev parts : Parts
parts = record {
  method = get;
  cookie = some (codes "otdel_session=t");
  origin = none;
  x_csrf_token = none;
}

trimmed : (trim (codes "otdel_session") ≡ codes "otdel_session") × (trim token ≡ token)
unfolding trim trim_matches trim_start_matches trim_end_matches is_whitespace
trimmed = (refl, refl)

login_session_example :
    (accepts (codes "h") (codes "password") ≡ true)
    × ((reserve_at throttle (codes "c") 1).1 ≡ ok tt)
    × (response.set_cookie ≡ session_cookie (codes "otdel_session") token 43200 false)
    × (session : Session) × (rest : List SessionRow) × (from_request_parts zeros 200
          (row ∷ [])
          parts
          (auth_config loaded)
        ≡ (ok session, rest))
    × (session.csrf_token ≡ response.csrf_token)
login_session_example =
    login_session zeros bureaus loaded accepts 5 1 100 200 (codes "c") token csrf (codes "password")
      throttle [] parts {response = response} {throttle' = throttle'} {after = row ∷ []} login_run
      refl refl
      (
        ground arith,
        (
          ground arith,
          (
            ground arith,
            (
              ground arith,
              (
                ground arith,
                (
                  ground arith,
                  (
                    ground arith,
                    (
                      ground arith,
                      (
                        ground arith,
                        (ground arith, (ground arith, (ground arith, (ground arith, tt)))),
                      ),
                    ),
                  ),
                ),
              ),
            ),
          ),
        ),
      )
      (
        ground arith,
        (
          ground arith,
          (
            ground arith,
            (
              ground arith,
              (
                ground arith,
                (
                  ground arith,
                  (
                    ground arith,
                    (
                      ground arith,
                      (
                        ground arith,
                        (ground arith, (ground arith, (ground arith, (ground arith, tt)))),
                      ),
                    ),
                  ),
                ),
              ),
            ),
          ),
        ),
      )
      (ground arith, tt) trimmed.0 trimmed.1 refl (omega arith) (omega arith) (omega arith)
      (omega arith)
