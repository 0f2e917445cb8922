-- ===== src/Tests/Requests.antt =====
-- Whole requests: an upload, a request that changes state, and a configuration.
use otdel.Prelude.{
  ℕ, ◌≤◌, ◌≡◌, refl, ◌⊎◌, true, false, Option, none, some, List, [], ◌∷◌, if◌then◌else◌, length,
  any, Result, ok,
}
use otdel.Prelude.Text.{
  Text, codes, text_eq, starts_with, contains, split, split_once, is_control, is_whitespace,
  is_ascii_digit, is_ascii_lowercase, is_ascii_uppercase, is_ascii_alphanumeric, to_ascii_lowercase,
  trim_start_matches, trim_end_matches, trim_matches, trim, encode_utf8, bytes,
}
use otdel.Core.Media
use otdel.Core.Media.{MediaType, pdf, parse_base}
use otdel.Core.Secret.{tokens_match, token_fingerprint, looks_like_placeholder}
use otdel.Core.Validate.{display_filename, last_segment}
use otdel.Core.Config
use otdel.Core.Config.{Config, Source, local, load}
use otdel.Core.Config.Valid.{Checked, load-Checked}
use otdel.Api.ApiError.{ApiError}
use otdel.Api.Auth.{
  post, Parts, AuthConfig, Session, changes_state, check_csrf, check_origin, check_request,
  request_token, idle_seconds, from_request_parts,
}
use otdel.Api.Auth.Admission.{from_request_parts-admitted}
use otdel.Api.Cookie.{read_cookie}
use otdel.Api.Intake.{
  Field, ReceivedFile, field_stream, limit_size, read_head, check_declared, detect_type, prepare,
  drain, read_file_field, receive_file,
}
use otdel.Api.Intake.Limits.{field_contents}
use otdel.Api.Intake.Received.{file_fields, receive_file_ok, read_file_field_of, receive_file_of}
use otdel.Db.Sessions.{SessionRow, SessionRecord, record_from_row, new_session, is_live, touch}
use otdel.Storage.Disk.{Disk}
use otdel.Storage.Fs.{StoredObject, ByteStream, hex_lower}
use otdel.Storage.Fs.Upload.{Uploaded}
use otdel.Storage.Key.{key_text}
use otdel.Tests.Keys.{bureau_one}
use otdel.Tests.Uploads.{zeros, store, empty_tree, name, run}
use otdel.Tests.Uuids.{uuids}

-- A PDF in two chunks, after a text field.
abbrev comment : Field
comment = record {
  name = some (codes "note");
  file_name = none;
  content_type = none;
  chunks = some (codes "x") ∷ [];
}

abbrev document : Field
document = record {
  name = some (codes "file");
  file_name = some (codes "a/b.pdf");
  content_type = some (codes "application/pdf");
  chunks = some (codes "%PDF") ∷ some (codes "-1") ∷ [];
}

abbrev first : StoredObject
unfolding key_text uuids hex_lower
first = record {
  key = record { raw = key_text uuids bureau_one (hex_lower (zeros [])) };
  sha256 = hex_lower (zeros []);
  size_bytes = 6;
  already_present = false;
}

abbrev received : ReceivedFile
unfolding first
received = record { filename = codes "b.pdf"; media_type = pdf; stored = first }

abbrev pdf_stream : ByteStream
pdf_stream = ok (codes "%PDF") ∷ ok (codes "-1") ∷ []

after_upload : Disk
unfolding run
after_upload = (run pdf_stream empty_tree).1

put_run : run pdf_stream empty_tree ≡ (ok first, after_upload)
unfolding run first after_upload
put_run = refl

abbrev detected : Result MediaType ApiError
detected = ok pdf

prepare_run : prepare 100 document ≡ ok (codes "b.pdf", pdf, pdf_stream)
unfolding prepare read_head detect_type check_declared limit_size field_stream Media.detect
    Media.parse parse_base Media.as_str text_eq split display_filename last_segment trim
    trim_matches trim_start_matches trim_end_matches is_whitespace is_control to_ascii_lowercase
    is_ascii_uppercase starts_with
prepare_run = refl

read_run :
    read_file_field uuids zeros store 100 name bureau_one document empty_tree
    ≡ (ok received, after_upload)
unfolding run received
read_run =
    read_file_field_of uuids zeros store 100 name bureau_one document empty_tree prepare_run put_run

upload_run :
    receive_file uuids zeros store 100 name bureau_one
      (some comment ∷ some document ∷ [])
      empty_tree
    ≡ (ok received, after_upload)
unfolding drain text_eq
upload_run =
    receive_file_of uuids zeros store 100 name bureau_one comment document empty_tree {used = 1}
      refl refl refl read_run

receive_file_ok_example :
    (field : Field) × (all_bytes : List ℕ) × (body : ByteStream) × (file_fields
        (some comment ∷ some document ∷ [])
      ≡ field ∷ [])
    × (field_contents field.chunks ≡ some all_bytes)
    × (length all_bytes ≤ 100)
    × (Media.detect all_bytes ≡ some pdf)
    × (check_declared field.content_type pdf ≡ ok tt)
    × (first.sha256 ≡ hex_lower (zeros all_bytes))
    × Uploaded uuids zeros store name bureau_one body empty_tree first after_upload
unfolding received
receive_file_ok_example =
    receive_file_ok uuids zeros store 100 name bureau_one (some comment ∷ some document ∷ [])
      empty_tree {file = received} {d' = after_upload} (refl, refl) upload_run

-- A request with a session, an allowed origin and the CSRF token.
abbrev parts : Parts
parts = record {
  method = post;
  cookie = some (codes "s=t");
  origin = some (codes "http://a");
  x_csrf_token = some (codes "c");
}

abbrev config : AuthConfig
config = record {
  cookie_name = codes "s";
  session_idle_timeout = 120;
  cors_allowed_origins = codes "http://a" ∷ [];
}

abbrev row : SessionRow
unfolding new_session token_fingerprint hex_lower
row = new_session 5 100 1 (token_fingerprint zeros (codes "t")) (codes "c") 600

abbrev session : Session
session = record { session_id = 5; bureau_id = 1; csrf_token = codes "c"; expires_at = 700 }

abbrev touched : SessionRow
unfolding row
touched = record row { last_seen_at = 150 }

session_run : from_request_parts zeros 150 (row ∷ []) parts config ≡ (ok session, touched ∷ [])
unfolding from_request_parts request_token read_cookie split split_once trim trim_matches
    trim_start_matches trim_end_matches is_whitespace text_eq idle_seconds touch is_live
    record_from_row token_fingerprint hex_lower check_request changes_state check_origin check_csrf
    tokens_match bytes encode_utf8 row touched new_session
session_run = refl

from_request_parts-admitted_example :
    (token : Text) × (found : SessionRecord) × (value : Text) × (request_token parts config
      ≡ some token)
    × (touch 150 (row ∷ []) (token_fingerprint zeros token) 120 ≡ ok (some found, touched ∷ []))
    × (◌≡◌ {A = ℕ} 1 found.bureau_id)
    × (some (codes "c") ≡ some value)
    × (bytes (codes "c") ≡ bytes value)
    × ((some (codes "http://a") ≡ none)
        ⊎ ((origin : Text) × (some (codes "http://a") ≡ some origin)
            × (any (codes "http://a" ∷ []) (λ allowed. text_eq allowed origin) ≡ true)))
unfolding changes_state
from_request_parts-admitted_example =
    from_request_parts-admitted zeros 150 (row ∷ []) parts config {session = session} session_run
      refl

-- The smallest configuration: a database URL and a password hash.
abbrev smallest : Source
smallest key =
    if text_eq key (codes "OTDEL_DATABASE_URL")
    then some (codes "pg")
    else if text_eq key (codes "OTDEL_OWNER_PASSWORD_HASH")
    then some (codes "h")
    else none

abbrev pub loaded : Config
loaded = record {
  env = local;
  bind_addr = codes "a";
  database_url = codes "pg";
  database_admin_url = none;
  database_max_connections = 8;
  bureau_slug = codes "local";
  owner_password_hash = codes "h";
  storage_root = codes ".local/storage";
  cors_allowed_origins = codes "http://127.0.0.1:15173" ∷ codes "http://localhost:15173" ∷ [];
  session_ttl = 43200;
  session_idle_timeout = 7200;
  cookie_name = codes "otdel_session";
  cookie_secure = false;
  max_upload_bytes = 26214400;
  login_throttle = record { max_failures = 10; window = 900; lockout = 900 };
  log_filter = codes "info,otdel_api=info,sqlx=warn";
}

abbrev any_addr : Text → Option Text
any_addr text = some (codes "a")

abbrev argon2 : Text → Option Text
argon2 hash = some (codes "argon2id")

env_run : Config.load_env smallest ≡ ok local
unfolding Config.load_env text_eq
env_run = refl

url_run : Config.required_secret smallest (codes "OTDEL_DATABASE_URL") ≡ ok (codes "pg")
unfolding Config.required_secret text_eq looks_like_placeholder contains starts_with trim
    trim_matches trim_start_matches trim_end_matches is_whitespace to_ascii_lowercase
    is_ascii_uppercase
url_run = refl

admin_run : Config.load_admin_url smallest ≡ ok none
unfolding Config.load_admin_url text_eq
admin_run = refl

hash_run : Config.load_password_hash argon2 smallest ≡ ok (codes "h")
unfolding Config.load_password_hash Config.required_secret text_eq looks_like_placeholder contains
    starts_with trim trim_matches trim_start_matches trim_end_matches is_whitespace
    to_ascii_lowercase is_ascii_uppercase
hash_run = refl

slug_run : Config.load_slug smallest ≡ ok (codes "local")
unfolding Config.load_slug Config.string_or Config.is_slug_char text_eq is_ascii_lowercase
    is_ascii_digit
slug_run = refl

origins_run : Config.load_origins smallest ≡ ok loaded.cors_allowed_origins
unfolding Config.load_origins Config.listed_origins Config.string_or Config.check_origins text_eq
    split trim trim_matches trim_start_matches trim_end_matches is_whitespace starts_with
origins_run = refl

session_times : Config.load_session smallest ≡ ok (43200, 7200)
unfolding Config.load_session Config.parse_u64_or text_eq
session_times = refl

cookie_run : Config.load_cookie_name smallest ≡ ok (codes "otdel_session")
unfolding Config.load_cookie_name Config.string_or Config.is_cookie_char text_eq
    is_ascii_alphanumeric is_ascii_digit is_ascii_lowercase is_ascii_uppercase
cookie_run = refl

secure_run : Config.load_cookie_secure local smallest ≡ ok false
unfolding Config.load_cookie_secure text_eq
secure_run = refl

upload_limit : Config.load_max_upload smallest ≡ ok 26214400
unfolding Config.load_max_upload Config.parse_u64_or text_eq
upload_limit = refl

throttle_run : Config.load_throttle smallest ≡ ok loaded.login_throttle
unfolding Config.load_throttle Config.parse_u64_or text_eq
throttle_run = refl

connections_run : Config.load_connections smallest ≡ ok 8
unfolding Config.load_connections Config.parse_u64_or text_eq
connections_run = refl

defaults :
    (Config.string_or smallest (codes "OTDEL_STORAGE_ROOT") (codes ".local/storage")
      ≡ codes ".local/storage")
    × (Config.string_or smallest (codes "OTDEL_LOG") (codes "info,otdel_api=info,sqlx=warn")
        ≡ codes "info,otdel_api=info,sqlx=warn")
unfolding Config.string_or text_eq
defaults = (refl, refl)

load_run : load any_addr argon2 smallest ≡ ok loaded
unfolding load
load_run = rw (
  env_run, url_run, admin_run, hash_run, slug_run, origins_run, session_times, cookie_run,
  secure_run, upload_limit, throttle_run, connections_run, defaults.0, defaults.1,
)

load-Checked_example : Checked loaded
load-Checked_example = load-Checked any_addr argon2 smallest load_run
