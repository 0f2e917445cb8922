-- ===== src/Db/Sessions.antt =====
-- crates/otdel-db/src/sessions.rs and the functions of migrations/0001_schema.sql that it calls:
-- sessions are opened, touched, closed and purged. A time is a number of seconds.
pub mod Lifetime
use otdel.Prelude.{
  ℕ, ◌+◌, Bool, ◌&&◌, ◌||◌, not, Option, none, some, List, [], ◌∷◌, ◌++◌, ltb, leb, ◌==◌,
  if◌then◌else◌, length, any, filter, find?, Result, ok, err, ◌>>=◌, ok_or,
}
use otdel.Prelude.Text.{Text, codes, text_eq}
use otdel.Core.Model.{DateTime}
use otdel.Db.DbError.{DbError, sqlx, database, other, check_violation, primary_key_violation}
use otdel.Db.Query.{update_where, count}
use otdel.Storage.Key.{is_sha256_hex}
use otdel.Storage.Uuid.{Uuid}

pub record Bureau : Type 0 where
  pub id : Uuid
  pub slug : Text

pub record SessionRow : Type 0 where
  pub id : Uuid
  pub bureau_id : Uuid
  pub token_fingerprint : Text
  pub csrf_token : Text
  pub created_at : DateTime
  pub last_seen_at : DateTime
  pub expires_at : DateTime

pub record SessionRecord : Type 0 where
  pub session_id : Uuid
  pub bureau_id : Uuid
  pub csrf_token : Text
  pub expires_at : DateTime

unfoldable pub record_from_row : SessionRow → SessionRecord
record_from_row row = record {
  session_id = row.id;
  bureau_id = row.bureau_id;
  csrf_token = row.csrf_token;
  expires_at = row.expires_at;
}

-- RAISE EXCEPTION
abbrev pub raised : DbError
raised = sqlx (database (codes "P0001") none)

unfoldable pub bureau_id_by_slug : List Bureau → Text → Option Uuid
bureau_id_by_slug bureaus slug = elim (find? bureaus (λ bureau. text_eq bureau.slug slug)) [
  | none ↦ none
  | some bureau ↦ some bureau.id
]

abbrev pub has_fingerprint : Text → SessionRow → Bool
has_fingerprint token_fingerprint row = text_eq row.token_fingerprint token_fingerprint

-- The row of a new session.
unfoldable pub new_session : Uuid → DateTime → Uuid → Text → Text → ℕ → SessionRow
new_session new_id now bureau_id token_fingerprint csrf_token ttl_seconds = record {
  id = new_id;
  bureau_id = bureau_id;
  token_fingerprint = token_fingerprint;
  csrf_token = csrf_token;
  created_at = now;
  last_seen_at = now;
  expires_at = now + ttl_seconds;
}

-- `session_open`: the checks of the table and its unique fingerprint, then the row.
unfoldable pub open_session :
    List Bureau
    → Uuid
    → DateTime
    → List SessionRow
    → Text
    → Text
    → Text
    → ℕ
    → Result (SessionRecord × List SessionRow) DbError
unfolding record_from_row bureau_id_by_slug is_sha256_hex new_session
open_session bureaus new_id now sessions bureau_slug token_fingerprint csrf_token ttl_seconds =
    if ltb ttl_seconds 60 || ltb 604800 ttl_seconds
    then err raised
    else ok_or (bureau_id_by_slug bureaus bureau_slug) raised >>= λ bureau_id.
        if not (
          is_sha256_hex token_fingerprint
          && leb 20 (length csrf_token)
          && leb (length csrf_token) 200)
        then err check_violation
        else if any sessions (λ row. row.id == new_id)
        then err (primary_key_violation (codes "sessions_pkey"))
        else if any sessions (has_fingerprint token_fingerprint)
        then err (primary_key_violation (codes "sessions_token_fingerprint_key"))
        else let row = new_session new_id now bureau_id token_fingerprint csrf_token ttl_seconds in
          ok (record_from_row row, sessions ++ (row ∷ []))

-- `expires_at > now() AND last_seen_at > now() - idle`
unfoldable pub is_live : DateTime → ℕ → SessionRow → Bool
is_live now idle_seconds row = ltb now row.expires_at && ltb now (row.last_seen_at + idle_seconds)

abbrev pub seen : DateTime → SessionRow → SessionRow
seen now row = record row { last_seen_at = now }

unfoldable pub touch :
    DateTime → List SessionRow → Text → ℕ → Result (Option SessionRecord × List SessionRow) DbError
unfolding is_live record_from_row
touch now sessions token_fingerprint idle_timeout_seconds =
    let chosen = λ (row : SessionRow).
      has_fingerprint token_fingerprint row && is_live now idle_timeout_seconds row in
    if ltb idle_timeout_seconds 60
    then err raised
    else ok (
      elim (find? sessions chosen) [
        | none ↦ none
        | some row ↦ some (record_from_row (seen now row))
      ],
      update_where chosen (seen now) sessions,
    )

unfoldable pub close : List SessionRow → Text → Bool × List SessionRow
close sessions token_fingerprint = (
  ltb 0 (count (has_fingerprint token_fingerprint) sessions),
  filter sessions (λ row. not (has_fingerprint token_fingerprint row)),
)

-- `expires_at <= now() OR last_seen_at <= now() - idle`
unfoldable pub is_over : DateTime → ℕ → SessionRow → Bool
is_over now idle_seconds row = leb row.expires_at now || leb (row.last_seen_at + idle_seconds) now

unfoldable pub purge_expired : DateTime → List SessionRow → ℕ → Result (ℕ × List SessionRow) DbError
unfolding is_over
purge_expired now sessions idle_timeout_seconds =
    if ltb idle_timeout_seconds 60
    then err raised
    else ok (
      count (is_over now idle_timeout_seconds) sessions,
      filter sessions (λ row. not (is_over now idle_timeout_seconds row)),
    )
