-- ===== src/Api/Routes/Health.antt =====
-- crates/otdel-api/src/routes/health.rs: liveness and readiness.
use otdel.Prelude.{String, List, [], ◌∷◌, Result, ok, err, ◌>>=◌, map_err, ok_or, lit}
use otdel.Prelude.Text.{Text}
use otdel.Core.AppError
use otdel.Core.AppError.{AppError}
use otdel.Core.Config.{Config}
use otdel.Api.ApiError
use otdel.Api.ApiError.{ApiError}
use otdel.Db.Database.{PgVectorStatus, pgvector_as_str}
use otdel.Db.DbError.{DbError}
use otdel.Db.Sessions.{Bureau, bureau_id_by_slug}
use otdel.Storage.Disk.{Disk}
use otdel.Storage.Fs.{FilesystemObjectStore}
use otdel.Storage.Fs.Objects
use otdel.Storage.StorageError.{StorageError}

-- The body of `GET /health`, which touches nothing.
abbrev pub health : String
health = "ok"

pub record ReadyResponse : Type 0 where
  pub status : String
  pub database : String
  pub object_store : String
  pub bureau : String
  pub pgvector : String

abbrev unavailable : String → ApiError
unavailable message = ApiError.new (AppError.unavailable (lit message ∷ []))

-- A probe that fails is no reason to be unready.
unfoldable pub pgvector_text : Result PgVectorStatus DbError → String
unfolding pgvector_as_str
pgvector_text (ok status) = pgvector_as_str status
pgvector_text (err failure) = "unknown"

-- What follows the two probes. `bureaus` is what the query for the bureau sees.
report :
    Config
    → Result (List Bureau) DbError
    → Result PgVectorStatus DbError
    → Result ReadyResponse ApiError
unfolding pgvector_text
report config bureaus extension = map_err ApiError.from_db_error bureaus >>= λ rows.
    ok_or (bureau_id_by_slug rows config.bureau_slug)
      (unavailable "the configured bureau is not provisioned; run migrations and bootstrap")
    >>= λ bureau. ok record {
      status = "ready";
      database = "ok";
      object_store = "ok";
      bureau = "provisioned";
      pgvector = pgvector_text extension;
    }

after_probe :
    Config
    → Result (List Bureau) DbError
    → Result PgVectorStatus DbError
    → Result (Unit {0}) StorageError × Disk
    → Result ReadyResponse ApiError × Disk
unfolding report
after_probe config bureaus extension (err failure, d) =
    (err (unavailable "file storage is not available"), d)
after_probe config bureaus extension (ok probed, d) = (report config bureaus extension, d)

-- `database` is the answer to SELECT 1, `name` the fresh name of the store's probe.
unfoldable pub ready :
    Config
    → FilesystemObjectStore
    → Result (Unit {0}) DbError
    → Result (List Bureau) DbError
    → Result PgVectorStatus DbError
    → Text
    → Disk
    → Result ReadyResponse ApiError × Disk
unfolding after_probe
ready config store database bureaus extension name d = elim database [
  | err failure ↦ (err (unavailable "the database is not available"), d)
  | ok answered ↦ after_probe config bureaus extension (Objects.health store name d)
]
