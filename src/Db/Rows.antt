-- ===== src/Db/Rows.antt =====
-- migrations/0001_schema.sql: the rows of the tables, their decoding, and a transaction
-- (crates/otdel-db/src/tenancy.rs) with its bureau, its time and the tables it sees.
use otdel.Prelude.{
  ℕ, Bool, ◌&&◌, ◌||◌, Option, List, [], ◌∷◌, ltb, ◌==◌, Result, ok, ◌>>=◌, ok_or, lit, arg,
}
use otdel.Prelude.Text.{Text}
use otdel.Core.Model.{
  Partner, Material, Job, DateTime, parse_material_status, parse_job_status, parse_job_kind,
}
use otdel.Db.DbError.{DbError, decode}
use otdel.Storage.Uuid.{Uuid}

pub record PartnerRow : Type 0 where
  pub bureau_id : Uuid
  pub id : Uuid
  pub name : Text
  pub note : Option Text
  pub created_at : DateTime
  pub updated_at : DateTime

pub record MaterialRow : Type 0 where
  pub bureau_id : Uuid
  pub id : Uuid
  pub partner_id : Uuid
  pub filename : Text
  pub media_type : Text
  pub size_bytes : ℕ
  pub sha256 : Text
  pub storage_key : Text
  pub status : Text
  pub page_count : Option ℕ
  pub error : Option Text
  pub created_at : DateTime
  pub updated_at : DateTime

pub record JobRow : Type 0 where
  pub bureau_id : Uuid
  pub id : Uuid
  pub partner_id : Uuid
  pub material_id : Uuid
  pub kind : Text
  pub status : Text
  pub stage : Option Text
  pub attempts : ℕ
  pub max_attempts : ℕ
  pub idempotency_key : Text
  pub run_after : DateTime
  pub lease_owner : Option Text
  pub lease_expires_at : Option DateTime
  pub error : Option Text
  pub created_at : DateTime
  pub updated_at : DateTime

pub record Tables : Type 0 where
  pub partners : List PartnerRow
  pub materials : List MaterialRow
  pub jobs : List JobRow

-- `ScopedTx`: `now()` is the time at which the transaction began.
pub record ScopedTx : Type 0 where
  pub bureau_id : Uuid
  pub now : DateTime
  pub tables : Tables

unfoldable pub partner_from_row : PartnerRow → Result Partner DbError
partner_from_row row = ok record {
  id = row.id;
  name = row.name;
  note = row.note;
  created_at = row.created_at;
  updated_at = row.updated_at;
}

unfoldable pub material_from_row : MaterialRow → Result Material DbError
material_from_row row =
    ok_or (parse_material_status row.status)
      (decode (lit "unknown material status `" ∷ arg row.status ∷ lit "`" ∷ []))
    >>= λ status. ok record {
      id = row.id;
      partner_id = row.partner_id;
      filename = row.filename;
      media_type = row.media_type;
      size_bytes = row.size_bytes;
      sha256 = row.sha256;
      status = status;
      page_count = row.page_count;
      created_at = row.created_at;
      error = row.error;
    }

unfoldable pub job_from_row : JobRow → Result Job DbError
job_from_row row =
    ok_or (parse_job_kind row.kind)
      (decode (lit "unknown job kind `" ∷ arg row.kind ∷ lit "`" ∷ []))
    >>= λ kind.
        ok_or (parse_job_status row.status)
          (decode (lit "unknown job status `" ∷ arg row.status ∷ lit "`" ∷ []))
        >>= λ status. ok record {
          id = row.id;
          partner_id = row.partner_id;
          material_id = row.material_id;
          kind = kind;
          status = status;
          stage = row.stage;
          attempts = row.attempts;
          created_at = row.created_at;
          updated_at = row.updated_at;
          error = row.error;
        }

-- `ORDER BY created_at DESC, id DESC`
abbrev pub newer : DateTime → Uuid → DateTime → Uuid → Bool
newer created id created' id' = ltb created' created || ((created == created') && ltb id' id)
