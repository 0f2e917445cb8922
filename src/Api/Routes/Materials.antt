-- ===== src/Api/Routes/Materials.antt =====
-- crates/otdel-api/src/routes/materials.rs and jobs.rs: listing, intake, download and retry.
use otdel.Prelude.{
  ℕ, ◌^◌, Bool, true, false, Option, none, some, List, [], ◌∷◌, ◌++◌, ltb, if◌then◌else◌, Result,
  ok, err, ◌>>=◌, ok_or, lit,
}
use otdel.Prelude.Text.{Text, codes}
use otdel.Core.AppError
use otdel.Core.AppError.{AppError}
use otdel.Core.ErrorCode
use otdel.Core.Media
use otdel.Core.Model.{Material, Job, DateTime, can_retry, retry_refusal, media_type_string}
use otdel.Core.Validate.{content_disposition_ascii_fallback, content_disposition_utf8}
use otdel.Api.ApiError
use otdel.Api.ApiError.{ApiError}
use otdel.Api.Auth.{Session}
use otdel.Api.Intake.{Field, ReceivedFile, receive_file}
use otdel.Api.Routes.Partners.{begin_scoped, query, partner_not_found}
use otdel.Db.DbError.{DbError}
use otdel.Db.Jobs
use otdel.Db.Materials
use otdel.Db.Materials.{NewMaterial, InsertOutcome, created, duplicate, material_of}
use otdel.Db.Partners
use otdel.Db.Rows.{Tables, ScopedTx}
use otdel.Storage.Disk.{Disk}
use otdel.Storage.Fs.{FilesystemObjectStore}
use otdel.Storage.Key.{ObjectNamespace}
use otdel.Storage.Uuid.{Uuid, UuidText}

abbrev pub material_not_found : ApiError
material_not_found = ApiError.not_found_error "material not found for this partner"

abbrev partner_known : Bool → Result (Unit {0}) ApiError
partner_known true = ok tt
partner_known false = err partner_not_found

unfoldable pub list : Session → DateTime → Uuid → Tables → Result (List Material) ApiError
unfolding Partners.exists Materials.list_for_partner
list session now partner_id tables =
    let tx = begin_scoped session now tables in
    partner_known (Partners.exists tx partner_id) >>= λ known.
    query (Materials.list_for_partner tx partner_id)

-- routes/jobs.rs
unfoldable pub list_jobs : Session → DateTime → Uuid → Tables → Result (List Job) ApiError
unfolding Partners.exists Jobs.list_for_partner
list_jobs session now partner_id tables =
    let tx = begin_scoped session now tables in
    partner_known (Partners.exists tx partner_id) >>= λ known.
    query (Jobs.list_for_partner tx partner_id)

-- 201 for a new original, 200 for one that was there.
abbrev pub outcome_status : InsertOutcome → ℕ
outcome_status (created material) = 201
outcome_status (duplicate material) = 200

-- `i64::try_from` of the size.
unfoldable pub new_material : Uuid → ReceivedFile → Result NewMaterial ApiError
new_material partner_id received =
    if ltb received.stored.size_bytes (2 ^ 63)
    then ok record {
      partner_id = partner_id;
      filename = received.filename;
      media_type = media_type_string received.media_type;
      size_bytes = received.stored.size_bytes;
      sha256 = received.stored.sha256;
      storage_key = received.stored.key.raw;
    }
    else err (
        ApiError.new
          (AppError.new ErrorCode.payload_too_large (lit "file is too large to record" ∷ [])))

-- The transaction that publishes the metadata and the queue entry together.
unfoldable pub publish_material :
    UuidText → Uuid → Uuid → ScopedTx → NewMaterial → Result (InsertOutcome × ScopedTx) DbError
unfolding Materials.insert Jobs.enqueue_extraction
publish_material U material_id job_id tx m = Materials.insert material_id tx m >>= λ inserted.
    Jobs.enqueue_extraction U job_id inserted.1 m.partner_id (material_of inserted.0).id
    >>= λ queued. ok (inserted.0, queued.1)

-- `material_id` and `job_id` are what gen_random_uuid() gives for the two rows, `name` is the fresh
-- name of the staging file, `later` the time of the second transaction.
module _ (U : UuidText) (sha256 : List ℕ → List ℕ) (store : FilesystemObjectStore)
    (max_bytes : ℕ) where
  unfoldable pub upload :
      Text
      → Uuid
      → Uuid
      → Session
      → DateTime
      → DateTime
      → Uuid
      → List (Option Field)
      → Tables
      → Disk
      → Result (ℕ × Material) ApiError × Tables × Disk
  unfolding Partners.exists receive_file new_material publish_material
  upload name material_id job_id session now later partner_id fields tables d =
      elim (partner_known (Partners.exists (begin_scoped session now tables) partner_id)) [
        | err failure ↦ (err failure, tables, d)
        | ok known ↦
            let namespace : ObjectNamespace = record {
              bureau_id = session.bureau_id;
              partner_id = partner_id;
            } in
            let (received, d') = receive_file U sha256 store max_bytes name namespace fields d in
            elim (received >>= λ file. new_material partner_id file >>= λ m.
            query (publish_material U material_id job_id (begin_scoped session later tables) m)) [
              | err failure ↦ (err failure, tables, d')
              | ok (outcome, tx) ↦ (ok (outcome_status outcome, material_of outcome), tx.tables, d')
            ]
      ]

-- Only a material that failed or was finished in part is put back into the queue.
unfoldable pub retry :
    UuidText
    → Uuid
    → Session
    → DateTime
    → Uuid
    → Uuid
    → Tables
    → Result (Material × Tables) ApiError
unfolding Materials.get_in_partner can_retry retry_refusal Materials.requeue Jobs.requeue_extraction
retry U job_id session now partner_id material_id tables =
    let tx = begin_scoped session now tables in
    query (Materials.get_in_partner tx partner_id material_id) >>= λ found.
    ok_or found material_not_found >>= λ stored.
    (if can_retry stored.material.status
      then ok stored
      else err (ApiError.new (retry_refusal stored.material.status)))
    >>= λ allowed. query (Materials.requeue tx partner_id material_id) >>= λ requeued.
        ok_or requeued.0 material_not_found >>= λ material.
        query (Jobs.requeue_extraction U job_id requeued.1 partner_id material_id) >>= λ queued.
        ok (material, queued.1.tables)

-- The value of the `Content-Disposition` header of a download.
unfoldable pub content_disposition : Material → Option Text
unfolding Media.parse content_disposition_ascii_fallback content_disposition_utf8
content_disposition material = elim (Media.parse material.media_type) [
  | none ↦ none
  | some media_type ↦ some (
      codes "attachment; filename=\""
      ++ content_disposition_ascii_fallback material.filename media_type
      ++ codes "\"; filename*="
      ++ content_disposition_utf8 material.filename)
]
