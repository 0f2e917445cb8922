-- ===== src/Core/Model.antt =====
-- crates/otdel-core/src/model.rs: partners, materials, jobs and their states.
pub mod Names
use otdel.Prelude.{
  ℕ, String, Bool, true, false, Option, none, some, [], ◌∷◌, ◌++◌, if◌then◌else◌, lit,
}
use otdel.Prelude.Text.{Text, codes, text_eq}
use otdel.Core.ErrorCode
use otdel.Core.AppError
use otdel.Core.AppError.{AppError}
use otdel.Core.Media.{MediaType}
use otdel.Core.Media
use otdel.Storage.Uuid.{Uuid, UuidText}

abbrev pub DateTime : Type 0
DateTime = ℕ

pub record Partner : Type 0 where
  pub id : Uuid
  pub name : Text
  pub note : Option Text
  pub created_at : DateTime
  pub updated_at : DateTime

pub data MaterialStatus : Type 0 where
  queued processing completed partial failed quarantined : MaterialStatus

pub record Material : Type 0 where
  pub id : Uuid
  pub partner_id : Uuid
  pub filename : Text
  pub media_type : Text
  pub size_bytes : ℕ
  pub sha256 : Text
  pub status : MaterialStatus
  pub page_count : Option ℕ
  pub created_at : DateTime
  pub error : Option Text

pub data JobKind : Type 0 where
  extract_document : JobKind

pub data JobStatus : Type 0 where
  queued running completed failed cancelled : JobStatus

pub record Job : Type 0 where
  pub id : Uuid
  pub partner_id : Uuid
  pub material_id : Uuid
  pub kind : JobKind
  pub status : JobStatus
  pub stage : Option Text
  pub attempts : ℕ
  pub created_at : DateTime
  pub updated_at : DateTime
  pub error : Option Text

unfoldable pub material_status_as_str : MaterialStatus → Text
material_status_as_str MaterialStatus.queued = codes "queued"
material_status_as_str MaterialStatus.processing = codes "processing"
material_status_as_str MaterialStatus.completed = codes "completed"
material_status_as_str MaterialStatus.partial = codes "partial"
material_status_as_str MaterialStatus.failed = codes "failed"
material_status_as_str MaterialStatus.quarantined = codes "quarantined"

unfoldable pub parse_material_status : Text → Option MaterialStatus
parse_material_status value =
    if text_eq value (codes "queued")
    then some MaterialStatus.queued
    else if text_eq value (codes "processing")
    then some MaterialStatus.processing
    else if text_eq value (codes "completed")
    then some MaterialStatus.completed
    else if text_eq value (codes "partial")
    then some MaterialStatus.partial
    else if text_eq value (codes "failed")
    then some MaterialStatus.failed
    else if text_eq value (codes "quarantined")
    then some MaterialStatus.quarantined
    else none

-- Only an extraction that ran and did not finish cleanly can be retried.
unfoldable pub can_retry : MaterialStatus → Bool
can_retry MaterialStatus.failed = true
can_retry MaterialStatus.partial = true
can_retry _ = false

refusal_message : MaterialStatus → String
refusal_message MaterialStatus.queued = "material is already queued for extraction"
refusal_message MaterialStatus.processing = "material is being processed right now"
refusal_message MaterialStatus.completed = "material has already been extracted"
refusal_message MaterialStatus.quarantined = "quarantined material cannot be retried"
refusal_message MaterialStatus.failed = "material can be retried"
refusal_message MaterialStatus.partial = "material can be retried"

unfoldable pub retry_refusal : MaterialStatus → AppError
unfolding refusal_message
retry_refusal status = AppError.new ErrorCode.conflict (lit (refusal_message status) ∷ [])

unfoldable pub job_kind_as_str : JobKind → Text
job_kind_as_str extract_document = codes "extract_document"

unfoldable pub parse_job_kind : Text → Option JobKind
parse_job_kind value =
    if text_eq value (codes "extract_document") then some extract_document else none

unfoldable pub job_status_as_str : JobStatus → Text
job_status_as_str JobStatus.queued = codes "queued"
job_status_as_str JobStatus.running = codes "running"
job_status_as_str JobStatus.completed = codes "completed"
job_status_as_str JobStatus.failed = codes "failed"
job_status_as_str JobStatus.cancelled = codes "cancelled"

unfoldable pub parse_job_status : Text → Option JobStatus
parse_job_status value =
    if text_eq value (codes "queued")
    then some JobStatus.queued
    else if text_eq value (codes "running")
    then some JobStatus.running
    else if text_eq value (codes "completed")
    then some JobStatus.completed
    else if text_eq value (codes "failed")
    then some JobStatus.failed
    else if text_eq value (codes "cancelled")
    then some JobStatus.cancelled
    else none

-- `{kind}:{material_id}`
unfoldable pub extraction_idempotency_key : UuidText → Uuid → JobKind → Text
unfolding job_kind_as_str
extraction_idempotency_key U material_id kind =
    job_kind_as_str kind ++ (b':' ∷ U.format material_id)

abbrev pub media_type_string : MediaType → Text
media_type_string = Media.as_str
