-- ===== src/Tests/Retries.antt =====
-- A retry of a material that failed, with its job.
use otdel.Prelude.{◌≡◌, refl, ◌⊎◌, none, some, [], ◌∷◌, ok}
use otdel.Prelude.Text.{codes, text_eq}
use otdel.Core.Model.{
  MaterialStatus, extract_document, can_retry, parse_material_status, parse_job_kind,
  parse_job_status, extraction_idempotency_key, job_kind_as_str,
}
use otdel.Api.Auth.{Session}
use otdel.Api.Routes.Materials.{retry}
use otdel.Api.Routes.Partners.{begin_scoped}
use otdel.Api.Routes.Published.{retry_ok}
use otdel.Db.Isolation.{others}
use otdel.Db.Jobs
use otdel.Db.Materials
use otdel.Db.Materials.{StoredMaterial}
use otdel.Db.Rows.{MaterialRow, JobRow, Tables, material_from_row, job_from_row}
use otdel.Tests.Tables.{partner, material}
use otdel.Tests.Keys.{sha}
use otdel.Tests.Uuids.{uuids}

abbrev failed : MaterialRow
failed = record {
  bureau_id = 1;
  id = 7;
  partner_id = 2;
  filename = codes "a.pdf";
  media_type = codes "application/pdf";
  size_bytes = 3;
  sha256 = sha;
  storage_key = codes "k";
  status = codes "failed";
  page_count = none;
  error = some (codes "e");
  created_at = 50;
  updated_at = 50;
}

abbrev failed_job : JobRow
unfolding extraction_idempotency_key uuids job_kind_as_str
failed_job = record {
  bureau_id = 1;
  id = 9;
  partner_id = 2;
  material_id = 7;
  kind = codes "extract_document";
  status = codes "failed";
  stage = none;
  attempts = 5;
  max_attempts = 5;
  idempotency_key = extraction_idempotency_key uuids 7 extract_document;
  run_after = 50;
  lease_owner = none;
  lease_expires_at = none;
  error = some (codes "e");
  created_at = 50;
  updated_at = 50;
}

abbrev tables : Tables
unfolding failed_job
tables = record { partners = partner ∷ []; materials = failed ∷ []; jobs = failed_job ∷ [] }

abbrev session : Session
session = record { session_id = 5; bureau_id = 1; csrf_token = codes "c"; expires_at = 700 }

abbrev after : Tables
unfolding tables Materials.requeued Jobs.requeued
after = record tables {
  materials = Materials.requeued (begin_scoped session 60 tables) failed ∷ [];
  jobs = Jobs.requeued (begin_scoped session 60 tables) failed_job ∷ [];
}

retry_run : retry uuids 12 session 60 2 7 tables ≡ ok (material, after)
unfolding retry Materials.get_in_partner Materials.requeue Materials.requeued
    Jobs.requeue_extraction Jobs.requeued can_retry material_from_row job_from_row
    parse_material_status parse_job_kind parse_job_status extraction_idempotency_key job_kind_as_str
    uuids text_eq tables failed_job after
retry_run = refl

retry_ok_example :
    (found : StoredMaterial) × (Materials.get_in_partner (begin_scoped session 60 tables) 2 7
      ≡ ok (some found))
    × ((found.material.status ≡ MaterialStatus.failed)
        ⊎ (found.material.status ≡ MaterialStatus.partial))
    × (MaterialStatus.queued ≡ MaterialStatus.queued)
    × (others 1 after ≡ others 1 tables)
retry_ok_example =
    retry_ok uuids 12 session 60 2 7 tables {material = material} {tables' = after} retry_run
