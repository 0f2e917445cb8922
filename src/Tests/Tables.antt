-- ===== src/Tests/Tables.antt =====
-- Transactions on small tables.
use otdel.Prelude.{ℕ, ◌<◌, ◌≡◌, refl, true, none, some, [], ◌∷◌, find?, ok}
use otdel.Prelude.Text.{Text, codes, text_eq, is_ascii_digit, encode_utf8, bytes}
use otdel.Core.Model.{
  Material, MaterialStatus, Job, JobStatus, extract_document, job_kind_as_str, parse_job_kind,
  parse_job_status, parse_material_status, extraction_idempotency_key,
}
use otdel.Db.Isolation.{material_inserted, done, next, others}
use otdel.Db.Isolation.Unique.{IsConsistent, Steps-IsConsistent}
use otdel.Db.Isolation.Kept.{Steps-others}
use otdel.Db.Jobs.{
  is_job, new_job, enqueue_row, enqueue_extraction, has_material, requeued, requeue_extraction,
}
use otdel.Db.Jobs.Queue.{requeue_extraction_runnable}
use otdel.Db.Materials.{
  NewMaterial, created, duplicate, check_material, insert_row, insert_outcome, insert, new_row,
  find_by_digest,
}
use otdel.Db.Partners
use otdel.Db.Rows.{PartnerRow, MaterialRow, JobRow, ScopedTx, job_from_row, material_from_row}
use otdel.Api.Routes.Materials.{publish_material}
use otdel.Api.Routes.Published.{publish_material_again}
use otdel.Storage.Key.{is_sha256_hex, is_lower_hex}
use otdel.Tests.Keys.{sha}
use otdel.Tests.Uuids.{uuids}

abbrev pub partner : PartnerRow
partner = record {
  bureau_id = 1;
  id = 2;
  name = codes "BASIS";
  note = none;
  created_at = 10;
  updated_at = 10;
}

abbrev tx : ScopedTx
tx = record {
  bureau_id = 1;
  now = 50;
  tables = record { partners = partner ∷ []; materials = []; jobs = [] };
}

abbrev upload : NewMaterial
upload = record {
  partner_id = 2;
  filename = codes "a.pdf";
  media_type = codes "application/pdf";
  size_bytes = 3;
  sha256 = sha;
  storage_key = codes "k";
}

abbrev stored : MaterialRow
unfolding new_row
stored = new_row 7 tx upload

abbrev with_material : ScopedTx
unfolding stored
with_material = record tx { tables = record tx.tables { materials = stored ∷ [] } }

abbrev pub material : Material
material = record {
  id = 7;
  partner_id = 2;
  filename = codes "a.pdf";
  media_type = codes "application/pdf";
  size_bytes = 3;
  sha256 = sha;
  status = MaterialStatus.queued;
  page_count = none;
  created_at = 50;
  error = none;
}

insert_run : insert 7 tx upload ≡ ok (created material, with_material)
unfolding insert insert_row insert_outcome check_material is_sha256_hex is_lower_hex is_ascii_digit
    bytes encode_utf8 text_eq material_from_row parse_material_status Partners.exists with_material
insert_run = refl

upload_valid : check_material upload ≡ true
unfolding check_material is_sha256_hex is_lower_hex is_ascii_digit bytes encode_utf8 text_eq
upload_valid = refl

abbrev job_row : JobRow
unfolding new_job uuids
job_row = new_job uuids 9 with_material 2 7

abbrev with_job : ScopedTx
unfolding job_row
with_job = record with_material { tables = record with_material.tables { jobs = job_row ∷ [] } }

abbrev job : Job
job = record {
  id = 9;
  partner_id = 2;
  material_id = 7;
  kind = extract_document;
  status = JobStatus.queued;
  stage = none;
  attempts = 0;
  created_at = 50;
  updated_at = 50;
  error = none;
}

enqueue_run : enqueue_extraction uuids 9 with_material 2 7 ≡ ok (job, with_job)
unfolding enqueue_extraction enqueue_row new_job uuids has_material job_from_row parse_job_kind
    parse_job_status text_eq with_material with_job extraction_idempotency_key job_kind_as_str
enqueue_run = refl

publish_run : publish_material uuids 7 9 tx upload ≡ ok (created material, with_job)
unfolding publish_material
publish_run = rw (insert_run, enqueue_run)

publish_material_again_example :
    (find_by_digest with_job 2 sha ≡ ok (some material))
    × (publish_material uuids 8 10 with_job upload ≡ ok (duplicate material, with_job))
publish_material_again_example = publish_material_again uuids 7 9 8 10 tx upload publish_run

-- A retry of the job after its five runs.
abbrev exhausted : JobRow
unfolding job_row
exhausted = record job_row { status = codes "failed"; attempts = 5 }

abbrev with_exhausted : ScopedTx
unfolding exhausted
with_exhausted = record with_material {
  tables = record with_material.tables { jobs = exhausted ∷ [] };
}

abbrev after_retry : ScopedTx
unfolding exhausted requeued
after_retry = record with_exhausted {
  tables = record with_exhausted.tables { jobs = requeued with_exhausted exhausted ∷ [] };
}

abbrev key : Text
key = extraction_idempotency_key uuids 7 extract_document

exhausted_found : find? with_exhausted.tables.jobs (is_job 1 2 7 key) ≡ some exhausted
unfolding with_exhausted with_material new_job uuids extraction_idempotency_key job_kind_as_str
    text_eq exhausted job_row
exhausted_found = refl

requeue_run :
    requeue_extraction uuids 11 with_exhausted 2 7 ≡ ok (record job { attempts = 5 }, after_retry)
unfolding requeue_extraction requeued new_job uuids job_from_row parse_job_kind parse_job_status
    text_eq with_material with_exhausted after_retry extraction_idempotency_key job_kind_as_str
    exhausted job_row
requeue_run = refl

requeue_extraction_runnable_example :
    (row : JobRow) × (find? after_retry.tables.jobs (is_job 1 2 7 key) ≡ some row)
    × (job_from_row row ≡ ok (record job { attempts = 5 }))
    × (JobStatus.queued ≡ JobStatus.queued)
    × (◌≡◌ {A = ℕ} 5 5)
    × (row.attempts < row.max_attempts)
    × (row.lease_expires_at ≡ none)
unfolding exhausted job_row new_job with_exhausted with_material
requeue_extraction_runnable_example =
    requeue_extraction_runnable uuids 11 with_exhausted 2 7 {old = exhausted} exhausted_found
      requeue_run

-- Two jobs whose worker died, one of them for the last time.
abbrev with_leases : ScopedTx
unfolding job_row
with_leases = record with_material {
  tables = record with_material.tables {
    jobs =
        record job_row {
          status = codes "running";
          attempts = 5;
          lease_owner = some (codes "w");
          lease_expires_at = some 40;
        }
        ∷ record job_row {
          status = codes "running";
          lease_owner = some (codes "w");
          lease_expires_at = some 60;
        }
        ∷ [];
  };
}

Steps-others_example :
    (with_material.bureau_id ≡ tx.bureau_id)
    × (others tx.bureau_id with_material.tables ≡ others tx.bureau_id tx.tables)
Steps-others_example = Steps-others uuids (next (material_inserted 7 upload insert_run) done)

Steps-IsConsistent_example : IsConsistent with_material.tables
Steps-IsConsistent_example =
    Steps-IsConsistent uuids (next (material_inserted 7 upload insert_run) done) (tt, tt)
