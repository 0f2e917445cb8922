-- ===== src/Db/Jobs.antt =====
-- crates/otdel-db/src/jobs.rs: the durable queue of jobs.
pub mod Queue
use otdel.Prelude.{
  ℕ, zero, suc, ◌+◌, ◌-◌, ◌*◌, ◌/◌, ◌%◌, ◌^◌, ◌≤◌, ◌<◌, min, max, String, ◌≡◌, refl, sym, ap, ◌∙◌,
  subst, ◌≢◌, ◌↔◌, ◌⊎◌, inl, inr, Bool, true, false, ◌&&◌, ◌||◌, not, Option, none, some, List, [],
  ◌∷◌, ◌++◌, map, append_assoc, append-nil, arith, ltb, leb, ◌==◌, if◌then◌else◌, ltb→lt, leb→le,
  ==_iff, ==_refl, &&-eq-true, Bool-cases, Option-cases, length, take, all, any, filter, find?,
  is_empty, ◌∈◌, ∈-append_left, ∈-append_right, length-append, length-take, all-append, all-take,
  All, Result, ok, err, ◌>>=◌, ◌>>◌, map_err, >>=-passed, >>=-state, ok_or, ok_or-eq_ok,
  map_err-eq_ok, paired, Result-cases, Piece, lit, arg, num, Message,
}
use otdel.Prelude.Text.{
  Text, codes, text_eq, text_eq_iff, text_eq_refl, starts_with, strip_prefix, strip_prefix-append,
  strip_prefix-eq_some, contains, split, split_once, join, Lacks, split-ne-nil, split_of_Lacks,
  split-append, split-Lacks, join-split, in_range, is_control, is_whitespace, is_ascii_digit,
  is_ascii_lowercase, is_ascii_uppercase, is_ascii_alphanumeric, to_ascii_lowercase,
  trim_start_matches, trim_end_matches, trim_matches, trim, all-trim_matches, length-trim_matches,
  trim_matches_idem, encode_utf8, bytes, len, decimal, parse_u64, parse_u64-lt,
}
use otdel.Core.Model
use otdel.Core.Model.{
  Job, JobKind, JobStatus, extract_document, job_kind_as_str, extraction_idempotency_key,
  parse_job_status,
}
use otdel.Db.DbError.{
  DbError, decode, check_violation, foreign_key_violation, primary_key_violation,
  number_out_of_range,
}
use otdel.Db.Query.{update_where, count, order_by, collect}
use otdel.Db.Rows.{MaterialRow, JobRow, Tables, ScopedTx, job_from_row, newer}
use otdel.Storage.Uuid.{Uuid, UuidText}

abbrev pub set_jobs : ScopedTx → List JobRow → ScopedTx
set_jobs tx rows = record tx { tables = record tx.tables { jobs = rows } }

unfoldable pub list_for_partner : ScopedTx → Uuid → Result (List Job) DbError
unfolding job_from_row order_by
list_for_partner tx partner_id = collect job_from_row (
    order_by (λ a b. newer a.created_at a.id b.created_at b.id)
      (filter tx.tables.jobs
        (λ row. (row.bureau_id == tx.bureau_id) && (row.partner_id == partner_id))))

-- WHERE bureau_id = $1 AND idempotency_key = $2
abbrev pub has_key : Uuid → Text → JobRow → Bool
has_key bureau_id key row = (row.bureau_id == bureau_id) && text_eq row.idempotency_key key

-- The defaults of the table fill the columns that the statement does not name.
unfoldable pub new_job : UuidText → Uuid → ScopedTx → Uuid → Uuid → JobRow
unfolding job_kind_as_str extraction_idempotency_key
new_job U new_id tx partner_id material_id = record {
  bureau_id = tx.bureau_id;
  id = new_id;
  partner_id = partner_id;
  material_id = material_id;
  kind = job_kind_as_str extract_document;
  status = codes "queued";
  stage = none;
  attempts = 0;
  max_attempts = 5;
  idempotency_key = extraction_idempotency_key U material_id extract_document;
  run_after = tx.now;
  lease_owner = none;
  lease_expires_at = none;
  error = none;
  created_at = tx.now;
  updated_at = tx.now;
}

-- The composite foreign key: the material belongs to the bureau and to the partner.
unfoldable pub has_material : Uuid → Uuid → Uuid → List MaterialRow → Bool
has_material bureau_id partner_id material_id rows = any rows (λ row.
    (row.bureau_id == bureau_id) && (row.partner_id == partner_id) && (row.id == material_id))

-- INSERT … ON CONFLICT (bureau_id, idempotency_key) DO NOTHING, or else the row that is there.
unfoldable pub enqueue_row :
    UuidText → Uuid → ScopedTx → Uuid → Uuid → Result (JobRow × ScopedTx) DbError
unfolding new_job has_material extraction_idempotency_key
enqueue_row U new_id tx partner_id material_id =
    let row = new_job U new_id tx partner_id material_id in
    elim (find? tx.tables.jobs
      (has_key tx.bureau_id (extraction_idempotency_key U material_id extract_document))) [
        | some existing ↦ ok (existing, tx)
        | none ↦
            if any tx.tables.jobs (λ other. other.id == new_id)
            then err (primary_key_violation (codes "jobs_pkey"))
            else if not (has_material tx.bureau_id partner_id material_id tx.tables.materials)
            then err foreign_key_violation
            else ok (row, set_jobs tx (tx.tables.jobs ++ (row ∷ [])))
      ]

unfoldable pub enqueue_extraction :
    UuidText → Uuid → ScopedTx → Uuid → Uuid → Result (Job × ScopedTx) DbError
unfolding enqueue_row job_from_row
enqueue_extraction U new_id tx partner_id material_id =
    enqueue_row U new_id tx partner_id material_id >>= λ queued.
    job_from_row queued.0 >>= λ job. ok (job, queued.1)

-- WHERE bureau_id = $1 AND partner_id = $2 AND material_id = $3 AND idempotency_key = $4
abbrev pub is_job : Uuid → Uuid → Uuid → Text → JobRow → Bool
is_job bureau_id partner_id material_id key row =
    (row.bureau_id == bureau_id)
    && (row.partner_id == partner_id)
    && (row.material_id == material_id)
    && text_eq row.idempotency_key key

-- Both lease columns are cleared, so the CHECK that ties one to the other holds of the new row.
unfoldable pub requeued : ScopedTx → JobRow → JobRow
requeued tx row = record row {
  status = codes "queued";
  stage = none;
  error = none;
  run_after = tx.now;
  lease_owner = none;
  lease_expires_at = none;
  max_attempts = max row.max_attempts (row.attempts + 1);
  updated_at = tx.now;
}

-- `attempts + 1` of an `integer` column is an error from 2 ^ 31 - 1 on.
unfoldable pub requeue_extraction :
    UuidText → Uuid → ScopedTx → Uuid → Uuid → Result (Job × ScopedTx) DbError
unfolding requeued job_from_row enqueue_extraction extraction_idempotency_key
requeue_extraction U new_id tx partner_id material_id =
    let chosen =
      is_job tx.bureau_id partner_id material_id
        (extraction_idempotency_key U material_id extract_document) in
    elim (find? tx.tables.jobs chosen) [
      | none ↦ enqueue_extraction U new_id tx partner_id material_id
      | some row ↦
          if leb (2 ^ 31) (row.attempts + 1)
          then err number_out_of_range
          else job_from_row (requeued tx row) >>= λ job.
              ok (job, set_jobs tx (update_where chosen (requeued tx) tx.tables.jobs))
    ]

-- WHERE bureau_id = $1 AND status = 'running' AND lease_expires_at < now(): NULL is not below.
unfoldable pub has_expired_lease : ScopedTx → JobRow → Bool
has_expired_lease tx row =
    (row.bureau_id == tx.bureau_id)
    && text_eq row.status (codes "running")
    && elim row.lease_expires_at [ none ↦ false | some expires_at ↦ ltb expires_at tx.now ]

unfoldable pub reclaimed : ScopedTx → JobRow → JobRow
reclaimed tx row =
    let exhausted = leb row.max_attempts row.attempts in
    record row {
      status = if exhausted then codes "failed" else codes "queued";
      error =
          if exhausted
          then some (codes "attempt limit reached after an interrupted run")
          else row.error;
      lease_owner = none;
      lease_expires_at = none;
      run_after = tx.now;
      updated_at = tx.now;
    }

unfoldable pub reclaim_expired_leases : ScopedTx → ℕ × ScopedTx
unfolding has_expired_lease reclaimed
reclaim_expired_leases tx = (
  count (has_expired_lease tx) tx.tables.jobs,
  set_jobs tx (update_where (has_expired_lease tx) (reclaimed tx) tx.tables.jobs),
)

-- GROUP BY status: one more row of a status. The order of the groups is open in SQL.
tally : Text → List (Text × ℕ) → List (Text × ℕ)
tally status [] = (status, 1) ∷ []
tally status ((other, total) ∷ groups) =
    let rest = tally status groups in
    if text_eq other status then (other, total + 1) ∷ groups else (other, total) ∷ rest

group_by_status : List JobRow → List (Text × ℕ)
unfolding tally
group_by_status [] = []
group_by_status (row ∷ rows) = tally row.status (group_by_status rows)

status_total : Text × ℕ → Result (JobStatus × ℕ) DbError
status_total (name, total) =
    ok_or (parse_job_status name) (decode (lit "unknown job status `" ∷ arg name ∷ lit "`" ∷ []))
    >>= λ status. ok (status, total)

unfoldable pub count_by_status : ScopedTx → Result (List (JobStatus × ℕ)) DbError
unfolding group_by_status status_total
count_by_status tx =
    collect status_total
      (group_by_status (filter tx.tables.jobs (λ row. row.bureau_id == tx.bureau_id)))
