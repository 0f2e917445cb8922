-- ===== src/Db/Jobs/Queue.antt =====
-- The queue has one job for each material: enqueueing twice, and retrying.
use otdel.Prelude.{
  ◌<◌, ◌≡◌, refl, ◌⊎◌, inl, inr, Bool, true, false, ◌&&◌, none, some, List, [], ◌∷◌, ◌++◌, arith,
  ◌==◌, ==_refl, Option-cases, any, find?, ok, >>=-state, Result-cases,
}
use otdel.Prelude.Text.{Text, text_eq, text_eq_refl}
use otdel.Core.Model.{
  Job, JobStatus, extract_document, parse_job_status, parse_job_kind, extraction_idempotency_key,
}
use otdel.Db.Jobs.{
  set_jobs, has_key, is_job, new_job, enqueue_row, enqueue_extraction, requeued, requeue_extraction,
}
use otdel.Db.Query.{update_where, IsUnique}
use otdel.Db.Query.Found.{find?-append, any_of_find?, find?-update_where, IsUnique-append}
use otdel.Db.Rows.{JobRow, ScopedTx, job_from_row}
use otdel.Storage.Uuid.{Uuid, UuidText}

-- The constraint UNIQUE (bureau_id, idempotency_key).
abbrev pub same_key : JobRow → JobRow → Bool
same_key a b = (a.bureau_id == b.bureau_id) && text_eq a.idempotency_key b.idempotency_key

has_key-new_job :
    (U : UuidText) (new_id : Uuid) (tx : ScopedTx) (partner_id material_id : Uuid)
    → has_key tx.bureau_id
        (extraction_idempotency_key U material_id extract_document)
        (new_job U new_id tx partner_id material_id)
      ≡ true
unfolding new_job
has_key-new_job U new_id tx partner_id material_id = ground (
  arith,
  ==_refl tx.bureau_id,
  text_eq_refl (extraction_idempotency_key U material_id extract_document),
)

module _ (U : UuidText) where
  -- After an enqueueing the key finds the row that it returned.
  enqueue_row-find? :
      (new_id : Uuid) (tx : ScopedTx) (partner_id material_id : Uuid) {row : JobRow}
      {after : ScopedTx}
      → enqueue_row U new_id tx partner_id material_id ≡ ok (row, after)
      → find? after.tables.jobs
          (has_key after.bureau_id (extraction_idempotency_key U material_id extract_document))
        ≡ some row
  unfolding enqueue_row
  enqueue_row-find? new_id tx partner_id material_id {row} {after} h =
      let key = extraction_idempotency_key U material_id extract_document in
      let row' = new_job U new_id tx partner_id material_id in
      elim (Option-cases (find? tx.tables.jobs (has_key tx.bureau_id key))) [
        | inr (existing, e) ↦ ground arith
        | inl e ↦ ground (
          arith,
          find?-append (has_key tx.bureau_id key) tx.tables.jobs (row' ∷ [])
              (any_of_find? (has_key tx.bureau_id key) tx.tables.jobs e),
          has_key-new_job U new_id tx partner_id material_id,
        )
      ]

  enqueue_row_found :
      (new_id : Uuid) (tx : ScopedTx) (partner_id material_id : Uuid) {row : JobRow}
      → find? tx.tables.jobs
          (has_key tx.bureau_id (extraction_idempotency_key U material_id extract_document))
        ≡ some row
      → enqueue_row U new_id tx partner_id material_id ≡ ok (row, tx)
  unfolding enqueue_row
  enqueue_row_found new_id tx partner_id material_id {row} h = ground arith

  -- Enqueueing again, from any id that the database draws, returns the same job and changes nothing.
  pub enqueue_extraction_again :
      (new_id new_id' : Uuid) (tx : ScopedTx) (partner_id material_id : Uuid) {job : Job}
      {after : ScopedTx}
      → enqueue_extraction U new_id tx partner_id material_id ≡ ok (job, after)
      → enqueue_extraction U new_id' after partner_id material_id ≡ ok (job, after)
  unfolding enqueue_extraction
  enqueue_extraction_again new_id new_id' tx partner_id material_id {job} {after} h =
      let (row, first, second) =
        >>=-state (enqueue_row U new_id tx partner_id material_id) (λ s r. job_from_row r) h in
      rw (
        enqueue_row_found new_id' after partner_id material_id
            (enqueue_row-find? new_id tx partner_id material_id first),
        second,
      )

  pub same_key-new_job :
      (new_id : Uuid) (tx : ScopedTx) (partner_id material_id : Uuid)
      → any tx.tables.jobs
          (has_key tx.bureau_id (extraction_idempotency_key U material_id extract_document))
        ≡ false
      → any tx.tables.jobs (λ x. same_key x (new_job U new_id tx partner_id material_id)) ≡ false
  unfolding new_job
  same_key-new_job new_id tx partner_id material_id h = h

  -- Either the job was there and nothing changes, or its key is new and one row is added.
  pub enqueue_row-cases :
      (new_id : Uuid) (tx : ScopedTx) (partner_id material_id : Uuid) {row : JobRow}
      {after : ScopedTx}
      → enqueue_row U new_id tx partner_id material_id ≡ ok (row, after)
      → (after ≡ tx)
        ⊎ ((any tx.tables.jobs
                (has_key tx.bureau_id (extraction_idempotency_key U material_id extract_document))
              ≡ false)
            × (after
                ≡ set_jobs tx
                    (tx.tables.jobs ++ (new_job U new_id tx partner_id material_id ∷ []))))
  unfolding enqueue_row
  enqueue_row-cases new_id tx partner_id material_id {row} {after} h =
      let p = has_key tx.bureau_id (extraction_idempotency_key U material_id extract_document) in
      elim (Option-cases (find? tx.tables.jobs p)) [
        | inr (existing, e) ↦ inl (ground arith)
        | inl e ↦ inr (any_of_find? p tx.tables.jobs e, ground arith)
      ]

  -- Enqueueing changes the jobs only.
  pub enqueue_extraction-cases :
      (new_id : Uuid) (tx : ScopedTx) (partner_id material_id : Uuid) {job : Job} {after : ScopedTx}
      → enqueue_extraction U new_id tx partner_id material_id ≡ ok (job, after)
      → (rows : List JobRow) × (after ≡ set_jobs tx rows)
  unfolding enqueue_extraction
  enqueue_extraction-cases new_id tx partner_id material_id {job} {after} h =
      let (row, first, second) =
        >>=-state (enqueue_row U new_id tx partner_id material_id) (λ s r. job_from_row r) h in
      elim (enqueue_row-cases new_id tx partner_id material_id first) [
        | inl e ↦ (tx.tables.jobs, e)
        | inr (fresh, e) ↦ (tx.tables.jobs ++ (new_job U new_id tx partner_id material_id ∷ []), e)
      ]

  enqueue_row-IsUnique :
      (new_id : Uuid) (tx : ScopedTx) (partner_id material_id : Uuid) {row : JobRow}
      {after : ScopedTx}
      → enqueue_row U new_id tx partner_id material_id ≡ ok (row, after)
      → IsUnique same_key tx.tables.jobs
      → IsUnique same_key after.tables.jobs
  unfolding enqueue_row
  enqueue_row-IsUnique new_id tx partner_id material_id {row} {after} h u =
      elim (enqueue_row-cases new_id tx partner_id material_id h) [
        | inl e ↦ rw e u
        | inr (fresh, e) ↦ rw e (
            IsUnique-append same_key tx.tables.jobs (new_job U new_id tx partner_id material_id) u
              (same_key-new_job new_id tx partner_id material_id fresh))
      ]

  pub requeue_extraction-steps :
      (new_id : Uuid) (tx : ScopedTx) (partner_id material_id : Uuid) {old : JobRow} {job : Job}
      {after : ScopedTx}
      → find? tx.tables.jobs (
          is_job tx.bureau_id partner_id material_id
            (extraction_idempotency_key U material_id extract_document))
        ≡ some old
      → requeue_extraction U new_id tx partner_id material_id ≡ ok (job, after)
      → (job_from_row (requeued tx old) ≡ ok job)
        × (after
            ≡ set_jobs tx (
                update_where
                  (is_job tx.bureau_id partner_id material_id
                    (extraction_idempotency_key U material_id extract_document))
                  (requeued tx)
                  tx.tables.jobs))
  unfolding requeue_extraction
  requeue_extraction-steps new_id tx partner_id material_id {old} {job} {after} f h =
      elim (Result-cases (job_from_row (requeued tx old))) [
        | inl (job', e) ↦ ground arith
        | inr (failure, e) ↦ absurd (ground arith)
      ]

  is_job-requeued :
      (tx : ScopedTx) (partner_id material_id : Uuid) (key : Text) (row : JobRow)
      → is_job tx.bureau_id partner_id material_id key (requeued tx row)
        ≡ is_job tx.bureau_id partner_id material_id key row
  unfolding requeued
  is_job-requeued tx partner_id material_id key row = refl

  job_from_row-requeued :
      (tx : ScopedTx) (old : JobRow) {job : Job}
      → job_from_row (requeued tx old) ≡ ok job
      → (job.status ≡ JobStatus.queued) × (job.attempts ≡ old.attempts)
  unfolding job_from_row requeued parse_job_status text_eq
  job_from_row-requeued tx old {job} h = elim (Option-cases (parse_job_kind old.kind)) [
    | inl e ↦ absurd (ground arith)
    | inr (kind, e) ↦ ground arith
  ]

  requeued-runnable :
      (tx : ScopedTx) (old : JobRow)
      → ((requeued tx old).attempts < (requeued tx old).max_attempts)
        × ((requeued tx old).lease_expires_at ≡ none)
  unfolding requeued
  requeued-runnable tx old = (omega arith, refl)

  -- Enqueueing keeps the constraint that no two jobs of a bureau have one idempotency key.
  pub enqueue_extraction-IsUnique :
      (new_id : Uuid) (tx : ScopedTx) (partner_id material_id : Uuid) {job : Job} {after : ScopedTx}
      → enqueue_extraction U new_id tx partner_id material_id ≡ ok (job, after)
      → IsUnique same_key tx.tables.jobs
      → IsUnique same_key after.tables.jobs
  unfolding enqueue_extraction
  enqueue_extraction-IsUnique new_id tx partner_id material_id {job} {after} h u =
      let (row, first, second) =
        >>=-state (enqueue_row U new_id tx partner_id material_id) (λ s r. job_from_row r) h in
      enqueue_row-IsUnique new_id tx partner_id material_id first u

  -- A retry of a material that has a job: the job is queued without a lease, its attempts are
  -- kept, and another run is allowed.
  pub requeue_extraction_runnable :
      (new_id : Uuid) (tx : ScopedTx) (partner_id material_id : Uuid) {old : JobRow} {job : Job}
      {after : ScopedTx}
      → find? tx.tables.jobs (
          is_job tx.bureau_id partner_id material_id
            (extraction_idempotency_key U material_id extract_document))
        ≡ some old
      → requeue_extraction U new_id tx partner_id material_id ≡ ok (job, after)
      → (row : JobRow) × (find? after.tables.jobs (
            is_job tx.bureau_id partner_id material_id
              (extraction_idempotency_key U material_id extract_document))
          ≡ some row)
        × (job_from_row row ≡ ok job)
        × (job.status ≡ JobStatus.queued)
        × (job.attempts ≡ old.attempts)
        × (row.attempts < row.max_attempts)
        × (row.lease_expires_at ≡ none)
  unfolding requeue_extraction
  requeue_extraction_runnable new_id tx partner_id material_id {old} {job} {after} f h =
      let chosen =
        is_job tx.bureau_id partner_id material_id
          (extraction_idempotency_key U material_id extract_document) in
      let (decoded, e) = requeue_extraction-steps new_id tx partner_id material_id f h in
      let (status, attempts) = job_from_row-requeued tx old decoded in
      let (runnable, free) = requeued-runnable tx old in
      (
        requeued tx old,
        rw e (
            find?-update_where chosen (requeued tx) tx.tables.jobs
              (is_job-requeued tx partner_id material_id _) f),
        decoded,
        status,
        attempts,
        runnable,
        free,
      )
