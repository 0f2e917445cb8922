-- ===== src/Api/Routes/Published.antt =====
-- What the transactions of an upload and of a retry leave in the tables.
use otdel.Prelude.{
  ◌≡◌, refl, ap, ◌∙◌, ◌⊎◌, inl, inr, true, none, some, arith, Bool-cases, Option-cases, find?, ok,
  Result-cases,
}
use otdel.Prelude.Text.{text_eq}
use otdel.Core.Model.{Material, MaterialStatus, Job, DateTime, can_retry, parse_material_status}
use otdel.Api.Auth.{Session}
use otdel.Api.Routes.Materials.{publish_material, retry}
use otdel.Api.Routes.Partners.{begin_scoped}
use otdel.Db.Isolation.{material_requeued, job_requeued, done, next, others}
use otdel.Db.Isolation.Kept.{Steps-others}
use otdel.Db.Jobs
use otdel.Db.Jobs.{set_jobs}
use otdel.Db.Jobs.Queue.{enqueue_extraction_again, enqueue_extraction-cases}
use otdel.Db.Materials
use otdel.Db.Materials.{NewMaterial, InsertOutcome, created, duplicate, material_of, StoredMaterial}
use otdel.Db.Materials.Duplicates.{insert-find_by_digest, insert-check_material, insert_of_found}
use otdel.Db.Rows.{MaterialRow, Tables, ScopedTx, material_from_row}
use otdel.Storage.Uuid.{Uuid, UuidText}

publish_material-steps :
    (U : UuidText) (material_id job_id : Uuid) (tx : ScopedTx) (m : NewMaterial)
    {outcome : InsertOutcome} {after : ScopedTx}
    → publish_material U material_id job_id tx m ≡ ok (outcome, after)
    → (middle : ScopedTx) × (job : Job) × (Materials.insert material_id tx m ≡ ok (outcome, middle))
      × (Jobs.enqueue_extraction U job_id middle m.partner_id (material_of outcome).id
          ≡ ok (job, after))
unfolding publish_material
publish_material-steps U material_id job_id tx m {outcome} {after} h =
    elim (Result-cases (Materials.insert material_id tx m)) [
      | inr (failure, e) ↦ absurd (ground arith)
      | inl ((inserted, middle), e) ↦
          elim (Result-cases
            (Jobs.enqueue_extraction U job_id middle m.partner_id (material_of inserted).id)) [
              | inr (failure, g) ↦ absurd (ground arith)
              | inl ((job, last), g) ↦ (middle, job, ground arith, ground arith)
            ]
    ]

-- A queue entry changes no material.
find_by_digest-enqueued :
    (U : UuidText) (job_id : Uuid) (middle : ScopedTx) (partner_id material_id : Uuid)
    (m : NewMaterial) {job : Job} {after : ScopedTx} {material : Material}
    → Jobs.enqueue_extraction U job_id middle partner_id material_id ≡ ok (job, after)
    → Materials.find_by_digest middle m.partner_id m.sha256 ≡ ok (some material)
    → Materials.find_by_digest after m.partner_id m.sha256 ≡ ok (some material)
unfolding Materials.find_by_digest
find_by_digest-enqueued U job_id middle partner_id material_id m {job} {after} {material} h found =
    let (rows, e) = enqueue_extraction-cases U job_id middle partner_id material_id h in rw e found

-- Publishing is idempotent: after a transaction that published a file, its digest finds the
-- material, and publishing the same file again adds neither a material nor a job, and is answered
-- by the first material as a duplicate.
pub publish_material_again :
    (U : UuidText) (material_id job_id material_id' job_id' : Uuid) (tx : ScopedTx)
    (m : NewMaterial) {outcome : InsertOutcome} {after : ScopedTx}
    → publish_material U material_id job_id tx m ≡ ok (outcome, after)
    → (Materials.find_by_digest after m.partner_id m.sha256 ≡ ok (some (material_of outcome)))
      × (publish_material U material_id' job_id' after m
          ≡ ok (duplicate (material_of outcome), after))
unfolding publish_material
publish_material_again U material_id job_id material_id' job_id' tx m {outcome} {after} h =
    let (middle, job, inserted, queued) = publish_material-steps U material_id job_id tx m h in
    let found =
      find_by_digest-enqueued U job_id middle m.partner_id (material_of outcome).id m queued
        (insert-find_by_digest material_id tx m inserted) in
    (
      found,
      rw (
        insert_of_found material_id' after m (insert-check_material material_id tx m inserted)
            found,
        enqueue_extraction_again U job_id job_id' middle m.partner_id (material_of outcome).id
            queued,
      ),
    )

can_retry-cases :
    (status : MaterialStatus)
    → can_retry status ≡ true
    → (status ≡ MaterialStatus.failed) ⊎ (status ≡ MaterialStatus.partial)
unfolding can_retry
can_retry-cases MaterialStatus.queued h = absurd (ground arith)
can_retry-cases MaterialStatus.processing h = absurd (ground arith)
can_retry-cases MaterialStatus.completed h = absurd (ground arith)
can_retry-cases MaterialStatus.partial h = inr refl
can_retry-cases MaterialStatus.failed h = inl refl
can_retry-cases MaterialStatus.quarantined h = absurd (ground arith)

retry-steps :
    (U : UuidText) (job_id : Uuid) (session : Session) (now : DateTime)
    (partner_id material_id : Uuid) (tables : Tables) {material : Material} {tables' : Tables}
    → retry U job_id session now partner_id material_id tables ≡ ok (material, tables')
    → (stored : StoredMaterial) × (middle : ScopedTx) × (job : Job) × (after : ScopedTx)
      × (Materials.get_in_partner (begin_scoped session now tables) partner_id material_id
          ≡ ok (some stored))
      × (can_retry stored.material.status ≡ true)
      × (Materials.requeue (begin_scoped session now tables) partner_id material_id
          ≡ ok (some material, middle))
      × (Jobs.requeue_extraction U job_id middle partner_id material_id ≡ ok (job, after))
      × (tables' ≡ after.tables)
unfolding retry
retry-steps U job_id session now partner_id material_id tables {material} {tables'} h =
    let tx = begin_scoped session now tables in
    elim (Result-cases (Materials.get_in_partner tx partner_id material_id)) [
      | inr (failure, e) ↦ absurd (ground arith)
      | inl (none, e) ↦ absurd (ground arith)
      | inl (some stored, e) ↦ elim (Bool-cases (can_retry stored.material.status)) [
        | inr refused ↦ absurd (ground arith)
        | inl allowed ↦ elim (Result-cases (Materials.requeue tx partner_id material_id)) [
          | inr (failure, r) ↦ absurd (ground arith)
          | inl ((none, middle), r) ↦ absurd (ground arith)
          | inl ((some requeued, middle), r) ↦
              elim (Result-cases (Jobs.requeue_extraction U job_id middle partner_id material_id)) [
                | inr (failure, q) ↦ absurd (ground arith)
                | inl ((job, after), q) ↦
                    (stored, middle, job, after, e, allowed, ground arith, q, ground arith)
              ]
        ]
      ]
    ]

requeued-queued :
    (tx : ScopedTx) (row : MaterialRow) {material : Material}
    → material_from_row (Materials.requeued tx row) ≡ ok material
    → material.status ≡ MaterialStatus.queued
unfolding material_from_row Materials.requeued parse_material_status text_eq
requeued-queued tx row {material} h = ground arith

-- The material that `requeue` returns is queued.
requeue-queued :
    (tx : ScopedTx) (partner_id material_id : Uuid) {material : Material} {after : ScopedTx}
    → Materials.requeue tx partner_id material_id ≡ ok (some material, after)
    → material.status ≡ MaterialStatus.queued
unfolding Materials.requeue
requeue-queued tx partner_id material_id {material} {after} h =
    let chosen = Materials.is_material tx.bureau_id partner_id material_id in
    elim (Option-cases (find? tx.tables.materials chosen)) [
      | inl e ↦ absurd (ground arith)
      | inr (row, e) ↦ elim (Result-cases (material_from_row (Materials.requeued tx row))) [
        | inr (failure, r) ↦ absurd (ground arith)
        | inl (decoded, r) ↦ requeued-queued tx row {material = material} (ground arith)
      ]
    ]

-- A retry that succeeds found the material in the session's bureau, failed or finished in part; the
-- material that it answers is queued, and the rows of all other bureaus are those from before.
pub retry_ok :
    (U : UuidText) (job_id : Uuid) (session : Session) (now : DateTime)
    (partner_id material_id : Uuid) (tables : Tables) {material : Material} {tables' : Tables}
    → retry U job_id session now partner_id material_id tables ≡ ok (material, tables')
    → (stored : StoredMaterial) × (Materials.get_in_partner
          (begin_scoped session now tables)
          partner_id
          material_id
        ≡ ok (some stored))
      × ((stored.material.status ≡ MaterialStatus.failed)
          ⊎ (stored.material.status ≡ MaterialStatus.partial))
      × (material.status ≡ MaterialStatus.queued)
      × (others session.bureau_id tables' ≡ others session.bureau_id tables)
retry_ok U job_id session now partner_id material_id tables {material} {tables'} h =
    let (stored, middle, job, after, found, allowed, requeued, queued, e) =
      retry-steps U job_id session now partner_id material_id tables h in
    let (bureau, kept) = Steps-others U (
      next (material_requeued partner_id material_id requeued)
        (next (job_requeued job_id partner_id material_id queued) done)) in
    (
      stored,
      found,
      can_retry-cases stored.material.status allowed,
      requeue-queued (begin_scoped session now tables) partner_id material_id requeued,
      ap (others session.bureau_id) e ∙ kept,
    )
