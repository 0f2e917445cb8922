-- ===== src/Db/Isolation/Kept.antt =====
-- Each statement keeps the rows of other bureaus, and so does every sequence of them; the unique
-- constraints that the tables promise hold along it.
use otdel.Prelude.{
  ◌≡◌, refl, ap, ◌∙◌, subst, ◌⊎◌, inl, inr, Option, none, some, [], ◌∷◌, ◌++◌, arith, Option-cases,
  find?, ok, >>=-passed, >>=-state,
}
use otdel.Prelude.Text.{Text}
use otdel.Core.Model.{Partner, Material, Job, extract_document, extraction_idempotency_key}
use otdel.Db.Isolation.{
  Step, partner_created, partner_updated, material_inserted, material_requeued, job_enqueued,
  job_requeued, leases_reclaimed, Steps, done, next, others, IsKept, filter-new, filter-changed,
  set_partners-IsKept, set_materials-IsKept, set_jobs-IsKept, tx-IsKept,
}
use otdel.Db.Jobs
use otdel.Db.Jobs.{set_jobs, is_job, new_job, has_expired_lease, reclaimed}
use otdel.Db.Jobs.Queue.{enqueue_row-cases, requeue_extraction-steps}
use otdel.Db.Materials
use otdel.Db.Materials.{
  NewMaterial, InsertOutcome, set_materials, is_material, new_row, insert_row, insert_outcome,
}
use otdel.Db.Partners
use otdel.Db.Partners.{PartnerPatch, set_partners, is_partner, patched}
use otdel.Db.Query.{update_where, transpose}
use otdel.Db.Rows.{
  PartnerRow, MaterialRow, JobRow, ScopedTx, partner_from_row, material_from_row, job_from_row,
}
use otdel.Storage.Uuid.{Uuid, UuidText}

pub create-form :
    (id : Uuid) (tx : ScopedTx) (name : Text) (note : Option Text) {out : Partner}
    {after : ScopedTx}
    → Partners.create id tx name note ≡ ok (out, after)
    → (row : PartnerRow) × (row.bureau_id ≡ tx.bureau_id)
      × (after ≡ set_partners tx (tx.tables.partners ++ (row ∷ [])))
unfolding Partners.create partner_from_row
create-form id tx name note {out} {after} h = (
  record {
    bureau_id = tx.bureau_id;
    id = id;
    name = name;
    note = note;
    created_at = tx.now;
    updated_at = tx.now;
  },
  refl,
  ground arith,
)

pub update-form :
    (tx : ScopedTx) (id : Uuid) (patch : PartnerPatch) {out : Option Partner} {after : ScopedTx}
    → Partners.update tx id patch ≡ ok (out, after)
    → (after ≡ tx)
      ⊎ (after
          ≡ set_partners tx
              (update_where (is_partner tx.bureau_id id) (patched tx patch) tx.tables.partners))
unfolding Partners.update partner_from_row
update-form tx id patch {out} {after} h =
    elim (Option-cases (find? tx.tables.partners (is_partner tx.bureau_id id))) [
      | inl e ↦ inl (ground arith)
      | inr (row, e) ↦ inr (ground arith)
    ]

pub insert_row-form :
    (id : Uuid) (tx : ScopedTx) (m : NewMaterial) (row : Option MaterialRow) {after : ScopedTx}
    → insert_row id tx m ≡ ok (row, after)
    → (after ≡ tx) ⊎ (after ≡ set_materials tx (tx.tables.materials ++ (new_row id tx m ∷ [])))
unfolding insert_row
insert_row-form id tx m none {after} h = inl (ground arith)
insert_row-form id tx m (some row) {after} h = inr (ground arith)

pub requeue-form :
    (tx : ScopedTx) (partner_id material_id : Uuid) {out : Option Material} {after : ScopedTx}
    → Materials.requeue tx partner_id material_id ≡ ok (out, after)
    → after
      ≡ set_materials tx (
          update_where
            (is_material tx.bureau_id partner_id material_id)
            (Materials.requeued tx)
            tx.tables.materials)
unfolding Materials.requeue
requeue-form tx partner_id material_id {out} {after} h =
    let (found, e, g) =
      >>=-passed
        (transpose (λ (row : MaterialRow). material_from_row (Materials.requeued tx row))
          (find? tx.tables.materials (is_material tx.bureau_id partner_id material_id)))
        _ h in
    ground (arith, g)

-- A row that is added, or rows that are changed, in a table of this bureau.
module _ (tx : ScopedTx) where
  partner_added :
      (row : PartnerRow)
      → row.bureau_id ≡ tx.bureau_id
      → IsKept tx (set_partners tx (tx.tables.partners ++ (row ∷ [])))
  partner_added row h =
      set_partners-IsKept tx (tx.tables.partners ++ (row ∷ []))
        (filter-new (λ (r : PartnerRow). r.bureau_id) tx.bureau_id tx.tables.partners row h)

  partner_changed :
      (id : Uuid) (patch : PartnerPatch)
      → IsKept tx (
          set_partners tx
            (update_where (is_partner tx.bureau_id id) (patched tx patch) tx.tables.partners))
  unfolding patched
  partner_changed id patch =
      set_partners-IsKept tx
        (update_where (is_partner tx.bureau_id id) (patched tx patch) tx.tables.partners)
        (filter-changed (λ (r : PartnerRow). r.bureau_id) tx.bureau_id (is_partner tx.bureau_id id)
          (patched tx patch) tx.tables.partners (λ row h. ground arith) (λ row. refl))

  material_added :
      (id : Uuid) (m : NewMaterial)
      → IsKept tx (set_materials tx (tx.tables.materials ++ (new_row id tx m ∷ [])))
  unfolding new_row
  material_added id m = set_materials-IsKept tx (tx.tables.materials ++ (new_row id tx m ∷ [])) (
      filter-new (λ (r : MaterialRow). r.bureau_id) tx.bureau_id tx.tables.materials
        (new_row id tx m) refl)

  material_changed :
      (partner_id material_id : Uuid)
      → IsKept tx (
          set_materials tx (
            update_where
              (is_material tx.bureau_id partner_id material_id)
              (Materials.requeued tx)
              tx.tables.materials))
  unfolding Materials.requeued
  material_changed partner_id material_id =
      let p = is_material tx.bureau_id partner_id material_id in
      set_materials-IsKept tx (update_where p (Materials.requeued tx) tx.tables.materials) (
        filter-changed (λ (r : MaterialRow). r.bureau_id) tx.bureau_id p (Materials.requeued tx)
          tx.tables.materials (λ row h. ground arith) (λ row. refl))

  job_added :
      (U : UuidText) (id partner_id material_id : Uuid)
      → IsKept tx (set_jobs tx (tx.tables.jobs ++ (new_job U id tx partner_id material_id ∷ [])))
  unfolding new_job
  job_added U id partner_id material_id =
      let row = new_job U id tx partner_id material_id in
      set_jobs-IsKept tx (tx.tables.jobs ++ (row ∷ []))
        (filter-new (λ (r : JobRow). r.bureau_id) tx.bureau_id tx.tables.jobs row refl)

  job_changed :
      (partner_id material_id : Uuid) (key : Text)
      → IsKept tx (
          set_jobs tx (
            update_where
              (is_job tx.bureau_id partner_id material_id key)
              (Jobs.requeued tx)
              tx.tables.jobs))
  unfolding Jobs.requeued
  job_changed partner_id material_id key =
      let p = is_job tx.bureau_id partner_id material_id key in
      set_jobs-IsKept tx (update_where p (Jobs.requeued tx) tx.tables.jobs) (
        filter-changed (λ (r : JobRow). r.bureau_id) tx.bureau_id p (Jobs.requeued tx)
          tx.tables.jobs (λ row h. ground arith) (λ row. refl))

  leases_changed : IsKept tx (Jobs.reclaim_expired_leases tx).1
  unfolding Jobs.reclaim_expired_leases has_expired_lease reclaimed
  leases_changed =
      set_jobs-IsKept tx (update_where (has_expired_lease tx) (reclaimed tx) tx.tables.jobs) (
        filter-changed (λ (r : JobRow). r.bureau_id) tx.bureau_id (has_expired_lease tx)
          (reclaimed tx) tx.tables.jobs (λ row h. ground arith) (λ row. refl))

  enqueue-IsKept :
      (U : UuidText) (id partner_id material_id : Uuid) {out : Job} {after : ScopedTx}
      → Jobs.enqueue_extraction U id tx partner_id material_id ≡ ok (out, after)
      → IsKept tx after
  unfolding Jobs.enqueue_extraction
  enqueue-IsKept U id partner_id material_id {out} {after} h =
      let (row, first, second) =
        >>=-state (Jobs.enqueue_row U id tx partner_id material_id) (λ s r. job_from_row r) h in
      elim (enqueue_row-cases U id tx partner_id material_id first) [
        | inl e ↦ rw e (tx-IsKept tx)
        | inr (fresh, e) ↦ rw e (job_added U id partner_id material_id)
      ]

  requeue_job-IsKept :
      (U : UuidText) (id partner_id material_id : Uuid) {out : Job} {after : ScopedTx}
      → Jobs.requeue_extraction U id tx partner_id material_id ≡ ok (out, after)
      → IsKept tx after
  unfolding Jobs.requeue_extraction
  requeue_job-IsKept U id partner_id material_id {out} {after} h =
      let key = extraction_idempotency_key U material_id extract_document in
      elim (Option-cases (find? tx.tables.jobs (is_job tx.bureau_id partner_id material_id key))) [
        | inl e ↦ enqueue-IsKept U id partner_id material_id {out = out} (ground arith)
        | inr (old, e) ↦
            rw ((requeue_extraction-steps U id tx partner_id material_id e h).1)
              (job_changed partner_id material_id key)
      ]

  insert-IsKept :
      (id : Uuid) (m : NewMaterial) {out : InsertOutcome} {after : ScopedTx}
      → Materials.insert id tx m ≡ ok (out, after)
      → IsKept tx after
  unfolding Materials.insert
  insert-IsKept id m {out} {after} h =
      let (row, first, second) = >>=-state (insert_row id tx m) (λ s r. insert_outcome s m r) h in
      elim (insert_row-form id tx m row first) [
        | inl e ↦ rw e (tx-IsKept tx)
        | inr e ↦ rw e (material_added id m)
      ]

  -- A statement changes no row of another bureau.
  Step-IsKept : (U : UuidText) {after : ScopedTx} → Step U tx after → IsKept tx after
  Step-IsKept U (partner_created id name note h) =
      let (row, own, e) = create-form id tx name note h in rw e (partner_added row own)
  Step-IsKept U (partner_updated id patch h) = elim (update-form tx id patch h) [
    | inl e ↦ rw e (tx-IsKept tx)
    | inr e ↦ rw e (partner_changed id patch)
  ]
  Step-IsKept U (material_inserted id m h) = insert-IsKept id m h
  Step-IsKept U (material_requeued partner_id material_id h) =
      rw (requeue-form tx partner_id material_id h) (material_changed partner_id material_id)
  Step-IsKept U (job_enqueued id partner_id material_id h) =
      enqueue-IsKept U id partner_id material_id h
  Step-IsKept U (job_requeued id partner_id material_id h) =
      requeue_job-IsKept U id partner_id material_id h
  Step-IsKept U (leases_reclaimed h) = subst (IsKept tx) (ap (λ r. r.1) h) leases_changed

-- Whatever statements a transaction runs, in any order, it stays in its bureau and the partners,
-- materials and jobs of all other bureaus are those from before.
pub Steps-others :
    (U : UuidText) {tx after : ScopedTx}
    → Steps U tx after
    → (after.bureau_id ≡ tx.bureau_id)
      × (others tx.bureau_id after.tables ≡ others tx.bureau_id tx.tables)
unfolding IsKept
Steps-others U done = (refl, refl)
Steps-others U (next {tx} {middle} {after} step steps) =
    let (b, e) = Step-IsKept tx U step in
    let (b', e') = Steps-others U steps in
    (b' ∙ b, subst (λ c. others c after.tables ≡ others c middle.tables) b e' ∙ e)
