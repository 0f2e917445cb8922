-- ===== src/Db/Isolation/Unique.antt =====
-- The unique constraints of the tables along every sequence of statements.
use otdel.Prelude.{
  ℕ, ◌≡◌, refl, sym, subst, inl, inr, Bool, ◌&&◌, Option, none, some, arith, ◌==◌, Option-cases,
  find?, ok, >>=-state,
}
use otdel.Prelude.Text.{text_eq}
use otdel.Core.Model.{Material, Job, extract_document, extraction_idempotency_key}
use otdel.Db.Isolation.{
  Step, partner_created, partner_updated, material_inserted, material_requeued, job_enqueued,
  job_requeued, leases_reclaimed, Steps, done, next,
}
use otdel.Db.Isolation.Kept.{create-form, update-form, requeue-form}
use otdel.Db.Jobs
use otdel.Db.Jobs.{set_jobs, is_job, has_expired_lease, reclaimed}
use otdel.Db.Jobs.Queue.{
  same_key, enqueue_extraction-cases, enqueue_extraction-IsUnique, requeue_extraction-steps,
}
use otdel.Db.Materials
use otdel.Db.Materials.{
  NewMaterial, InsertOutcome, set_materials, is_material, new_row, insert_row, insert_outcome,
}
use otdel.Db.Materials.Duplicates.{insert_row-some, insert_row-none}
use otdel.Db.Query.{IsUnique}
use otdel.Db.Query.Found.{IsUnique-append, IsUnique-update_where}
use otdel.Db.Rows.{MaterialRow, Tables, ScopedTx}
use otdel.Storage.Uuid.{Uuid, UuidText}

-- The constraint UNIQUE (partner_id, sha256).
abbrev pub same_digest : MaterialRow → MaterialRow → Bool
same_digest a b = (a.partner_id == b.partner_id) && text_eq a.sha256 b.sha256

-- One material for each content of a partner, one job for each key of a bureau.
abbrev pub IsConsistent : Tables → Type 0
IsConsistent t = IsUnique same_digest t.materials × IsUnique same_key t.jobs

module _ (tx : ScopedTx) where
  insert_row-IsUnique :
      (id : Uuid) (m : NewMaterial) (row : Option MaterialRow) {after : ScopedTx}
      → insert_row id tx m ≡ ok (row, after)
      → IsConsistent tx.tables
      → IsConsistent after.tables
  unfolding new_row
  insert_row-IsUnique id m none {after} h u =
      let (found, e) = insert_row-none id tx m h in
      subst (λ (t : ScopedTx). IsConsistent t.tables) (sym e) u
  insert_row-IsUnique id m (some row) {after} h u =
      let (fresh, own, e) = insert_row-some id tx m h in
      subst (λ (t : ScopedTx). IsConsistent t.tables) (sym e)
        (IsUnique-append same_digest tx.tables.materials (new_row id tx m) u.0 fresh, u.1)

  insert-IsUnique :
      (id : Uuid) (m : NewMaterial) {out : InsertOutcome} {after : ScopedTx}
      → Materials.insert id tx m ≡ ok (out, after)
      → IsConsistent tx.tables
      → IsConsistent after.tables
  unfolding Materials.insert
  insert-IsUnique id m {out} {after} h u =
      let (row, first, second) = >>=-state (insert_row id tx m) (λ s r. insert_outcome s m r) h in
      insert_row-IsUnique id m row first u

  requeue-IsUnique :
      (partner_id material_id : Uuid) {out : Option Material} {after : ScopedTx}
      → Materials.requeue tx partner_id material_id ≡ ok (out, after)
      → IsConsistent tx.tables
      → IsConsistent after.tables
  unfolding Materials.requeued
  requeue-IsUnique partner_id material_id {out} {after} h u =
      subst (λ (t : ScopedTx). IsConsistent t.tables)
        (sym (requeue-form tx partner_id material_id h))
        (
          IsUnique-update_where same_digest (is_material tx.bureau_id partner_id material_id)
              (Materials.requeued tx) tx.tables.materials (λ x. refl) (λ x y. refl) u.0,
          u.1,
        )

  enqueue-IsUnique :
      (U : UuidText) (id partner_id material_id : Uuid) {out : Job} {after : ScopedTx}
      → Jobs.enqueue_extraction U id tx partner_id material_id ≡ ok (out, after)
      → IsConsistent tx.tables
      → IsConsistent after.tables
  enqueue-IsUnique U id partner_id material_id {out} {after} h u =
      let (rows, e) = enqueue_extraction-cases U id tx partner_id material_id h in
      (
        subst (λ (t : ScopedTx). IsUnique same_digest t.tables.materials) (sym e) u.0,
        enqueue_extraction-IsUnique U id tx partner_id material_id h u.1,
      )

  job_requeue-IsUnique :
      (U : UuidText) (id partner_id material_id : Uuid) {out : Job} {after : ScopedTx}
      → Jobs.requeue_extraction U id tx partner_id material_id ≡ ok (out, after)
      → IsConsistent tx.tables
      → IsConsistent after.tables
  unfolding Jobs.requeue_extraction Jobs.requeued
  job_requeue-IsUnique U id partner_id material_id {out} {after} h u =
      let key = extraction_idempotency_key U material_id extract_document in
      elim (Option-cases (find? tx.tables.jobs (is_job tx.bureau_id partner_id material_id key))) [
        | inl e ↦
            enqueue-IsUnique U id partner_id material_id {out = out} {after = after} (ground arith)
              u
        | inr (old, e) ↦
            subst (λ (t : ScopedTx). IsConsistent t.tables)
              (sym ((requeue_extraction-steps U id tx partner_id material_id e h).1))
              (
                u.0,
                IsUnique-update_where same_key (is_job tx.bureau_id partner_id material_id key)
                    (Jobs.requeued tx) tx.tables.jobs (λ x. refl) (λ x y. refl) u.1,
              )
      ]

  reclaim-IsUnique : IsConsistent tx.tables → IsConsistent (Jobs.reclaim_expired_leases tx).1.tables
  unfolding Jobs.reclaim_expired_leases reclaimed
  reclaim-IsUnique u = (
    u.0,
    IsUnique-update_where same_key (has_expired_lease tx) (reclaimed tx) tx.tables.jobs (λ x. refl)
        (λ x y. refl) u.1,
  )

  Step-IsUnique :
      (U : UuidText) {after : ScopedTx}
      → Step U tx after
      → IsConsistent tx.tables
      → IsConsistent after.tables
  Step-IsUnique U (partner_created id name note h) u =
      let (row, own, e) = create-form id tx name note h in
      subst (λ (t : ScopedTx). IsConsistent t.tables) (sym e) u
  Step-IsUnique U (partner_updated id patch h) u = elim (update-form tx id patch h) [
    | inl e ↦ subst (λ (t : ScopedTx). IsConsistent t.tables) (sym e) u
    | inr e ↦ subst (λ (t : ScopedTx). IsConsistent t.tables) (sym e) u
  ]
  Step-IsUnique U (material_inserted id m h) u = insert-IsUnique id m h u
  Step-IsUnique U (material_requeued partner_id material_id h) u =
      requeue-IsUnique partner_id material_id h u
  Step-IsUnique U (job_enqueued id partner_id material_id h) u =
      enqueue-IsUnique U id partner_id material_id h u
  Step-IsUnique U (job_requeued id partner_id material_id h) u =
      job_requeue-IsUnique U id partner_id material_id h u
  Step-IsUnique U (leases_reclaimed h) u =
      subst (λ (r : ℕ × ScopedTx). IsConsistent r.1.tables) h (reclaim-IsUnique u)

-- Whatever statements a transaction runs, in any order, no two materials have one partner and one
-- digest and no two jobs one bureau and one key, if that held before.
pub Steps-IsConsistent :
    (U : UuidText) {tx after : ScopedTx}
    → Steps U tx after
    → IsConsistent tx.tables
    → IsConsistent after.tables
Steps-IsConsistent U done u = u
Steps-IsConsistent U (next {tx} {middle} {after} step steps) u =
    Steps-IsConsistent U steps (Step-IsUnique tx U step u)
