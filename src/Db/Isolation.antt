-- ===== src/Db/Isolation.antt =====
-- Tenant isolation: the statements that write, as steps of a transaction, and what all of them keep.
pub mod Kept
pub mod Unique
use otdel.Prelude.{
  ℕ, ◌≡◌, refl, ap, ◌∙◌, Bool, true, not, Option, List, [], ◌∷◌, ◌++◌, append-nil, arith, ◌==◌,
  ==_refl, filter, ok,
}
use otdel.Prelude.Text.{Text}
use otdel.Core.Model
use otdel.Core.Model.{Partner, Material, Job}
use otdel.Db.DbError.{DbError}
use otdel.Db.Jobs
use otdel.Db.Jobs.{set_jobs}
use otdel.Db.Jobs.Queue.{same_key}
use otdel.Db.Materials
use otdel.Db.Materials.{NewMaterial, InsertOutcome, set_materials}
use otdel.Db.Partners
use otdel.Db.Partners.{PartnerPatch, set_partners}
use otdel.Db.Query.{update_where, IsUnique}
use otdel.Db.Query.Found.{
  filter-update_where, filter-append, IsUnique-append, IsUnique-update_where,
}
use otdel.Db.Rows.{PartnerRow, MaterialRow, JobRow, Tables, ScopedTx}
use otdel.Storage.Uuid.{Uuid, UuidText}

-- A statement that returns, with the transaction before and after it.
pub data Step (U : UuidText) (tx after : ScopedTx) : Type 0 where
  partner_created :
      (id : Uuid) (name : Text) (note : Option Text) {out : Partner}
      → Partners.create id tx name note ≡ ok (out, after)
      → Step U tx after
  partner_updated :
      (id : Uuid) (patch : PartnerPatch) {out : Option Partner}
      → Partners.update tx id patch ≡ ok (out, after)
      → Step U tx after
  material_inserted :
      (id : Uuid) (m : NewMaterial) {out : InsertOutcome}
      → Materials.insert id tx m ≡ ok (out, after)
      → Step U tx after
  material_requeued :
      (partner_id material_id : Uuid) {out : Option Material}
      → Materials.requeue tx partner_id material_id ≡ ok (out, after)
      → Step U tx after
  job_enqueued :
      (id partner_id material_id : Uuid) {out : Job}
      → Jobs.enqueue_extraction U id tx partner_id material_id ≡ ok (out, after)
      → Step U tx after
  job_requeued :
      (id partner_id material_id : Uuid) {out : Job}
      → Jobs.requeue_extraction U id tx partner_id material_id ≡ ok (out, after)
      → Step U tx after
  leases_reclaimed : {n : ℕ} → Jobs.reclaim_expired_leases tx ≡ (n, after) → Step U tx after

pub data Steps (U : UuidText) : ScopedTx → ScopedTx → Type 0 where
  done : {tx : ScopedTx} → Steps U tx tx
  next : {tx middle after : ScopedTx} → Step U tx middle → Steps U middle after → Steps U tx after

-- The rows of all other bureaus.
unfoldable pub others : Uuid → Tables → Tables
others b t = record {
  partners = filter t.partners (λ row. not (row.bureau_id == b));
  materials = filter t.materials (λ row. not (row.bureau_id == b));
  jobs = filter t.jobs (λ row. not (row.bureau_id == b));
}

-- What each statement keeps: the bureau of the transaction and the rows of all others.
unfoldable pub IsKept : ScopedTx → ScopedTx → Type 0
IsKept tx after =
    (after.bureau_id ≡ tx.bureau_id)
    × (others tx.bureau_id after.tables ≡ others tx.bureau_id tx.tables)

-- A new row of this bureau, or a change of rows of this bureau that stay in it.
module _ {Row : Type 0} (bureau_of : Row → Uuid) (b : Uuid) where
  abbrev pub foreign : Row → Bool
  foreign row = not (bureau_of row == b)

  pub filter-new :
      (rows : List Row) (row : Row)
      → bureau_of row ≡ b
      → filter (rows ++ (row ∷ [])) foreign ≡ filter rows foreign
  filter-new rows row h =
      ground
        (arith, filter-append foreign rows (row ∷ []), append-nil (filter rows foreign), ==_refl b)

  pub filter-changed :
      (p : Row → Bool) (f : Row → Row) (rows : List Row)
      → ((row : Row) → p row ≡ true → (bureau_of row == b) ≡ true)
      → ((row : Row) → bureau_of (f row) ≡ bureau_of row)
      → filter (update_where p f rows) foreign ≡ filter rows foreign
  filter-changed p f rows own same =
      filter-update_where p foreign f rows (λ row h. ap not (own row h))
        (λ row h. ap (λ c. not (c == b)) (same row) ∙ ap not (own row h))

module _ (tx : ScopedTx) where
  pub set_partners-IsKept :
      (rows : List PartnerRow)
      → filter rows (foreign (λ (row : PartnerRow). row.bureau_id) tx.bureau_id)
        ≡ filter tx.tables.partners (foreign (λ (row : PartnerRow). row.bureau_id) tx.bureau_id)
      → IsKept tx (set_partners tx rows)
  unfolding IsKept others
  set_partners-IsKept rows e =
      (refl, λ i. record (others tx.bureau_id tx.tables) { partners = e i })

  pub set_materials-IsKept :
      (rows : List MaterialRow)
      → filter rows (foreign (λ (row : MaterialRow). row.bureau_id) tx.bureau_id)
        ≡ filter tx.tables.materials (foreign (λ (row : MaterialRow). row.bureau_id) tx.bureau_id)
      → IsKept tx (set_materials tx rows)
  unfolding IsKept others
  set_materials-IsKept rows e =
      (refl, λ i. record (others tx.bureau_id tx.tables) { materials = e i })

  pub set_jobs-IsKept :
      (rows : List JobRow)
      → filter rows (foreign (λ (row : JobRow). row.bureau_id) tx.bureau_id)
        ≡ filter tx.tables.jobs (foreign (λ (row : JobRow). row.bureau_id) tx.bureau_id)
      → IsKept tx (set_jobs tx rows)
  unfolding IsKept others
  set_jobs-IsKept rows e = (refl, λ i. record (others tx.bureau_id tx.tables) { jobs = e i })

  pub tx-IsKept : IsKept tx tx
  unfolding IsKept
  tx-IsKept = (refl, refl)
