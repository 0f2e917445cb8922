-- ===== src/Db/Materials/Duplicates.antt =====
-- Deduplication of materials: what an insertion leaves, and a second one with the same digest.
use otdel.Prelude.{
  ◌≡◌, inl, inr, Bool, true, false, ◌&&◌, Option, none, some, [], ◌∷◌, ◌++◌, arith, ◌==◌, ==_refl,
  Bool-cases, Option-cases, any, find?, ok, >>=-passed, >>=-state,
}
use otdel.Prelude.Text.{Text, text_eq, text_eq_refl}
use otdel.Core.Model.{Material}
use otdel.Db.Materials.{
  NewMaterial, InsertOutcome, created, duplicate, material_of, set_materials, has_digest,
  find_by_digest, new_row, insert_row, insert_outcome, insert, check_material,
}
use otdel.Db.Query.Found.{find?-append, any-narrower, find?_of_any}
use otdel.Db.Rows.{MaterialRow, ScopedTx, material_from_row}
use otdel.Storage.Uuid.{Uuid}

-- The unique constraint (partner_id, sha256) against a new row.
abbrev pub conflicts : NewMaterial → MaterialRow → Bool
conflicts m row = (row.partner_id == m.partner_id) && text_eq row.sha256 m.sha256

has_digest-conflicts :
    (b : Uuid) (m : NewMaterial) (row : MaterialRow)
    → has_digest b m.partner_id m.sha256 row ≡ true
    → conflicts m row ≡ true
has_digest-conflicts b m row h = ground arith

-- An insertion gives a row only if none had the digest, and the row is then at the end.
pub insert_row-some :
    (new_id : Uuid) (tx : ScopedTx) (m : NewMaterial) {row : MaterialRow} {after : ScopedTx}
    → insert_row new_id tx m ≡ ok (some row, after)
    → (any tx.tables.materials (conflicts m) ≡ false)
      × (row ≡ new_row new_id tx m)
      × (after ≡ set_materials tx (tx.tables.materials ++ (new_row new_id tx m ∷ [])))
unfolding insert_row
insert_row-some new_id tx m {row} {after} h = ground arith

pub insert_row-none :
    (new_id : Uuid) (tx : ScopedTx) (m : NewMaterial) {after : ScopedTx}
    → insert_row new_id tx m ≡ ok (none, after)
    → (any tx.tables.materials (conflicts m) ≡ true) × (after ≡ tx)
unfolding insert_row
insert_row-none new_id tx m {after} h = ground arith

has_digest-new_row :
    (new_id : Uuid) (tx : ScopedTx) (m : NewMaterial)
    → has_digest tx.bureau_id m.partner_id m.sha256 (new_row new_id tx m) ≡ true
unfolding new_row
has_digest-new_row new_id tx m =
    ground (arith, ==_refl tx.bureau_id, ==_refl m.partner_id, text_eq_refl m.sha256)

-- The new row is the one that the digest finds.
find?-new_row :
    (new_id : Uuid) (tx : ScopedTx) (m : NewMaterial)
    → any tx.tables.materials (conflicts m) ≡ false
    → find?
        (tx.tables.materials ++ (new_row new_id tx m ∷ []))
        (has_digest tx.bureau_id m.partner_id m.sha256)
      ≡ some (new_row new_id tx m)
find?-new_row new_id tx m h =
    let p = has_digest tx.bureau_id m.partner_id m.sha256 in
    rw (
      find?-append p tx.tables.materials (new_row new_id tx m ∷ []) (
          any-narrower (conflicts m) p tx.tables.materials (has_digest-conflicts tx.bureau_id m) h),
      has_digest-new_row new_id tx m,
    )

transpose_of_find :
    (tx : ScopedTx) (partner_id : Uuid) (sha256 : Text) {row : MaterialRow} {material : Material}
    → find? tx.tables.materials (has_digest tx.bureau_id partner_id sha256) ≡ some row
    → material_from_row row ≡ ok material
    → find_by_digest tx partner_id sha256 ≡ ok (some material)
unfolding find_by_digest
transpose_of_find tx partner_id sha256 {row} {material} h g = rw (h, g)

outcome-created :
    (tx : ScopedTx) (m : NewMaterial) (row : MaterialRow) {outcome : InsertOutcome}
    → insert_outcome tx m (some row) ≡ ok outcome
    → (material : Material) × (material_from_row row ≡ ok material) × (outcome ≡ created material)
unfolding insert_outcome
outcome-created tx m row {outcome} h =
    let (material, e, g) = >>=-passed (material_from_row row) _ h in
    (material, e, ground (arith, g))

outcome-duplicate :
    (tx : ScopedTx) (m : NewMaterial) {outcome : InsertOutcome}
    → insert_outcome tx m none ≡ ok outcome
    → (material : Material) × (find_by_digest tx m.partner_id m.sha256 ≡ ok (some material))
      × (outcome ≡ duplicate material)
unfolding insert_outcome
outcome-duplicate tx m {outcome} h =
    let (found, e, g) = >>=-passed (find_by_digest tx m.partner_id m.sha256) _ h in
    elim (Option-cases found) [
      | inl n ↦ absurd (ground (arith, g))
      | inr (material, n) ↦ (material, ground arith, ground (arith, g))
    ]

insert-found :
    (new_id : Uuid) (tx : ScopedTx) (m : NewMaterial) (inserted : Option MaterialRow)
    {outcome : InsertOutcome} {after : ScopedTx}
    → insert_row new_id tx m ≡ ok (inserted, after)
    → insert_outcome after m inserted ≡ ok outcome
    → find_by_digest after m.partner_id m.sha256 ≡ ok (some (material_of outcome))
insert-found new_id tx m none {outcome} {after} first second =
    let (material, found, e) = outcome-duplicate after m second in rw (e, found)
insert-found new_id tx m (some row) {outcome} {after} first second =
    let (fresh, e, s) = insert_row-some new_id tx m first in
    let (material, g, o) = outcome-created after m row second in
    rw (
      o,
      transpose_of_find after m.partner_id m.sha256 (rw (s, e) (find?-new_row new_id tx m fresh)) g,
    )

-- After an insertion that returns a material, new or not, the digest finds this material.
pub insert-find_by_digest :
    (new_id : Uuid) (tx : ScopedTx) (m : NewMaterial) {outcome : InsertOutcome} {after : ScopedTx}
    → insert new_id tx m ≡ ok (outcome, after)
    → find_by_digest after m.partner_id m.sha256 ≡ ok (some (material_of outcome))
unfolding insert
insert-find_by_digest new_id tx m {outcome} {after} h =
    let (inserted, first, second) =
      >>=-state (insert_row new_id tx m) (λ s row. insert_outcome s m row) h in
    insert-found new_id tx m inserted first second

insert_row_again :
    (new_id : Uuid) (tx : ScopedTx) (m : NewMaterial)
    → check_material m ≡ true
    → any tx.tables.materials (conflicts m) ≡ true
    → insert_row new_id tx m ≡ ok (none, tx)
unfolding insert_row
insert_row_again new_id tx m valid h = rw (valid, h)

find_by_digest-conflicts :
    (tx : ScopedTx) (m : NewMaterial) {material : Material}
    → find_by_digest tx m.partner_id m.sha256 ≡ ok (some material)
    → any tx.tables.materials (conflicts m) ≡ true
unfolding find_by_digest
find_by_digest-conflicts tx m {material} h =
    let p = has_digest tx.bureau_id m.partner_id m.sha256 in
    elim (Bool-cases (any tx.tables.materials (conflicts m))) [
      | inl e ↦ e
      | inr e ↦ absurd (
          ground (
            arith,
            find?_of_any p tx.tables.materials (
                any-narrower (conflicts m) p tx.tables.materials
                  (has_digest-conflicts tx.bureau_id m) e),
          ))
    ]

-- An insertion is valid if it returns.
pub insert-check_material :
    (new_id : Uuid) (tx : ScopedTx) (m : NewMaterial) {outcome : InsertOutcome} {after : ScopedTx}
    → insert new_id tx m ≡ ok (outcome, after)
    → check_material m ≡ true
unfolding insert insert_row
insert-check_material new_id tx m {outcome} {after} h =
    let (inserted, first, second) =
      >>=-state (insert_row new_id tx m) (λ s row. insert_outcome s m row) h in
    ground arith

-- Inserting bytes that the digest finds already gives the material that is there.
pub insert_of_found :
    (new_id : Uuid) (tx : ScopedTx) (m : NewMaterial) {material : Material}
    → check_material m ≡ true
    → find_by_digest tx m.partner_id m.sha256 ≡ ok (some material)
    → insert new_id tx m ≡ ok (duplicate material, tx)
unfolding insert insert_outcome
insert_of_found new_id tx m valid found =
    rw (insert_row_again new_id tx m valid (find_by_digest-conflicts tx m found), found)

-- A second upload of the same bytes for the same partner, under any name, inserts nothing and is
-- answered by the material of the first one.
pub insert_again :
    (new_id new_id' : Uuid) (tx : ScopedTx) (m m' : NewMaterial) {outcome : InsertOutcome}
    {after : ScopedTx}
    → insert new_id tx m ≡ ok (outcome, after)
    → check_material m' ≡ true
    → m'.partner_id ≡ m.partner_id
    → m'.sha256 ≡ m.sha256
    → insert new_id' after m' ≡ ok (duplicate (material_of outcome), after)
insert_again new_id new_id' tx m m' {outcome} {after} h valid same_partner same_digest =
    insert_of_found new_id' after m' valid
      (rw (same_partner, same_digest) (insert-find_by_digest new_id tx m h))
