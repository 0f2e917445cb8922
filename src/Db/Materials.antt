-- ===== src/Db/Materials.antt =====
-- crates/otdel-db/src/materials.rs: the repository of materials.
pub mod Duplicates
use otdel.Prelude.{
  ℕ, Bool, ◌&&◌, not, Option, none, some, List, [], ◌∷◌, ◌++◌, ltb, leb, ◌==◌, if◌then◌else◌,
  length, any, filter, find?, Result, ok, err, ◌>>=◌, ok_or, lit,
}
use otdel.Prelude.Text.{Text, codes, text_eq}
use otdel.Core.Media
use otdel.Core.Media.{MediaType}
use otdel.Core.Model
use otdel.Core.Model.{Material}
use otdel.Db.DbError.{
  DbError, decode, check_violation, foreign_key_violation, primary_key_violation,
}
use otdel.Db.Partners
use otdel.Db.Query.{update_where, order_by, collect, transpose}
use otdel.Db.Rows.{MaterialRow, Tables, ScopedTx, material_from_row, newer}
use otdel.Storage.Key.{is_sha256_hex}
use otdel.Storage.Uuid.{Uuid}

pub record StoredMaterial : Type 0 where
  pub material : Material
  pub storage_key : Text

pub record NewMaterial : Type 0 where
  pub partner_id : Uuid
  pub filename : Text
  pub media_type : Text
  pub size_bytes : ℕ
  pub sha256 : Text
  pub storage_key : Text

pub data InsertOutcome : Type 0 where
  created duplicate : Material → InsertOutcome

-- The material of an outcome, new or not.
abbrev pub material_of : InsertOutcome → Material
material_of (created m) = m
material_of (duplicate m) = m

abbrev pub set_materials : ScopedTx → List MaterialRow → ScopedTx
set_materials tx rows = record tx { tables = record tx.tables { materials = rows } }

unfoldable pub list_for_partner : ScopedTx → Uuid → Result (List Material) DbError
unfolding material_from_row order_by
list_for_partner tx partner_id = collect material_from_row (
    order_by (λ a b. newer a.created_at a.id b.created_at b.id)
      (filter tx.tables.materials
        (λ row. (row.bureau_id == tx.bureau_id) && (row.partner_id == partner_id))))

-- WHERE bureau_id = $1 AND partner_id = $2 AND sha256 = $3
abbrev pub has_digest : Uuid → Uuid → Text → MaterialRow → Bool
has_digest bureau_id partner_id sha256 row =
    (row.bureau_id == bureau_id) && (row.partner_id == partner_id) && text_eq row.sha256 sha256

unfoldable pub find_by_digest : ScopedTx → Uuid → Text → Result (Option Material) DbError
unfolding material_from_row
find_by_digest tx partner_id sha256 =
    transpose material_from_row
      (find? tx.tables.materials (has_digest tx.bureau_id partner_id sha256))

-- WHERE bureau_id = $1 AND partner_id = $2 AND id = $3
abbrev pub is_material : Uuid → Uuid → Uuid → MaterialRow → Bool
is_material bureau_id partner_id material_id row =
    (row.bureau_id == bureau_id) && (row.partner_id == partner_id) && (row.id == material_id)

unfoldable pub get_in_partner : ScopedTx → Uuid → Uuid → Result (Option StoredMaterial) DbError
unfolding material_from_row
get_in_partner tx partner_id material_id =
    elim (find? tx.tables.materials (is_material tx.bureau_id partner_id material_id)) [
      | none ↦ ok none
      | some row ↦ material_from_row row >>= λ material.
          ok (some record { material = material; storage_key = row.storage_key })
    ]

-- The CHECK constraints of the table on the inserted values.
unfoldable pub check_material : NewMaterial → Bool
unfolding Media.as_str is_sha256_hex
check_material m =
    leb 1 (length m.filename)
    && leb (length m.filename) 200
    && any Media.accepted (λ accepted. text_eq m.media_type (Media.as_str accepted))
    && ltb 0 m.size_bytes
    && is_sha256_hex m.sha256
    && leb 1 (length m.storage_key)
    && leb (length m.storage_key) 512

unfoldable pub new_row : Uuid → ScopedTx → NewMaterial → MaterialRow
new_row new_id tx m = record {
  bureau_id = tx.bureau_id;
  id = new_id;
  partner_id = m.partner_id;
  filename = m.filename;
  media_type = m.media_type;
  size_bytes = m.size_bytes;
  sha256 = m.sha256;
  storage_key = m.storage_key;
  status = codes "queued";
  page_count = none;
  error = none;
  created_at = tx.now;
  updated_at = tx.now;
}

-- INSERT … ON CONFLICT (partner_id, sha256) DO NOTHING RETURNING …: the conflict is with any row,
-- of this bureau or not. `new_id` is what gen_random_uuid() gives.
unfoldable pub insert_row :
    Uuid → ScopedTx → NewMaterial → Result (Option MaterialRow × ScopedTx) DbError
unfolding check_material new_row Partners.exists
insert_row new_id tx m =
    if not (check_material m)
    then err check_violation
    else if any tx.tables.materials
        (λ row. (row.partner_id == m.partner_id) && text_eq row.sha256 m.sha256)
    then ok (none, tx)
    else if any tx.tables.materials (λ row. row.id == new_id)
    then err (primary_key_violation (codes "materials_pkey"))
    else if not (Partners.exists tx m.partner_id)
    then err foreign_key_violation
    else ok (
      some (new_row new_id tx m),
      set_materials tx (tx.tables.materials ++ (new_row new_id tx m ∷ [])),
    )

-- The row of the insertion, or the one that was there first.
unfoldable pub insert_outcome :
    ScopedTx → NewMaterial → Option MaterialRow → Result InsertOutcome DbError
unfolding material_from_row find_by_digest
insert_outcome tx m (some row) = material_from_row row >>= λ material. ok (created material)
insert_outcome tx m none = find_by_digest tx m.partner_id m.sha256 >>= λ found.
    ok_or found
      (decode (lit "insert reported a duplicate but the existing material is not visible" ∷ []))
    >>= λ existing. ok (duplicate existing)

unfoldable pub insert : Uuid → ScopedTx → NewMaterial → Result (InsertOutcome × ScopedTx) DbError
unfolding insert_row insert_outcome
insert new_id tx m = insert_row new_id tx m >>= λ inserted.
    insert_outcome inserted.1 m inserted.0 >>= λ outcome. ok (outcome, inserted.1)

-- SET status = 'queued', error = NULL, updated_at = now()
unfoldable pub requeued : ScopedTx → MaterialRow → MaterialRow
requeued tx row = record row { status = codes "queued"; error = none; updated_at = tx.now }

unfoldable pub requeue : ScopedTx → Uuid → Uuid → Result (Option Material × ScopedTx) DbError
unfolding requeued material_from_row
requeue tx partner_id material_id =
    let chosen = is_material tx.bureau_id partner_id material_id in
    transpose (λ row. material_from_row (requeued tx row)) (find? tx.tables.materials chosen)
    >>= λ material.
        ok (material, set_materials tx (update_where chosen (requeued tx) tx.tables.materials))
