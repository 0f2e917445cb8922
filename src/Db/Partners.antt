-- ===== src/Db/Partners.antt =====
-- crates/otdel-db/src/partners.rs: the repository of partners.
use otdel.Prelude.{
  Bool, true, false, ◌&&◌, not, Option, none, some, List, [], ◌∷◌, ◌++◌, leb, ◌==◌, if◌then◌else◌,
  length, any, filter, find?, Result, ok, err, ◌>>=◌,
}
use otdel.Prelude.Text.{Text, codes, trim_matches}
use otdel.Core.Model.{Partner}
use otdel.Db.DbError.{DbError, check_violation, primary_key_violation}
use otdel.Db.Query.{update_where, order_by, collect, transpose}
use otdel.Db.Rows.{PartnerRow, ScopedTx, partner_from_row, newer}
use otdel.Storage.Uuid.{Uuid}

abbrev pub set_partners : ScopedTx → List PartnerRow → ScopedTx
set_partners tx rows = record tx { tables = record tx.tables { partners = rows } }

-- WHERE bureau_id = $1 AND id = $2
abbrev pub is_partner : Uuid → Uuid → PartnerRow → Bool
is_partner bureau_id partner_id row = (row.bureau_id == bureau_id) && (row.id == partner_id)

unfoldable pub list : ScopedTx → Result (List Partner) DbError
unfolding partner_from_row order_by
list tx = collect partner_from_row (
    order_by (λ a b. newer a.created_at a.id b.created_at b.id)
      (filter tx.tables.partners (λ row. row.bureau_id == tx.bureau_id)))

-- `btrim(name)` of PostgreSQL removes spaces only.
abbrev btrim : Text → Text
btrim = trim_matches (λ c. c == 0x20)

-- The CHECK constraints of the table.
check_partner : Text → Option Text → Bool
unfolding trim_matches
check_partner name note =
    leb 1 (length (btrim name))
    && leb (length (btrim name)) 200
    && elim note [ none ↦ true | some text ↦ leb (length text) 10000 ]

-- `new_id` is what gen_random_uuid() gives.
unfoldable pub create : Uuid → ScopedTx → Text → Option Text → Result (Partner × ScopedTx) DbError
unfolding check_partner partner_from_row
create new_id tx name note =
    let row : PartnerRow = record {
      bureau_id = tx.bureau_id;
      id = new_id;
      name = name;
      note = note;
      created_at = tx.now;
      updated_at = tx.now;
    } in
    if not (check_partner name note)
    then err check_violation
    else if any tx.tables.partners (λ other. other.id == new_id)
    then err (primary_key_violation (codes "partners_pkey"))
    else partner_from_row row >>= λ partner.
        ok (partner, set_partners tx (tx.tables.partners ++ (row ∷ [])))

unfoldable pub get : ScopedTx → Uuid → Result (Option Partner) DbError
unfolding partner_from_row
get tx partner_id =
    transpose partner_from_row (find? tx.tables.partners (is_partner tx.bureau_id partner_id))

-- `PartnerPatch`: what the caller sent; `some none` clears the note.
pub record PartnerPatch : Type 0 where
  pub name : Option Text
  pub note : Option (Option Text)

unfoldable pub is_empty_patch : PartnerPatch → Bool
is_empty_patch patch = elim patch.name [
  | some sent ↦ false
  | none ↦ elim patch.note [ none ↦ true | some sent ↦ false ]
]

-- SET name = COALESCE($3, name), note = CASE WHEN $4 THEN $5 ELSE note END, updated_at = now()
unfoldable pub patched : ScopedTx → PartnerPatch → PartnerRow → PartnerRow
patched tx patch row = record row {
  name = elim patch.name [ none ↦ row.name | some name ↦ name ];
  note = elim patch.note [ none ↦ row.note | some note ↦ note ];
  updated_at = tx.now;
}

unfoldable pub update : ScopedTx → Uuid → PartnerPatch → Result (Option Partner × ScopedTx) DbError
unfolding patched check_partner partner_from_row
update tx partner_id patch = elim (find? tx.tables.partners (is_partner tx.bureau_id partner_id)) [
  | none ↦ ok (none, tx)
  | some row ↦
      let new_row = patched tx patch row in
      if not (check_partner new_row.name new_row.note)
      then err check_violation
      else partner_from_row new_row >>= λ partner. ok (
        some partner,
        set_partners tx (
            update_where (is_partner tx.bureau_id partner_id) (patched tx patch)
              tx.tables.partners),
      )
]

unfoldable pub exists : ScopedTx → Uuid → Bool
exists tx partner_id = any tx.tables.partners (is_partner tx.bureau_id partner_id)
