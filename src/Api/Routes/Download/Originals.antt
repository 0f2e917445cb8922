-- ===== src/Api/Routes/Download/Originals.antt =====
-- What a download sends: a regular file of the store that the session's own tables name.
use otdel.Prelude.{
  ℕ, ◌≡◌, sym, ap, ◌∙◌, subst, inl, inr, Bool, true, some, List, [], ◌∷◌, ◌++◌, arith, Bool-cases,
  Option-cases, length, find?, ◌∈◌, All, Result, ok, err, >>=-passed, ok_or, ok_or-eq_ok,
  map_err-eq_ok, Result-cases,
}
use otdel.Prelude.Text.{split}
use otdel.Core.Model.{DateTime}
use otdel.Api.ApiError.{ApiError}
use otdel.Api.Auth.{Session}
use otdel.Api.Routes.Partners.{begin_scoped, query}
use otdel.Api.ApiError
use otdel.Api.Routes.Materials.{material_not_found}
use otdel.Api.Routes.Download.{Original, respond, recorded_key, find_original, answered, download}
use otdel.Db.Materials
use otdel.Db.Materials.{StoredMaterial, is_material}
use otdel.Db.Query.Found.{find?-passes}
use otdel.Db.Rows.{Tables, MaterialRow, material_from_row}
use otdel.Storage.Disk.{file, Disk, lookup}
use otdel.Storage.Fs.{FilesystemObjectStore}
use otdel.Storage.Fs.Objects.{ObjectBody, open_object}
use otdel.Storage.Fs.Objects.Effects.{open_object-Same, open_object-eq_ok}
use otdel.Storage.Key.{ObjectKey, parse}
use otdel.Storage.Key.Paths.{IsPlain, resolve_within-parse}
use otdel.Storage.StorageError.{StorageError}
use otdel.Storage.Uuid.{Uuid, UuidText}

find?-∈ : {A : Type 0} (p : A → Bool) (xs : List A) {x : A} → find? xs p ≡ some x → x ∈ xs
find?-∈ p [] h = cc
find?-∈ p (y ∷ xs) {x} h = elim (Bool-cases (p y)) [
  | inl this ↦ inl (ground arith)
  | inr not_this ↦ inr (find?-∈ p xs {x = x} (ground arith))
]

-- A row of the bureau and the partner, and the key that it recorded.
record Recorded (U : UuidText) (session : Session) (partner_id material_id : Uuid) (tables : Tables)
    (stored : StoredMaterial) (key : ObjectKey) : Type 0 where
  row : MaterialRow
  held : row ∈ tables.materials
  of_bureau : row.bureau_id ≡ session.bureau_id
  of_partner : row.partner_id ≡ partner_id
  of_id : row.id ≡ material_id
  keyed : parse U row.storage_key ≡ ok key

decoded_key :
    (session : Session) (now : DateTime) (partner_id material_id : Uuid) (tables : Tables)
    (row : MaterialRow) {stored : StoredMaterial}
    → find? tables.materials (is_material session.bureau_id partner_id material_id) ≡ some row
    → Materials.get_in_partner (begin_scoped session now tables) partner_id material_id
      ≡ ok (some stored)
    → stored.storage_key ≡ row.storage_key
unfolding Materials.get_in_partner
decoded_key session now partner_id material_id tables row found h =
    elim (Result-cases (material_from_row row)) [
      | inr (failure, bad) ↦ absurd (ground (arith, found, bad, h))
      | inl (material, good) ↦ ground (arith, found, good, h)
    ]

get_in_partner-row :
    (session : Session) (now : DateTime) (partner_id material_id : Uuid) (tables : Tables)
    {stored : StoredMaterial}
    → Materials.get_in_partner (begin_scoped session now tables) partner_id material_id
      ≡ ok (some stored)
    → (row : MaterialRow) × (row ∈ tables.materials)
      × (is_material session.bureau_id partner_id material_id row ≡ true)
      × (stored.storage_key ≡ row.storage_key)
unfolding Materials.get_in_partner
get_in_partner-row session now partner_id material_id tables {stored} h =
    elim (Option-cases
      (find? tables.materials (is_material session.bureau_id partner_id material_id))) [
        | inl absent ↦ absurd (ground (arith, h, absent))
        | inr (row, found) ↦ (
          row,
          find?-∈ _ tables.materials found,
          find?-passes _ tables.materials found,
          decoded_key session now partner_id material_id tables row found h,
        )
      ]

find_original-Recorded :
    (U : UuidText) (session : Session) (now : DateTime) (partner_id material_id : Uuid)
    (tables : Tables) {stored : StoredMaterial} {key : ObjectKey}
    → find_original U session now partner_id material_id tables ≡ ok (stored, key)
    → Recorded U session partner_id material_id tables stored key
unfolding find_original recorded_key
find_original-Recorded U session now partner_id material_id tables {stored} {key} h =
    let (found, looked, r₁) =
      >>=-passed
        (query (Materials.get_in_partner (begin_scoped session now tables) partner_id material_id))
        _ h in
    let (stored', some_stored, r₂) = >>=-passed (ok_or found material_not_found) _ r₁ in
    let (key', parsed, r₃) = >>=-passed (recorded_key U stored') _ r₂ in
    let looked' : Materials.get_in_partner (begin_scoped session now tables) partner_id material_id
        ≡ ok (some stored') =
      map_err-eq_ok ApiError.from_db_error
        (Materials.get_in_partner (begin_scoped session now tables) partner_id material_id)
        (looked ∙ ap ok (ok_or-eq_ok found material_not_found some_stored)) in
    let (row, held, passes, same) =
      get_in_partner-row session now partner_id material_id tables looked' in
    let key_same : key' ≡ key = ground (arith, r₃) in
    record {
      row = row;
      held = held;
      of_bureau = ground (arith, passes);
      of_partner = ground (arith, passes);
      of_id = ground (arith, passes);
      keyed =
          subst (λ q. parse U q ≡ ok key) same
            (ap (parse U) (ground (arith, r₃))
              ∙ map_err-eq_ok _ (parse U stored'.storage_key) parsed
              ∙ ap ok key_same);
    }

-- What a download that succeeds has sent.
pub record Downloaded (U : UuidText) (store : FilesystemObjectStore) (session : Session)
    (partner_id material_id : Uuid) (tables : Tables) (d : Disk) (original : Original) (d' : Disk)
    : Type 0 where
  pub row : MaterialRow
  pub held : row ∈ tables.materials
  pub of_bureau : row.bureau_id ≡ session.bureau_id
  pub of_partner : row.partner_id ≡ partner_id
  pub of_id : row.id ≡ material_id
  pub four : length (split row.storage_key b'/') ≡ 4
  pub plain : All IsPlain (split row.storage_key b'/')
  pub time : ℕ
  pub sent :
      lookup (store.objects_root ++ split row.storage_key b'/') d.entries
      ≡ some (file original.body time)
  pub unchanged : d'.entries ≡ d.entries

answered-eq_ok :
    (stored : StoredMaterial) (r : Result ObjectBody StorageError × Disk) {original : Original}
    {d' : Disk}
    → answered stored r ≡ (ok original, d')
    → (object : ObjectBody) × (r ≡ (ok object, d')) × (original.body ≡ object.content)
unfolding respond
answered-eq_ok stored (err failure, d) h = absurd (ground (arith, h))
answered-eq_ok stored (ok object, d) {original} {d'} h =
    (object, λ i. (ok object, (h i).1), ground (arith, ap (λ r. r.0) h))

-- A download is what is found in the tables, and then in the store.
pub download_of :
    (U : UuidText) (store : FilesystemObjectStore) (session : Session) (now : DateTime)
    (partner_id material_id : Uuid) (tables : Tables) (d : Disk) {stored : StoredMaterial}
    {key : ObjectKey} {object : ObjectBody} {d' : Disk}
    → find_original U session now partner_id material_id tables ≡ ok (stored, key)
    → open_object store key d ≡ (ok object, d')
    → download U store session now partner_id material_id tables d
      ≡ (ok (respond stored object), d')
unfolding download
download_of U store session now partner_id material_id tables d {stored} found opened =
    rw (found, download) (ap (answered stored) opened)

downloaded :
    (U : UuidText) (store : FilesystemObjectStore) (session : Session) (now : DateTime)
    (partner_id material_id : Uuid) (tables : Tables) (d : Disk) (stored : StoredMaterial)
    (key : ObjectKey) {original : Original} {d' : Disk}
    → find_original U session now partner_id material_id tables ≡ ok (stored, key)
    → answered stored (open_object store key d) ≡ (ok original, d')
    → Downloaded U store session partner_id material_id tables d original d'
downloaded U store session now partner_id material_id tables d stored key {original} {d'} found h =
    let (object, opened, body) = answered-eq_ok stored (open_object store key d) h in
    let r = find_original-Recorded U session now partner_id material_id tables found in
    let (place, time, resolved, there, size) = open_object-eq_ok store key d opened in
    let (where_to, four, plain) =
      resolve_within-parse U r.row.storage_key store.objects_root r.keyed in
    let at : place ≡ store.objects_root ++ split r.row.storage_key b'/' =
      cc (sym resolved ∙ where_to) in
    record {
      row = r.row;
      held = r.held;
      of_bureau = r.of_bureau;
      of_partner = r.of_partner;
      of_id = r.of_id;
      four = four;
      plain = plain;
      time = time;
      sent =
          ap (λ p. lookup p d.entries) (sym at) ∙ there ∙ ap (λ b. some (file b time)) (sym body);
      unchanged = ap (λ r. r.1.entries) (sym opened) ∙ open_object-Same store key d;
    }

-- A download that succeeds sends the bytes of a regular file below the objects directory, at the place
-- that the storage key of a material row names, with four plain segments; the row is of the
-- session's bureau, of the partner and of the id that were asked for; and the tree is unchanged.
pub download_ok :
    (U : UuidText) (store : FilesystemObjectStore) (session : Session) (now : DateTime)
    (partner_id material_id : Uuid) (tables : Tables) (d : Disk) {original : Original} {d' : Disk}
    → download U store session now partner_id material_id tables d ≡ (ok original, d')
    → Downloaded U store session partner_id material_id tables d original d'
unfolding download
download_ok U store session now partner_id material_id tables d {original} {d'} h =
    elim (Result-cases (find_original U session now partner_id material_id tables)) [
      | inr (failure, bad) ↦ absurd (ground (arith, rw (bad, download) at h))
      | inl ((stored, key), found) ↦
          downloaded U store session now partner_id material_id tables d stored key found
            (rw (found, download) at h)
    ]
