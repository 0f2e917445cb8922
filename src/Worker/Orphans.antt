-- ===== src/Worker/Orphans.antt =====
-- The report of orphans against its definition: the listed objects of the bureau to which no material
-- of the bureau refers.
use otdel.Prelude.{
  ℕ, ◌+◌, ◌≡◌, sym, ap, ◌∙◌, subst, inl, inr, Bool, true, false, ◌&&◌, not, Option, none, some,
  List, [], ◌∷◌, arith, ◌==◌, if◌then◌else◌, Bool-cases, Option-cases, length, any, find?, ok, err,
  map_err, >>=-passed, map_err-eq_ok, paired, Result-cases,
}
use otdel.Prelude.Text.{Text}
use otdel.Core.Model.{DateTime, Material}
use otdel.Db.Materials.{find_by_digest, has_digest}
use otdel.Db.Query.{count, transpose}
use otdel.Db.Query.Found.{any_of_find?}
use otdel.Db.Rows.{Tables, ScopedTx, MaterialRow, material_from_row}
use otdel.Storage.Disk.{Disk}
use otdel.Storage.Fs.{FilesystemObjectStore}
use otdel.Storage.Fs.Listing.{ObjectListing, list_objects}
use otdel.Storage.Fs.Listing.Ends.{list_objects_ends}
use otdel.Storage.Key.{ObjectKey, namespace, digest}
use otdel.Storage.Uuid.{Uuid, UuidText}
use otdel.Worker.{
  MaintenanceSettings, storage, listing_or_empty, unreferenced, check_key, count_orphans,
  report_orphans,
}

-- No material of the bureau has the partner and the digest that the key names.
unfoldable pub is_orphan : UuidText → Uuid → List MaterialRow → ObjectKey → Bool
is_orphan U bureau_id materials key = elim (namespace U key) [
  | err failure ↦ false
  | ok ns ↦
      (ns.bureau_id == bureau_id)
      && not (any materials (has_digest bureau_id ns.partner_id (digest key)))
]

find?-some :
    {A : Type 0} (p : A → Bool) (xs : List A) {x : A} → find? xs p ≡ some x → any xs p ≡ true
find?-some p [] h = cc
find?-some p (y ∷ xs) {x} h = ground (arith, find?-some p xs {x = x})

find_by_digest-eq_ok :
    (tx : ScopedTx) (partner_id : Uuid) (sha : Text) (found : Option Material)
    → find_by_digest tx partner_id sha ≡ ok found
    → any tx.tables.materials (has_digest tx.bureau_id partner_id sha)
      ≡ (elim found [ none ↦ false | some m ↦ true ])
unfolding find_by_digest
find_by_digest-eq_ok tx partner_id sha found h =
    elim (Option-cases (find? tx.tables.materials (has_digest tx.bureau_id partner_id sha))) [
      | inl absent ↦
          let h' : transpose material_from_row none ≡ ok found =
            subst (λ o. transpose material_from_row o ≡ ok found) absent h in
          let same : found ≡ none = ground (arith, h') in
          rw same (any_of_find? _ tx.tables.materials absent)
      | inr (row, present) ↦
          let h' : transpose material_from_row (some row) ≡ ok found =
            subst (λ o. transpose material_from_row o ≡ ok found) present h in
          let (material, decoded, rest) = >>=-passed (material_from_row row) _ h' in
          let same : found ≡ some material = ground (arith, rest) in
          rw same (find?-some _ tx.tables.materials present)
    ]

module _ (U : UuidText) (tx : ScopedTx) where
  check_key-counts :
      (key : ObjectKey) (n : ℕ) {m : ℕ}
      → check_key U tx key n ≡ ok m
      → m ≡ n + (if is_orphan U tx.bureau_id tx.tables.materials key then 1 else 0)
  unfolding check_key unreferenced is_orphan
  check_key-counts key n {m} h = elim (Result-cases (namespace U key)) [
    | inr (failure, bad) ↦ absurd (ground (arith, rw bad at h))
    | inl (ns, named) ↦ elim (Bool-cases (ns.bureau_id == tx.bureau_id)) [
      | inr other ↦ ground arith
      | inl mine ↦ elim (Result-cases (find_by_digest tx ns.partner_id (digest key))) [
        | inr (failure, bad) ↦ absurd (ground arith)
        | inl (found, looked) ↦
            ground (arith, find_by_digest-eq_ok tx ns.partner_id (digest key) found looked)
      ]
    ]
  ]

  count_orphans-counts :
      (keys : List ObjectKey) (n : ℕ) {m : ℕ}
      → count_orphans U tx keys n ≡ ok m
      → m ≡ n + count (is_orphan U tx.bureau_id tx.tables.materials) keys
  unfolding count_orphans
  count_orphans-counts [] n h = ground arith
  count_orphans-counts (key ∷ keys) n {m} h =
      let (k, first, rest) = >>=-passed (check_key U tx key n) _ h in
      ground (arith, check_key-counts key n first, count_orphans-counts keys k rest)

-- What a report says: the objects that were listed, and how many of them are orphans.
pub record Reported (U : UuidText) (limit : ℕ) (store : FilesystemObjectStore) (bureau_id : Uuid)
    (tables : Tables) (d : Disk) (out : ℕ × ℕ × Bool) (d' : Disk) : Type 0 where
  pub listing : ObjectListing
  pub listed : list_objects U limit store d ≡ (ok (some listing), d')
  pub orphans : out.0 ≡ count (is_orphan U bureau_id tables.materials) listing.keys
  pub scanned : out.1 ≡ length listing.keys
  pub truncated : out.2 ≡ listing.truncated

-- When report_orphans succeeds, list_objects has answered with a listing under the configured limit;
-- the orphans are as many as the listed keys of this bureau for which no material row has the bureau,
-- the partner and the digest of the key; the scanned objects are all listed ones, and the flag is
-- that of the listing.
pub report_orphans_ok :
    (U : UuidText) (settings : MaintenanceSettings) (store : FilesystemObjectStore) (now : DateTime)
    (bureau_id : Uuid) (tables : Tables) (d : Disk) {out : ℕ × ℕ × Bool} {d' : Disk}
    → report_orphans U settings store now bureau_id tables d ≡ (ok out, d')
    → Reported U settings.orphan_scan_limit store bureau_id tables d out d'
unfolding report_orphans
report_orphans_ok U settings store now bureau_id tables d {out} {d'} h =
    let limit = settings.orphan_scan_limit in
    let after : (list_objects U limit store d).1 ≡ d' = ap (λ r. r.1) h in
    let (found, listed, rest) =
      >>=-passed (map_err storage (list_objects U limit store d).0) _ (ap (λ r. r.0) h) in
    let (orphans, counted, answer) =
      >>=-passed
        (count_orphans U (record { bureau_id = bureau_id; now = now; tables = tables })
          (listing_or_empty found).keys 0)
        _ rest in
    let walked : list_objects U limit store d ≡ (ok found, d') =
      paired (list_objects U limit store d)
        (map_err-eq_ok storage (list_objects U limit store d).0 listed) after in
    let exact : orphans
        ≡ count (is_orphan U bureau_id tables.materials) (listing_or_empty found).keys =
      omega (
        arith,
        count_orphans-counts U (record { bureau_id = bureau_id; now = now; tables = tables })
            (listing_or_empty found).keys 0 counted,
      ) in
    let told : (orphans, length (listing_or_empty found).keys, (listing_or_empty found).truncated)
        ≡ out =
      ground (arith, answer) in
    elim (Option-cases found) [
      | inl never ↦ absurd (
          list_objects_ends U limit store d d'
            (subst (λ f. list_objects U limit store d ≡ (ok f, d')) never walked))
      | inr (listing, some_listing) ↦
          let these : listing_or_empty found ≡ listing = ap listing_or_empty some_listing in
          record {
            listing = listing;
            listed = subst (λ f. list_objects U limit store d ≡ (ok f, d')) some_listing walked;
            orphans =
                ap (λ o. o.0) (sym told)
                ∙ exact
                ∙ ap (λ l. count (is_orphan U bureau_id tables.materials) l.keys) these;
            scanned = ap (λ o. o.1) (sym told) ∙ ap (λ l. length l.keys) these;
            truncated = ap (λ o. o.2) (sym told) ∙ ap (λ l. l.truncated) these;
          }
    ]
