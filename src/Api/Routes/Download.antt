-- ===== src/Api/Routes/Download.antt =====
-- crates/otdel-api/src/routes/materials.rs: `download`. The only path that can be read is the one that
-- is recorded for a material of the partner and the bureau of the session.
pub mod Originals
use otdel.Prelude.{
  ℕ, ◌&&◌, ◌||◌, not, Option, none, some, List, [], ◌∷◌, leb, ◌==◌, if◌then◌else◌, all, Result, ok,
  err, ◌>>=◌, map_err, ok_or, lit,
}
use otdel.Prelude.Text.{Text, codes, bytes, decimal}
use otdel.Core.AppError
use otdel.Core.Model.{DateTime, Material}
use otdel.Api.ApiError
use otdel.Api.ApiError.{ApiError}
use otdel.Api.Auth.{Session}
use otdel.Api.Routes.Partners.{begin_scoped, query}
use otdel.Api.Routes.Materials.{material_not_found, content_disposition}
use otdel.Db.Materials
use otdel.Db.Materials.{StoredMaterial}
use otdel.Db.Rows.{Tables}
use otdel.Storage.Disk.{Disk}
use otdel.Storage.Fs.{FilesystemObjectStore}
use otdel.Storage.Fs.Objects.{ObjectBody, open_object}
use otdel.Storage.Key.{ObjectKey, parse}
use otdel.Storage.StorageError.{StorageError}
use otdel.Storage.Uuid.{Uuid, UuidText}

-- The headers that the handler sets, and the body.
pub record Original : Type 0 where
  pub content_type : Text
  pub content_length : Text
  pub content_disposition : Option Text
  pub x_content_type_options : Text
  pub cache_control : Text
  pub body : List ℕ

-- `HeaderValue::from_str`: visible characters, spaces, tabs, and bytes from 128 on.
unfoldable pub header_value : Text → Option Text
header_value text =
    if all (bytes text) (λ b. (leb 32 b && not (b == 127)) || (b == 9)) then some text else none

-- `unwrap_or_else`
abbrev value_or : Option Text → Text → Text
value_or none default = default
value_or (some value) default = value

-- What is sent for an open object.
unfoldable pub respond : StoredMaterial → ObjectBody → Original
unfolding header_value
respond stored object = record {
  content_type =
      value_or (header_value stored.material.media_type) (codes "application/octet-stream");
  content_length = value_or (header_value (decimal object.size_bytes)) (codes "0");
  content_disposition = elim (content_disposition stored.material) [
    | none ↦ none
    | some disposition ↦ header_value disposition
  ];
  x_content_type_options = codes "nosniff";
  cache_control = codes "private, no-store";
  body = object.content;
}

-- The key that the row recorded is validated again before it is resolved.
recorded_key : UuidText → StoredMaterial → Result ObjectKey ApiError
recorded_key U stored =
    map_err
      (λ (failure : StorageError).
        ApiError.new (AppError.internal_error (lit "internal server error" ∷ [])))
      (parse U stored.storage_key)

-- What is found in the tables: the row of the material and the key of its object.
unfoldable pub find_original :
    UuidText
    → Session
    → DateTime
    → Uuid
    → Uuid
    → Tables
    → Result (StoredMaterial × ObjectKey) ApiError
unfolding recorded_key
find_original U session now partner_id material_id tables =
    query (Materials.get_in_partner (begin_scoped session now tables) partner_id material_id)
    >>= λ found. ok_or found material_not_found >>= λ stored.
        recorded_key U stored >>= λ key. ok (stored, key)

abbrev answered :
    StoredMaterial → Result ObjectBody StorageError × Disk → Result Original ApiError × Disk
answered stored (opened, d) =
    (map_err ApiError.from_storage_error opened >>= λ object. ok (respond stored object), d)

unfoldable pub download :
    UuidText
    → FilesystemObjectStore
    → Session
    → DateTime
    → Uuid
    → Uuid
    → Tables
    → Disk
    → Result Original ApiError × Disk
unfolding find_original respond
download U store session now partner_id material_id tables d =
    elim (find_original U session now partner_id material_id tables) [
      | err failure ↦ (err failure, d)
      | ok (stored, key) ↦ answered stored (open_object store key d)
    ]
