-- ===== src/Api/Routes/Partners.antt =====
-- crates/otdel-api/src/routes/partners.rs: the handlers of the partner card.
use otdel.Prelude.{
  ℕ, Option, none, some, List, [], ◌∷◌, if◌then◌else◌, Result, ok, err, ◌>>=◌, map_err, ok_or, lit,
}
use otdel.Prelude.Text.{Text}
use otdel.Core.AppError
use otdel.Core.AppError.{AppError}
use otdel.Core.Model.{Partner, DateTime}
use otdel.Core.Validate.{partner_name, partner_note}
use otdel.Api.ApiError
use otdel.Api.ApiError.{ApiError}
use otdel.Api.Auth.{Session}
use otdel.Db.DbError.{DbError}
use otdel.Db.Partners
use otdel.Db.Partners.{PartnerPatch, is_empty_patch}
use otdel.Db.Rows.{Tables, ScopedTx}
use otdel.Storage.Uuid.{Uuid}

-- `begin_scoped`: the bureau of a transaction is the one of the session.
abbrev pub begin_scoped : Session → DateTime → Tables → ScopedTx
begin_scoped session now tables = record {
  bureau_id = session.bureau_id;
  now = now;
  tables = tables;
}

-- A statement's error ends the handler, and its transaction is rolled back.
abbrev pub query {ℓ} : {A : Type ℓ} → Result A DbError → Result A ApiError
query = map_err ApiError.from_db_error

abbrev pub partner_not_found : ApiError
partner_not_found = ApiError.not_found_error "partner not found"

unfoldable pub list : Session → DateTime → Tables → Result (List Partner) ApiError
unfolding Partners.list
list session now tables = query (Partners.list (begin_scoped session now tables))

-- `new_id` is what gen_random_uuid() gives. The status of the answer is 201.
unfoldable pub create :
    Uuid → Session → DateTime → Text → Option Text → Tables → Result (ℕ × Partner × Tables) ApiError
unfolding Partners.create partner_name partner_note
create new_id session now name note tables = map_err ApiError.new (partner_name name) >>= λ name'.
    map_err ApiError.new (partner_note note) >>= λ note'.
    query (Partners.create new_id (begin_scoped session now tables) name' note') >>= λ created.
    ok (201, created.0, created.1.tables)

unfoldable pub show : Session → DateTime → Uuid → Tables → Result Partner ApiError
unfolding Partners.get
show session now partner_id tables =
    query (Partners.get (begin_scoped session now tables) partner_id) >>= λ partner.
    ok_or partner partner_not_found

-- The fields of the request that were sent, validated.
patch_of : Option Text → Option (Option Text) → Result PartnerPatch AppError
unfolding partner_name partner_note
patch_of none none = ok record { name = none; note = none }
patch_of (some name) none =
    partner_name name >>= λ name'. ok record { name = some name'; note = none }
patch_of none (some note) =
    partner_note note >>= λ note'. ok record { name = none; note = some note' }
patch_of (some name) (some note) = partner_name name >>= λ name'.
    partner_note note >>= λ note'. ok record { name = some name'; note = some note' }

empty_patch : ApiError
empty_patch =
    ApiError.new
      (AppError.validation (lit "patch must contain at least one of `name` or `note`" ∷ []))

unfoldable pub update :
    Session
    → DateTime
    → Uuid
    → Option Text
    → Option (Option Text)
    → Tables
    → Result (Partner × Tables) ApiError
unfolding patch_of is_empty_patch empty_patch Partners.update
update session now partner_id name note tables =
    map_err ApiError.new (patch_of name note) >>= λ patch.
    (if is_empty_patch patch then err empty_patch else ok patch) >>= λ patch'.
    query (Partners.update (begin_scoped session now tables) partner_id patch') >>= λ updated.
    ok_or updated.0 partner_not_found >>= λ partner. ok (partner, updated.1.tables)
