-- ===== src/Tests/Originals.antt =====
-- A download of an uploaded object, a maintenance pass over it, and the checks of the database.
use otdel.Prelude.{◌≡◌, refl, false, none, some, [], ◌∷◌, ◌++◌, ok}
use otdel.Prelude.Text.{codes, text_eq, strip_prefix, split, join}
use otdel.Core.Model.{MaterialStatus, parse_material_status}
use otdel.Api.Auth.{Session}
use otdel.Api.Routes.Download.{respond, find_original}
use otdel.Api.Routes.Download.Originals.{Downloaded, download_of, download_ok}
use otdel.Db.Materials
use otdel.Db.Materials.{StoredMaterial, find_by_digest}
use otdel.Db.Rows.{MaterialRow, Tables, material_from_row}
use otdel.Storage.Key.{key_text, parse, is_sha256_hex, namespace, digest}
use otdel.Storage.Disk.{path_eq, lookup, call, stat}
use otdel.Storage.Disk.Directories.{child_name, child_names, read_dir}
use otdel.Storage.Fs.{hex_lower, objects_dir}
use otdel.Storage.Disk.Calls.{file_at}
use otdel.Storage.Fs.Objects.Intact.{open_object_of}
use otdel.Storage.Key.Paths.{resolve_within-parse}
use otdel.Tests.Stores.{first_parses}
use otdel.Storage.Fs.Objects.{ObjectBody, open_object}
use otdel.Storage.Fs.Listing.{examine, scan, walk, list_objects}
use otdel.Worker.{default_settings, State, count_orphans, report_orphans, run_once}
use otdel.Worker.Orphans.{Reported, report_orphans_ok}
use otdel.Worker.Pass.{Kept, run_once-Kept}
use otdel.Tests.Keys.{bureau_one}
use otdel.Tests.Requests.{loaded}
use otdel.Tests.Sessions.{bureaus}
use otdel.Tests.Tables.{partner}
use otdel.Tests.Uploads.{zeros, store, run, first, after_first}
use otdel.Tests.Uuids.{uuids}

uploaded : MaterialRow
unfolding uuids key_text hex_lower
uploaded = record {
  bureau_id = 1;
  id = 7;
  partner_id = 2;
  filename = codes "a.pdf";
  media_type = codes "application/pdf";
  size_bytes = 3;
  sha256 = hex_lower (zeros []);
  storage_key = key_text uuids bureau_one (hex_lower (zeros []));
  status = codes "queued";
  page_count = none;
  error = none;
  created_at = 50;
  updated_at = 50;
}

tables : Tables
unfolding uploaded
tables = record { partners = partner ∷ []; materials = uploaded ∷ []; jobs = [] }

abbrev session : Session
session = record { session_id = 5; bureau_id = 1; csrf_token = codes "c"; expires_at = 700 }

abbrev stored : StoredMaterial
unfolding uploaded uuids key_text hex_lower
stored = record {
  material = record {
    id = 7;
    partner_id = 2;
    filename = codes "a.pdf";
    media_type = codes "application/pdf";
    size_bytes = 3;
    sha256 = hex_lower (zeros []);
    status = MaterialStatus.queued;
    page_count = none;
    created_at = 50;
    error = none;
  };
  storage_key = key_text uuids bureau_one (hex_lower (zeros []));
}

abbrev object : ObjectBody
object = record { size_bytes = 3; content = 1 ∷ 2 ∷ 3 ∷ [] }

find_run : find_original uuids session 60 2 7 tables ≡ ok (stored, first.key)
unfolding find_original Materials.get_in_partner material_from_row parse_material_status tables
    uploaded stored parse is_sha256_hex split text_eq strip_prefix uuids key_text hex_lower first
find_run = refl

object_run :
    file_at
      (lookup ((codes "r" ∷ objects_dir ∷ []) ++ split first.key.raw b'/') after_first.entries)
    ≡ some (1 ∷ 2 ∷ 3 ∷ [], 7)
unfolding after_first run first split uuids key_text hex_lower lookup path_eq text_eq
object_run = refl

open_run : open_object store first.key after_first ≡ (ok object, after_first)
unfolding after_first run
open_run =
    open_object_of store first.key ((codes "r" ∷ objects_dir ∷ []) ++ split first.key.raw b'/')
      (1 ∷ 2 ∷ 3 ∷ []) 7 after_first
      (resolve_within-parse uuids first.key.raw store.objects_root first_parses).0 object_run refl

download_ok_example :
    Downloaded uuids store session 2 7 tables after_first (respond stored object) after_first
download_ok_example =
    download_ok uuids store session 60 2 7 tables after_first {original = respond stored object}
      {d' = after_first}
      (download_of uuids store session 60 2 7 tables after_first find_run open_run)

-- No material row refers to the object: it is an orphan, and it stays.
no_rows : Tables
no_rows = record { partners = partner ∷ []; materials = []; jobs = [] }

report_run :
    report_orphans uuids default_settings store 60 1 no_rows after_first
    ≡ (ok (1, 1, false), after_first)
unfolding report_orphans count_orphans find_by_digest namespace digest no_rows list_objects walk
    scan examine read_dir child_name child_names run after_first parse is_sha256_hex split join
    text_eq strip_prefix uuids key_text hex_lower lookup path_eq stat call
report_run = refl

report_orphans_ok_example :
    Reported uuids 5000 store 1 no_rows after_first (1, 1, false) after_first
report_orphans_ok_example =
    report_orphans_ok uuids default_settings store 60 1 no_rows after_first {out = (1, 1, false)}
      {d' = after_first} report_run

abbrev state : State
state = record { sessions = []; tables = no_rows; disk = after_first }

run_once-Kept_example :
    Kept uuids default_settings loaded bureaus store 60 state
      (run_once uuids default_settings loaded bureaus store 60 state).1
run_once-Kept_example = run_once-Kept uuids default_settings loaded bureaus store 60 state
