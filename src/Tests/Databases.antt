-- ===== src/Tests/Databases.antt =====
-- The checks of the database on concrete answers of PostgreSQL.
use otdel.Prelude.{◌≡◌, refl, ◌↔◌, true, false, some, [], ◌∷◌, ◌++◌, ok, err, lit}
use otdel.Prelude.Text.{codes, text_eq, is_ascii_digit, is_ascii_lowercase}
use otdel.Db.Database.{
  RoleRow, verify_runtime_role, is_bureau_slug, has_bureau_name, bootstrap_bureau,
}
use otdel.Db.Database.Checks.{IsRestricted, verify_runtime_role_iff, bootstrap_bureau_again}
use otdel.Db.DbError.{unsafe_runtime_role}
use otdel.Db.Sessions.{Bureau, bureau_id_by_slug}
use otdel.Tests.Sessions.{bureaus}

abbrev pub runtime : RoleRow
runtime = record {
  role_name = codes "otdel_app";
  is_superuser = false;
  bypasses_rls = false;
  can_create_role = false;
  can_create_db = false;
  owns_tables = false;
  rls_partners = true;
  rls_materials = true;
  rls_jobs = true;
  reads_sessions = false;
}

verify_runtime_role_iff_example : (verify_runtime_role runtime ≡ ok tt) ↔ IsRestricted runtime
verify_runtime_role_iff_example = verify_runtime_role_iff runtime

owner :
    verify_runtime_role (record runtime { owns_tables = true })
    ≡ err (
        unsafe_runtime_role
          (codes "otdel_app")
          ((lit "the role owns tables in the otdel schema" ∷ []) ∷ []))
unfolding verify_runtime_role
owner = refl

abbrev agency : Bureau
agency = record { id = 4; slug = codes "agency-2" }

bootstrap_run : bootstrap_bureau 4 bureaus (codes "agency-2") ≡ ok (4, bureaus ++ agency ∷ [])
unfolding bootstrap_bureau is_bureau_slug has_bureau_name bureau_id_by_slug text_eq
    is_ascii_lowercase is_ascii_digit
bootstrap_run = refl

bootstrap_bureau_again_example :
    (bureau_id_by_slug (bureaus ++ agency ∷ []) (codes "agency-2") ≡ some 4)
    × (bootstrap_bureau 9 (bureaus ++ agency ∷ []) (codes "agency-2")
        ≡ ok (4, bureaus ++ agency ∷ []))
    × (bureau_id_by_slug (bureaus ++ agency ∷ []) (codes "local")
        ≡ bureau_id_by_slug bureaus (codes "local"))
bootstrap_bureau_again_example =
    bootstrap_bureau_again 4 9 bureaus (codes "agency-2") (codes "local") {id = 4}
      {bureaus' = bureaus ++ agency ∷ []} (λ e. cc) bootstrap_run
