-- ===== src/Db/Database.antt =====
-- crates/otdel-db/src/lib.rs: the checks of the connected role and of the extension, the provisioning
-- of a bureau, and the migrations. What a query answers from PostgreSQL's catalogue is an argument.
pub mod Checks
use otdel.Prelude.{
  ℕ, zero, suc, String, Bool, true, false, ◌&&◌, ◌||◌, not, Option, none, some, List, [], ◌∷◌, ◌++◌,
  leb, ◌==◌, if◌then◌else◌, length, all, any, is_empty, Result, ok, err, lit, Message,
}
use otdel.Prelude.Text.{Text, codes, is_ascii_digit, is_ascii_lowercase}
use otdel.Core.Model.{DateTime}
use otdel.Db.DbError.{
  DbError, sqlx, other, check_violation, primary_key_violation, unsafe_runtime_role,
}
use otdel.Db.Sessions.{Bureau, bureau_id_by_slug}
use otdel.Storage.Uuid.{Uuid}

-- The row of the query in `verify_runtime_role`.
pub record RoleRow : Type 0 where
  pub role_name : Text
  pub is_superuser : Bool
  pub bypasses_rls : Bool
  pub can_create_role : Bool
  pub can_create_db : Bool
  pub owns_tables : Bool
  pub rls_partners : Bool
  pub rls_materials : Bool
  pub rls_jobs : Bool
  pub reads_sessions : Bool

-- `problems.push(..)` under a test.
abbrev problem : Bool → String → List Message
problem true what = (lit what ∷ []) ∷ []
problem false what = []

problems : RoleRow → List Message
problems row =
    problem row.is_superuser "the role is SUPERUSER"
    ++ (problem row.bypasses_rls "the role has BYPASSRLS"
        ++ (problem row.can_create_role "the role has CREATEROLE"
            ++ (problem row.can_create_db "the role has CREATEDB"
                ++ (problem row.owns_tables "the role owns tables in the otdel schema"
                    ++ (problem row.reads_sessions "the role can read otdel.sessions directly"
                        ++ (problem (not row.rls_partners)
                              "row-level security is not applied on otdel.partners"
                            ++ (problem (not row.rls_materials)
                                  "row-level security is not applied on otdel.materials"
                                ++ problem (not row.rls_jobs)
                                    "row-level security is not applied on otdel.jobs")))))))

unfoldable pub verify_runtime_role : RoleRow → Result (Unit {0}) DbError
unfolding problems
verify_runtime_role row =
    if is_empty (problems row)
    then ok tt
    else err (unsafe_runtime_role row.role_name (problems row))

pub data PgVectorStatus : Type 0 where
  installed available absent : PgVectorStatus

-- From what the two EXISTS of the query answer.
unfoldable pub pgvector_status : Bool → Bool → PgVectorStatus
pgvector_status is_installed is_available =
    if is_installed then installed else if is_available then available else absent

unfoldable pub pgvector_as_str : PgVectorStatus → String
pgvector_as_str installed = "installed"
pgvector_as_str available = "available_not_installed"
pgvector_as_str absent = "absent"

-- CHECK (slug ~ '^[a-z0-9-]{1,64}$')
unfoldable pub is_bureau_slug : Text → Bool
is_bureau_slug slug =
    not (is_empty slug)
    && leb (length slug) 64
    && all slug (λ c. is_ascii_lowercase c || is_ascii_digit c || (c == b'-'))

-- `format!("Бюро {slug}")`
abbrev bureau_name : Text → Text
bureau_name slug = 0x0411 ∷ 0x044e ∷ 0x0440 ∷ 0x043e ∷ b' ' ∷ slug

-- CHECK (char_length(name) BETWEEN 1 AND 200) of the name that `format!` builds.
unfoldable pub has_bureau_name : Text → Bool
has_bureau_name slug = leb (length (bureau_name slug)) 200

-- `bootstrap_bureau`: the row is inserted unless the slug is there, and its id is what either part of
-- the UNION finds.
unfoldable pub bootstrap_bureau : Uuid → List Bureau → Text → Result (Uuid × List Bureau) DbError
unfolding is_bureau_slug has_bureau_name bureau_id_by_slug
bootstrap_bureau new_id bureaus slug =
    if not (is_bureau_slug slug && has_bureau_name slug)
    then err check_violation
    else elim (bureau_id_by_slug bureaus slug) [
      | some id ↦ ok (id, bureaus)
      | none ↦
          if any bureaus (λ bureau. bureau.id == new_id)
          then err (primary_key_violation (codes "bureaus_pkey"))
          else ok (new_id, bureaus ++ record { id = new_id; slug = slug } ∷ [])
    ]

-- What `run_migrations` sees of a database: the rows of otdel._sqlx_migrations, if that table is
-- there, and all else, which only the migrator reads.
pub record Schema (S : Type 0) : Type 0 where
  pub stray : Option ℕ
  pub rest : S

module _ {S : Type 0} where
  -- A table with rows is left alone.
  drop_if_empty : ℕ → Schema S → Schema S
  drop_if_empty zero schema = record schema { stray = none }
  drop_if_empty (suc rows) schema = schema

  -- The query on a table that is not there fails, which is the normal case.
  unfoldable pub remove_stray_migration_table : Schema S → Schema S
  unfolding drop_if_empty
  remove_stray_migration_table schema = elim schema.stray [
    | none ↦ schema
    | some rows ↦ drop_if_empty rows schema
  ]

  -- `run` stands for `MIGRATOR.run`, on a connection whose search path is pinned to `public`.
  unfoldable pub run_migrations :
      (Schema S → Result (Unit {0}) DbError × Schema S)
      → Schema S
      → Result (Unit {0}) DbError × Schema S
  unfolding remove_stray_migration_table
  run_migrations run schema = run (remove_stray_migration_table schema)
