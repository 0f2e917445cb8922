-- ===== src/Db/Database/Checks.antt =====
-- What the checks at the start and the administrative commands guarantee.
use otdel.Prelude.{
  ℕ, zero, suc, String, ◌≡◌, refl, sym, ap, ◌∙◌, ◌≢◌, ◌↔◌, Bool, true, false, ◌&&◌, not, Option,
  none, some, List, [], ◌∷◌, ◌++◌, arith, if◌then◌else◌, is_empty, Result, ok, Message,
}
use otdel.Prelude.Text.{Text, text_eq, text_eq_iff, text_eq_refl}
use otdel.Db.DbError.{DbError}
use otdel.Db.Sessions.{Bureau, bureau_id_by_slug}
use otdel.Db.Database.{
  RoleRow, problem, problems, verify_runtime_role, bootstrap_bureau, Schema,
  remove_stray_migration_table, drop_if_empty, run_migrations,
}
use otdel.Storage.Uuid.{Uuid}

-- A role that row-level security binds: no privilege that lifts it, and the policies are in force.
pub record IsRestricted (row : RoleRow) : Type 0 where
  pub not_superuser : row.is_superuser ≡ false
  pub not_bypassing : row.bypasses_rls ≡ false
  pub not_creating_roles : row.can_create_role ≡ false
  pub not_creating_databases : row.can_create_db ≡ false
  pub not_owning : row.owns_tables ≡ false
  pub not_reading_sessions : row.reads_sessions ≡ false
  pub on_partners : row.rls_partners ≡ true
  pub on_materials : row.rls_materials ≡ true
  pub on_jobs : row.rls_jobs ≡ true

is_empty-problem :
    (b : Bool) (what : String) (rest : List Message)
    → is_empty (problem b what ++ rest) ≡ (not b && is_empty rest)
is_empty-problem true what rest = refl
is_empty-problem false what rest = refl

is_empty_last : (b : Bool) (what : String) → is_empty (problem b what) ≡ not b
is_empty_last true what = refl
is_empty_last false what = refl

problems-empty :
    (row : RoleRow)
    → is_empty (problems row) ≡ (
        not row.is_superuser
        && (not row.bypasses_rls
            && (not row.can_create_role
                && (not row.can_create_db
                    && (not row.owns_tables
                        && (not row.reads_sessions
                            && (not (not row.rls_partners)
                                && (not (not row.rls_materials) && not (not row.rls_jobs)))))))))
unfolding problems
problems-empty row = rw (
  is_empty-problem row.is_superuser,
  is_empty-problem row.bypasses_rls,
  is_empty-problem row.can_create_role,
  is_empty-problem row.can_create_db,
  is_empty-problem row.owns_tables,
  is_empty-problem row.reads_sessions,
  is_empty-problem (not row.rls_partners),
  is_empty-problem (not row.rls_materials),
  is_empty_last (not row.rls_jobs),
)

-- The check of the runtime role passes exactly for a role that is no superuser, does not bypass
-- row-level security, can create neither roles nor databases, owns no table of the schema, cannot
-- read the sessions, and is bound by row-level security on partners, materials and jobs.
pub verify_runtime_role_iff : (row : RoleRow) → (verify_runtime_role row ≡ ok tt) ↔ IsRestricted row
unfolding verify_runtime_role
verify_runtime_role_iff row =
    (λ h. ground (arith, problems-empty row), λ r. ground (arith, problems-empty row))

bureau_id_by_slug-append :
    (bureaus : List Bureau) (bureau : Bureau) (slug : Text)
    → bureau_id_by_slug (bureaus ++ bureau ∷ []) slug ≡ elim (bureau_id_by_slug bureaus slug) [
      | some id ↦ some id
      | none ↦ if text_eq bureau.slug slug then some bureau.id else none
    ]
unfolding bureau_id_by_slug
bureau_id_by_slug-append [] bureau slug = ground arith
bureau_id_by_slug-append (first ∷ bureaus) bureau slug =
    ground (arith, bureau_id_by_slug-append bureaus bureau slug)

-- A bureau that was provisioned is found under its slug; provisioning it again gives the same id and
-- changes nothing; under every other slug the same bureau is found as before, or still none.
pub bootstrap_bureau_again :
    (new_id other_id : Uuid) (bureaus : List Bureau) (slug other : Text) {id : Uuid}
    {bureaus' : List Bureau}
    → other ≢ slug
    → bootstrap_bureau new_id bureaus slug ≡ ok (id, bureaus')
    → (bureau_id_by_slug bureaus' slug ≡ some id)
      × (bootstrap_bureau other_id bureaus' slug ≡ ok (id, bureaus'))
      × (bureau_id_by_slug bureaus' other ≡ bureau_id_by_slug bureaus other)
unfolding bootstrap_bureau
bootstrap_bureau_again new_id other_id bureaus slug other {id} {bureaus'} ne h =
    let added : Bureau = record { id = new_id; slug = slug } in
    (
      ground (arith, bureau_id_by_slug-append bureaus added slug, text_eq_refl slug),
      ground (arith, bureau_id_by_slug-append bureaus added slug, text_eq_refl slug),
      ground (arith, bureau_id_by_slug-append bureaus added other, text_eq_iff slug other),
    )

module _ {S : Type 0} where
  -- No empty stray table is left.
  removed-ne-empty : (schema : Schema S) → (remove_stray_migration_table schema).stray ≢ some 0
  unfolding remove_stray_migration_table drop_if_empty
  removed-ne-empty schema h = by_table schema.stray refl h
    where
      by_table :
          (found : Option ℕ)
          → schema.stray ≡ found
          → (remove_stray_migration_table schema).stray ≢ some 0
      by_table none e h = ground (arith, e, h)
      by_table (some zero) e h = ground (arith, e, h)
      by_table (some (suc n)) e h = ground (arith, e, h)

  remove_stray-same :
      (schema : Schema S) → schema.stray ≢ some 0 → remove_stray_migration_table schema ≡ schema
  unfolding remove_stray_migration_table drop_if_empty
  remove_stray-same schema h = by_table schema.stray refl
    where
      by_table :
          (found : Option ℕ) → schema.stray ≡ found → remove_stray_migration_table schema ≡ schema
      by_table none e = rw e
      by_table (some zero) e = absurd (h e)
      by_table (some (suc n)) e = rw e

-- Where migrations have been applied, applying them again succeeds and changes nothing: for a
-- migrator that changes nothing where it has succeeded, and that never writes a history of its own
-- into the other schema.
pub run_migrations_again :
    {S : Type 0} (run : Schema S → Result (Unit {0}) DbError × Schema S) (schema : Schema S)
    {after : Schema S}
    → ((before reached : Schema S) → run before ≡ (ok tt, reached) → run reached ≡ (ok tt, reached))
    → ((before reached : Schema S) → run before ≡ (ok tt, reached) → reached.stray ≡ before.stray)
    → run_migrations run schema ≡ (ok tt, after)
    → (run_migrations run after ≡ (ok tt, after)) × (after.stray ≢ some 0)
unfolding run_migrations
run_migrations_again run schema {after} idempotent apart h =
    let clean = removed-ne-empty schema in
    let kept = apart (remove_stray_migration_table schema) after h in
    let still : after.stray ≢ some 0 = λ e. clean (sym kept ∙ e) in
    (
      ap run (remove_stray-same after still)
          ∙ idempotent (remove_stray_migration_table schema) after h,
      still,
    )
