-- ===== src/Worker/Pass.antt =====
-- What a maintenance pass may change, whatever it answers, and what a pass that returns has done.
use otdel.Prelude.{
  ℕ, ◌-◌, ◌≡◌, refl, sym, ap, ◌∙◌, subst, inl, inr, Bool, true, false, not, some, List, [], ◌∷◌,
  arith, Bool-cases, Option-cases, filter, ◌∈◌, ok, Result-cases,
}
use otdel.Core.Config.{Config}
use otdel.Core.Model.{DateTime}
use otdel.Db.Isolation.{leases_reclaimed, next, done, others}
use otdel.Db.Isolation.Kept.{Steps-others}
use otdel.Db.Jobs.{reclaim_expired_leases}
use otdel.Db.Rows.{Tables, ScopedTx}
use otdel.Db.Sessions.{Bureau, SessionRow, bureau_id_by_slug, purge_expired, is_over}
use otdel.Storage.Fs.{FilesystemObjectStore}
use otdel.Storage.Fs.Listing.{list_objects}
use otdel.Storage.Fs.Listing.Effects.{list_objects-Same}
use otdel.Storage.Fs.Staging.{sweep_staging}
use otdel.Storage.Fs.Staging.Swept.{Swept, Swept-trans, same-Swept}
use otdel.Storage.Fs.Staging.Cleared.{sweep_staging-Swept}
use otdel.Storage.Uuid.{Uuid, UuidText}
use otdel.Worker.{
  MaintenanceSettings, State, idle_timeout, report_orphans, finish, sweep_and_report, run_once,
}

∈-filter : {A : Type 0} (p : A → Bool) (x : A) (xs : List A) → x ∈ xs → p x ≡ true → x ∈ filter xs p
∈-filter p x [] m h = m
∈-filter p x (y ∷ xs) (inl e) h = let same : p y ≡ true = ap p (sym e) ∙ h in rw same (inl e)
∈-filter p x (y ∷ xs) (inr m) h = elim (Bool-cases (p y)) [
  | inl kept ↦ rw kept (inr (∈-filter p x xs m h))
  | inr dropped ↦ rw dropped (∈-filter p x xs m h)
]

module _ (U : UuidText) (settings : MaintenanceSettings) (config : Config) (bureaus : List Bureau)
    (store : FilesystemObjectStore) (now : DateTime) where
  -- Partners and materials are as before, and so are the jobs of every bureau but the configured one;
  -- no session is ended that is not over; and of the store only old staging files are gone.
  pub record Kept (s s' : State) : Type 0 where
    pub partners : s'.tables.partners ≡ s.tables.partners
    pub materials : s'.tables.materials ≡ s.tables.materials
    pub other_bureaus :
        (b : Uuid)
        → bureau_id_by_slug bureaus config.bureau_slug ≡ some b
        → others b s'.tables ≡ others b s.tables
    pub live_sessions :
        (row : SessionRow)
        → row ∈ s.sessions
        → is_over now (idle_timeout config) row ≡ false
        → row ∈ s'.sessions
    pub files :
        Swept store.staging_root
          (s.disk.clock - settings.staging_max_age)
          s.disk.entries
          s'.disk.entries

  purge-live :
      (s : State) {purged : ℕ} {sessions : List SessionRow}
      → purge_expired now s.sessions (idle_timeout config) ≡ ok (purged, sessions)
      → (row : SessionRow) → row ∈ s.sessions
      → is_over now (idle_timeout config) row ≡ false
      → row ∈ sessions
  unfolding purge_expired
  purge-live s {purged} {sessions} h row m live =
      let kept : filter s.sessions (λ row. not (is_over now (idle_timeout config) row)) ≡ sessions =
        ground arith in
      subst (λ rows. row ∈ rows) kept
        (∈-filter (λ row. not (is_over now (idle_timeout config) row)) row s.sessions m (rw live))

  Swept-files :
      (bureau_id : Uuid) (purged reclaimed : ℕ) (s : State)
      → Swept store.staging_root
          (s.disk.clock - settings.staging_max_age)
          s.disk.entries
          (sweep_and_report U settings store now bureau_id purged reclaimed s).1.disk.entries
  unfolding sweep_and_report finish report_orphans
  Swept-files bureau_id purged reclaimed s =
      elim (Result-cases (sweep_staging store settings.staging_max_age s.disk).0) [
        | inr (failure, e) ↦
            rw (e, sweep_and_report) (sweep_staging-Swept store settings.staging_max_age s.disk)
        | inl (sweep, e) ↦
            let d = (sweep_staging store settings.staging_max_age s.disk).1 in
            rw (e, sweep_and_report)
              (Swept-trans store.staging_root (s.disk.clock - settings.staging_max_age)
                s.disk.entries d.entries
                (list_objects U settings.orphan_scan_limit store d).1.entries
                (sweep_staging-Swept store settings.staging_max_age s.disk)
                (same-Swept store.staging_root (s.disk.clock - settings.staging_max_age) d.entries
                  (list_objects U settings.orphan_scan_limit store d).1.entries
                  (list_objects-Same U settings.orphan_scan_limit store d)))
      ]

  kept-rest :
      (bureau_id : Uuid) (purged reclaimed : ℕ) (s : State)
      → ((sweep_and_report U settings store now bureau_id purged reclaimed s).1.tables ≡ s.tables)
        × ((sweep_and_report U settings store now bureau_id purged reclaimed s).1.sessions
            ≡ s.sessions)
  unfolding sweep_and_report finish report_orphans
  kept-rest bureau_id purged reclaimed s =
      elim (Result-cases (sweep_staging store settings.staging_max_age s.disk).0) [
        | inr (failure, e) ↦ rw (e, sweep_and_report) (refl, refl)
        | inl (sweep, e) ↦ rw (e, sweep_and_report) (refl, refl)
      ]

  untouched : (s : State) → Kept s s
  untouched s = record {
    partners = refl;
    materials = refl;
    other_bureaus = λ b h. refl;
    live_sessions = λ row m live. m;
    files =
        same-Swept store.staging_root (s.disk.clock - settings.staging_max_age) s.disk.entries
          s.disk.entries refl;
  }

  sessions_only :
      (s : State) {purged : ℕ} {sessions : List SessionRow}
      → purge_expired now s.sessions (idle_timeout config) ≡ ok (purged, sessions)
      → Kept s (record s { sessions = sessions })
  sessions_only s {purged} {sessions} e = record {
    partners = refl;
    materials = refl;
    other_bureaus = λ b h. refl;
    live_sessions = purge-live s {purged = purged} {sessions = sessions} e;
    files =
        same-Swept store.staging_root (s.disk.clock - settings.staging_max_age) s.disk.entries
          s.disk.entries refl;
  }

  abbrev scoped : Uuid → Tables → ScopedTx
  scoped bureau_id tables = record { bureau_id = bureau_id; now = now; tables = tables }

  -- Reclaiming changes jobs of the bureau only.
  reclaimed-tables :
      (bureau_id : Uuid) (tables : Tables)
      → ((reclaim_expired_leases (scoped bureau_id tables)).1.tables.partners ≡ tables.partners)
        × ((reclaim_expired_leases (scoped bureau_id tables)).1.tables.materials ≡ tables.materials)
        × (others bureau_id (reclaim_expired_leases (scoped bureau_id tables)).1.tables
            ≡ others bureau_id tables)
  unfolding reclaim_expired_leases
  reclaimed-tables bureau_id tables = (
    refl,
    refl,
    (Steps-others U {tx = scoped bureau_id tables} (next (leases_reclaimed refl) done)).1,
  )

  worked :
      (s : State) {purged : ℕ} {sessions : List SessionRow} (bureau_id : Uuid)
      → purge_expired now s.sessions (idle_timeout config) ≡ ok (purged, sessions)
      → bureau_id_by_slug bureaus config.bureau_slug ≡ some bureau_id
      → (let (reclaimed, tx) = reclaim_expired_leases (scoped bureau_id s.tables) in
          Kept s
            (sweep_and_report U settings store now bureau_id purged reclaimed
              (record s { sessions = sessions; tables = tx.tables })).1)
  worked s {purged} {sessions} bureau_id e found =
      let (reclaimed, tx) = reclaim_expired_leases (scoped bureau_id s.tables) in
      let s' = record s { sessions = sessions; tables = tx.tables } in
      let after = (sweep_and_report U settings store now bureau_id purged reclaimed s').1.tables in
      let (tables, ended) = kept-rest bureau_id purged reclaimed s' in
      let (partners, materials, jobs) = reclaimed-tables bureau_id s.tables in
      record {
        partners = ap (λ t. t.partners) tables ∙ partners;
        materials = ap (λ t. t.materials) tables ∙ materials;
        other_bureaus = λ b h.
            subst (λ b. others b after ≡ others b s.tables) (ground (arith, h, found))
              (ap (others bureau_id) tables ∙ jobs);
        live_sessions = λ row m live.
            subst (λ rows. row ∈ rows) (sym ended)
              (purge-live s {purged = purged} {sessions = sessions} e row m live);
        files = Swept-files bureau_id purged reclaimed s';
      }

  -- A maintenance pass, whatever it answers and wherever it stops: partners and materials are as
  -- before, and for a configured bureau so are the partners, materials and jobs of all others; each
  -- session that is not over at the pass's time is still there; and every path of the tree is as
  -- before, or lay directly in the staging directory, was a regular file that had not been modified
  -- after the cutoff, and is gone.
  pub run_once-Kept : (s : State) → Kept s (run_once U settings config bureaus store now s).1
  unfolding run_once
  run_once-Kept s = elim (Result-cases (purge_expired now s.sessions (idle_timeout config))) [
    | inr (failure, e) ↦ rw (e, run_once) (untouched s)
    | inl ((purged, sessions), e) ↦
        elim (Option-cases (bureau_id_by_slug bureaus config.bureau_slug)) [
          | inl missing ↦
              rw (e, missing, run_once) (sessions_only s {purged = purged} {sessions = sessions} e)
          | inr (bureau_id, found) ↦
              rw (e, found, run_once)
                (worked s {purged = purged} {sessions = sessions} bureau_id e found)
        ]
  ]
