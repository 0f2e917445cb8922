-- ===== src/Storage/Fs/Staging/Cleared.antt =====
-- `sweep_staging` as its caller sees it: what it may remove, and that it leaves nothing to sweep.
use otdel.Prelude.{
  ℕ, ◌-◌, ◌≤◌, String, ◌≡◌, refl, sym, ap, ◌∙◌, subst, ◌≢◌, inl, inr, Option, none, some, [], ◌∷◌,
  ◌++◌, arith, all, ok, ok_or, ok_or-eq_ok,
}
use otdel.Prelude.Text.{Text}
use otdel.Storage.StorageError.{io}
use otdel.Storage.Disk.{Entry, file, dir, other, Disk, lookup, lift}
use otdel.Storage.Disk.Calls.{bind-ok}
use otdel.Storage.Disk.Directories.{
  child_names, read_dir, read_dir-entries, read_dir-clock, read_dir-eq_some, child_names-complete,
}
use otdel.Storage.Fs.{FilesystemObjectStore}
use otdel.Storage.Fs.Staging.{StagingSweep, no_sweep, sweep_entries, sweep_staging}
use otdel.Storage.Fs.Staging.Swept.{
  IsOld, Swept, same-Swept, bind_from_Swept, sweep_entries-Swept, sweep_entries_complete,
  sweep_entries-clean,
}

IsOld-listed : (cutoff : ℕ) (o : Option Entry) → IsOld cutoff o → o ≢ none
IsOld-listed cutoff none old e = old
IsOld-listed cutoff (some entry) old e = cc

IsOld-later : (early late : ℕ) (o : Option Entry) → early ≤ late → IsOld early o → IsOld late o
IsOld-later early late none h old = old
IsOld-later early late (some dir) h old = old
IsOld-later early late (some other) h old = old
IsOld-later early late (some (file bytes t)) h old = omega arith

IsOld-none : (cutoff : ℕ) (o : Option Entry) → o ≡ none → ¬ IsOld cutoff o
IsOld-none cutoff o e old = subst (IsOld cutoff) e old

module _ (store : FilesystemObjectStore) (older_than : ℕ) (d : Disk) where
  -- The time before which a staging file is old.
  abbrev pub cutoff : ℕ
  cutoff = d.clock - older_than

  -- A sweep, whatever it answers: every path is as before, or lay directly in the staging directory,
  -- was a regular file that had not been modified after the cutoff, and is gone.
  pub sweep_staging-Swept :
      Swept store.staging_root
        (d.clock - older_than)
        d.entries
        (sweep_staging store older_than d).1.entries
  unfolding sweep_staging
  sweep_staging-Swept =
      let root = store.staging_root in
      let op : String = "read staging directory" in
      bind_from_Swept root cutoff (read_dir op root) _ d
        (same-Swept root cutoff d.entries (read_dir op root d).1.entries
          (read_dir-entries op root d))
        λ listing d₁ e₁.
          bind_from_Swept root cutoff (lift (ok_or listing (io op))) _ d₁
            (same-Swept root cutoff d₁.entries d₁.entries refl)
            λ names d₂ e₂.
              let clock : d₂.clock ≡ d.clock =
                ap (λ r. r.1.clock) (sym e₂)
                ∙ ap (λ r. r.1.clock) (sym e₁)
                ∙ read_dir-clock op root d in
              subst
                (λ c.
                  Swept root cutoff d₂.entries
                    (sweep_entries root (c - older_than) no_sweep names d₂).1.entries)
                (sym clock) (sweep_entries-Swept root cutoff no_sweep names d₂)

  -- The loop runs over all names in the directory.
  entries_swept :
      {swept : StagingSweep} {d' : Disk}
      → sweep_staging store older_than d ≡ (ok swept, d')
      → (d₁ : Disk) × (d₁.entries ≡ d.entries)
        × (sweep_entries store.staging_root cutoff no_sweep
              (child_names store.staging_root d.entries)
              d₁
            ≡ (ok swept, d'))
  unfolding sweep_staging
  entries_swept {swept} {d'} e =
      let root = store.staging_root in
      let op : String = "read staging directory" in
      let (listing, d₁, e₁, r₁) = bind-ok (read_dir op root) _ d e in
      let (names, d₂, e₂, r₂) = bind-ok (lift (ok_or listing (io op))) _ d₁ r₁ in
      let found = ok_or-eq_ok listing (io op) (ap (λ r. r.0) e₂) in
      let there : d₂ ≡ d₁ = ap (λ r. r.1) (sym e₂) in
      let (all, entries, clock) = read_dir-eq_some op root d (rw found at e₁) in
      (
        d₂,
        ap (λ d. d.entries) there ∙ entries,
        subst
            (λ c.
              sweep_entries root (c - older_than) no_sweep (child_names root d.entries) d₂
              ≡ (ok swept, d'))
            (ap (λ d. d.clock) there ∙ clock)
            (subst
              (λ ns. sweep_entries root (d₂.clock - older_than) no_sweep ns d₂ ≡ (ok swept, d')) all
              r₂),
      )

  -- When a sweep succeeds, no old file is left directly in the staging directory.
  pub sweep_staging_ok :
      {swept : StagingSweep} {d' : Disk}
      → sweep_staging store older_than d ≡ (ok swept, d')
      → (name : Text) → ¬ IsOld cutoff (lookup (store.staging_root ++ name ∷ []) d'.entries)
  sweep_staging_ok {swept} {d'} e name =
      let root = store.staging_root in
      let p = root ++ name ∷ [] in
      let (d₁, entries, run) = entries_swept {swept = swept} {d' = d'} e in
      let effect = subst (λ r. Swept root cutoff d.entries r.1.entries) e sweep_staging-Swept in
      λ old. elim (effect p) [
        | inr r ↦ IsOld-none cutoff _ r.gone old
        | inl same ↦
            let before : IsOld cutoff (lookup p d.entries) = subst (IsOld cutoff) same old in
            let listed = child_names-complete root name d.entries (IsOld-listed cutoff _ before) in
            IsOld-none cutoff _
              (sweep_entries_complete root cutoff no_sweep (child_names root d.entries) d₁
                {swept = swept} {d' = d'} name listed
                (subst (λ es. IsOld cutoff (lookup p es)) (sym entries) before) run)
              old
      ]

-- After a sweep that succeeded, a second sweep whose cutoff is not later, when it succeeds too, has
-- removed no file and counted no byte, and leaves the tree as it is.
pub sweep_staging_again :
    (store : FilesystemObjectStore) (older_than older_than' : ℕ) (d : Disk)
    {swept swept' : StagingSweep} {d' d'' : Disk}
    → d'.clock - older_than' ≤ d.clock - older_than
    → sweep_staging store older_than d ≡ (ok swept, d')
    → sweep_staging store older_than' d' ≡ (ok swept', d'')
    → (swept' ≡ no_sweep) × (d''.entries ≡ d'.entries)
sweep_staging_again store older_than older_than' d {swept} {swept'} {d'} {d''} h first second =
    let root = store.staging_root in
    let (d₁, entries, run) =
      entries_swept store older_than' d' {swept = swept'} {d' = d''} second in
    let clean = sweep_staging_ok store older_than d {swept = swept} {d' = d'} first in
    let (none_counted, same) =
      sweep_entries-clean root (d'.clock - older_than') no_sweep (child_names root d'.entries) d₁
        {swept = swept'} {d' = d''}
        (λ name old. clean name (
          IsOld-later _ _ _ h (
            subst (λ es. IsOld (d'.clock - older_than') (lookup (root ++ name ∷ []) es)) entries
              old)))
        run in
    (none_counted, same ∙ entries)
