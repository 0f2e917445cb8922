-- ===== src/Storage/Fs/Staging/Swept.antt =====
-- What a sweep of the staging directory removes, and what it never touches.
use otdel.Prelude.{
  ℕ, ◌≤◌, ◌≡◌, refl, sym, ap, ◌∙◌, subst, ◌⊎◌, inl, inr, false, Option, none, some, List, [], ◌∷◌,
  ◌++◌, arith, ltb, Bool-cases, length, ◌∈◌, ok,
}
use otdel.Prelude.Text.{Text}
use otdel.Storage.Key.{FilePath}
use otdel.Storage.Disk.{
  Entry, file, dir, other, Entries, Disk, Io, lookup, call, stat, remove_file, pure, ◌>>=◌,
}
use otdel.Storage.Disk.Calls.{
  bind-ok, bind_from, call-entries, stat-entries, stat-eq_ok, remove_file-cases, remove_file-eq_ok,
}
use otdel.Storage.Fs.Staging.{StagingSweep, counted, remove_old, sweep_entry, sweep_entries}

-- The entry is a regular file that is not younger than the cutoff.
abbrev pub IsOld : ℕ → Option Entry → Type 0
IsOld cutoff (some (file bytes modified)) = modified ≤ cutoff
IsOld cutoff (some dir) = ⊥
IsOld cutoff (some other) = ⊥
IsOld cutoff none = ⊥

module _ (root : FilePath) (cutoff : ℕ) where
  -- A path that lies directly in the directory and holds an old file is gone.
  pub record Removed (es es' : Entries) (q : FilePath) : Type 0 where
    pub name : Text
    pub place : q ≡ root ++ name ∷ []
    pub old : IsOld cutoff (lookup q es)
    pub gone : lookup q es' ≡ none

  -- Every path is as before, or was swept.
  abbrev pub Swept : Entries → Entries → Type 0
  Swept es es' = (q : FilePath) → (lookup q es' ≡ lookup q es) ⊎ Removed es es' q

  pub Swept-trans : (es es' es'' : Entries) → Swept es es' → Swept es' es'' → Swept es es''
  Swept-trans es es' es'' s t q = elim (s q) [
    | inl same ↦ elim (t q) [
      | inl same' ↦ inl (same' ∙ same)
      | inr r ↦ inr (record {
        name = r.name;
        place = r.place;
        old = subst (IsOld cutoff) same r.old;
        gone = r.gone;
      })
    ]
    | inr r ↦ elim (t q) [
      | inl same' ↦
          inr (record { name = r.name; place = r.place; old = r.old; gone = same' ∙ r.gone })
      | inr r' ↦ absurd (subst (IsOld cutoff) r.gone r'.old)
    ]
  ]

  -- A chain sweeps if its first part does, and the rest does from where that ends.
  pub bind_from_Swept :
      {A B : Type 0} (m : Io A) (f : A → Io B) (d : Disk)
      → Swept d.entries (m d).1.entries
      → ((a : A) (d' : Disk) → m d ≡ (ok a, d') → Swept d'.entries (f a d').1.entries)
      → Swept d.entries ((m >>= f) d).1.entries
  bind_from_Swept = bind_from Swept Swept-trans

  pub same-Swept : (es es' : Entries) → es' ≡ es → Swept es es'
  same-Swept es es' e q = inl (ap (lookup q) e)

  remove_file-Swept :
      (name : Text) (d : Disk)
      → IsOld cutoff (lookup (root ++ name ∷ []) d.entries)
      → Swept d.entries (remove_file "remove staging entry" (root ++ name ∷ []) d).1.entries
  remove_file-Swept name d old q =
      elim (remove_file-cases "remove staging entry" (root ++ name ∷ []) d q) [
        | inl same ↦ inl same
        | inr (e, gone) ↦ inr (record {
          name = name;
          place = sym e;
          old = subst (λ p. IsOld cutoff (lookup p d.entries)) e old;
          gone = gone;
        })
      ]

  remove_old-Swept :
      (name : Text) (sweep : StagingSweep) (size : ℕ) (d : Disk)
      → IsOld cutoff (lookup (root ++ name ∷ []) d.entries)
      → Swept d.entries (remove_old (root ++ name ∷ []) size sweep d).1.entries
  unfolding remove_old
  remove_old-Swept name sweep size d old =
      bind_from_Swept (remove_file "remove staging entry" (root ++ name ∷ [])) _ d
        (remove_file-Swept name d old) (λ a d' e. same-Swept d'.entries d'.entries refl)

  sweep_entry-Swept :
      (name : Text) (sweep : StagingSweep) (found : Option Entry) (d : Disk)
      → found ≡ lookup (root ++ name ∷ []) d.entries
      → Swept d.entries (sweep_entry cutoff (root ++ name ∷ []) sweep found d).1.entries
  unfolding sweep_entry remove_old
  sweep_entry-Swept name sweep none d seen q = inl refl
  sweep_entry-Swept name sweep (some dir) d seen q = inl refl
  sweep_entry-Swept name sweep (some other) d seen q = inl refl
  sweep_entry-Swept name sweep (some (file bytes modified)) d seen q =
      elim (Bool-cases (ltb cutoff modified)) [
        | inl young ↦ rw young (inl refl)
        | inr old ↦ rw old (
            remove_old-Swept name sweep (length bytes) d (subst (IsOld cutoff) seen (ground arith))
              q)
      ]

  pub sweep_entries-Swept :
      (sweep : StagingSweep) (names : List Text) (d : Disk)
      → Swept d.entries (sweep_entries root cutoff sweep names d).1.entries
  unfolding sweep_entries
  sweep_entries-Swept sweep [] d =
      bind_from_Swept (call "iterate staging directory") _ d
        (same-Swept _ _ (call-entries "iterate staging directory" d))
        (λ a d' e. same-Swept d'.entries d'.entries refl)
  sweep_entries-Swept sweep (name ∷ names) d =
      bind_from_Swept (call "iterate staging directory") _ d
        (same-Swept _ _ (call-entries "iterate staging directory" d))
        λ u d₁ e₁.
          bind_from_Swept (stat "stat staging entry" (root ++ name ∷ [])) _ d₁
            (same-Swept _ _ (stat-entries "stat staging entry" (root ++ name ∷ []) d₁))
            λ found d₂ e₂.
              let (seen, same) = stat-eq_ok "stat staging entry" (root ++ name ∷ []) d₁ e₂ in
              bind_from_Swept (sweep_entry cutoff (root ++ name ∷ []) sweep found) _ d₂
                (sweep_entry-Swept name sweep found d₂
                  (seen ∙ ap (lookup (root ++ name ∷ [])) (sym same)))
                λ swept d₃ e₃. sweep_entries-Swept swept names d₃

  -- What is gone stays gone.
  Swept-gone :
      (es es' : Entries) (q : FilePath) → Swept es es' → lookup q es ≡ none → lookup q es' ≡ none
  Swept-gone es es' q s h = elim (s q) [ inl same ↦ same ∙ h | inr r ↦ r.gone ]

  sweep_entry-eq_ok :
      (name : Text) (sweep : StagingSweep) (found : Option Entry) (d : Disk) {swept : StagingSweep}
      {d' : Disk}
      → IsOld cutoff found
      → sweep_entry cutoff (root ++ name ∷ []) sweep found d ≡ (ok swept, d')
      → lookup (root ++ name ∷ []) d'.entries ≡ none
  unfolding sweep_entry remove_old
  sweep_entry-eq_ok name sweep none d old e = absurd old
  sweep_entry-eq_ok name sweep (some dir) d old e = absurd old
  sweep_entry-eq_ok name sweep (some other) d old e = absurd old
  sweep_entry-eq_ok name sweep (some (file bytes modified)) d {swept} {d'} old e =
      let young : ltb cutoff modified ≡ false = ground arith in
      let (found, d₁, e₁, e₂) =
        bind-ok (remove_file "remove staging entry" (root ++ name ∷ []))
          (λ found. pure (counted (length bytes) sweep found)) d {b = swept} {d' = d'}
          (rw young at e) in
      ap (λ r. lookup (root ++ name ∷ []) r.1.entries) (sym e₂)
      ∙ remove_file-eq_ok "remove staging entry" (root ++ name ∷ []) d e₁

  -- A sweep that returns has removed every old file that was listed.
  pub sweep_entries_complete :
      (sweep : StagingSweep) (names : List Text) (d : Disk) {swept : StagingSweep} {d' : Disk}
      (name : Text)
      → name ∈ names
      → IsOld cutoff (lookup (root ++ name ∷ []) d.entries)
      → sweep_entries root cutoff sweep names d ≡ (ok swept, d')
      → lookup (root ++ name ∷ []) d'.entries ≡ none
  unfolding sweep_entries
  sweep_entries_complete sweep [] d name m old e = absurd m
  sweep_entries_complete sweep (first ∷ names) d {swept} {d'} name m old e =
      let p = root ++ name ∷ [] in
      let at = root ++ first ∷ [] in
      let (u, d₁, e₁, r₁) = bind-ok (call "iterate staging directory") _ d e in
      let (found, d₂, e₂, r₂) = bind-ok (stat "stat staging entry" at) _ d₁ r₁ in
      let (now, d₃, e₃, r₃) = bind-ok (sweep_entry cutoff at sweep found) _ d₂ r₂ in
      let (seen, same) = stat-eq_ok "stat staging entry" at d₁ e₂ in
      let before : d₂.entries ≡ d.entries =
        same ∙ ap (λ r. r.1.entries) (sym e₁) ∙ call-entries "iterate staging directory" d in
      let old' : IsOld cutoff (lookup p d₂.entries) =
        subst (λ es. IsOld cutoff (lookup p es)) (sym before) old in
      let step = sweep_entry-Swept first sweep found d₂ (seen ∙ ap (lookup at) (sym same)) in
      let step' : Swept d₂.entries d₃.entries = subst (λ r. Swept d₂.entries r.1.entries) e₃ step in
      let rest : Swept d₃.entries d'.entries =
        subst (λ r. Swept d₃.entries r.1.entries) r₃ (sweep_entries-Swept now names d₃) in
      elim m [
        | inl e ↦ Swept-gone d₃.entries d'.entries p rest (
            ap (λ n. lookup (root ++ n ∷ []) d₃.entries) e
            ∙ sweep_entry-eq_ok first sweep found d₂
                (subst (IsOld cutoff)
                  (ap (λ n. lookup (root ++ n ∷ []) d₂.entries) e ∙ ap (lookup at) same ∙ sym seen)
                  old')
                e₃)
        | inr later ↦ elim (step' p) [
          | inl kept ↦
              sweep_entries_complete now names d₃ name later (subst (IsOld cutoff) (sym kept) old')
                r₃
          | inr r ↦ Swept-gone d₃.entries d'.entries p rest r.gone
        ]
      ]

  sweep_entry-clean :
      (name : Text) (sweep : StagingSweep) (found : Option Entry) (d : Disk) {swept : StagingSweep}
      {d' : Disk}
      → ¬ IsOld cutoff found
      → sweep_entry cutoff (root ++ name ∷ []) sweep found d ≡ (ok swept, d')
      → (swept ≡ sweep) × (d'.entries ≡ d.entries)
  unfolding sweep_entry
  sweep_entry-clean name sweep none d young e = ground arith
  sweep_entry-clean name sweep (some dir) d young e = ground arith
  sweep_entry-clean name sweep (some other) d young e = ground arith
  sweep_entry-clean name sweep (some (file bytes modified)) d young e = ground arith

  -- If nothing in the directory is old, a sweep counts nothing and changes nothing.
  pub sweep_entries-clean :
      (sweep : StagingSweep) (names : List Text) (d : Disk) {swept : StagingSweep} {d' : Disk}
      → ((name : Text) → ¬ IsOld cutoff (lookup (root ++ name ∷ []) d.entries))
      → sweep_entries root cutoff sweep names d ≡ (ok swept, d')
      → (swept ≡ sweep) × (d'.entries ≡ d.entries)
  unfolding sweep_entries
  sweep_entries-clean sweep [] d clean e =
      ground (arith, call-entries "iterate staging directory" d)
  sweep_entries-clean sweep (first ∷ names) d {swept} {d'} clean e =
      let at = root ++ first ∷ [] in
      let (u, d₁, e₁, r₁) = bind-ok (call "iterate staging directory") _ d e in
      let (found, d₂, e₂, r₂) = bind-ok (stat "stat staging entry" at) _ d₁ r₁ in
      let (now, d₃, e₃, r₃) = bind-ok (sweep_entry cutoff at sweep found) _ d₂ r₂ in
      let (seen, same) = stat-eq_ok "stat staging entry" at d₁ e₂ in
      let before : d₂.entries ≡ d.entries =
        same ∙ ap (λ r. r.1.entries) (sym e₁) ∙ call-entries "iterate staging directory" d in
      let d₁d : d₁.entries ≡ d.entries = sym same ∙ before in
      let (kept, still) =
        sweep_entry-clean first sweep found d₂
          (λ old. clean first (subst (IsOld cutoff) (seen ∙ ap (lookup at) d₁d) old)) e₃ in
      let same₃ : d₃.entries ≡ d.entries = still ∙ before in
      let (kept', still') =
        sweep_entries-clean now names d₃
          (λ name old.
            clean name (subst (λ es. IsOld cutoff (lookup (root ++ name ∷ []) es)) same₃ old))
          r₃ in
      (kept' ∙ kept, still' ∙ same₃)
