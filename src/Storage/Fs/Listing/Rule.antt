-- ===== src/Storage/Fs/Listing/Rule.antt =====
-- The invariant rule of the walk: what holds at the start and is kept by every entry holds at the end.
use otdel.Prelude.{
  ℕ, zero, suc, ◌≡◌, sym, ap, ◌∙◌, subst, ◌⊎◌, inl, inr, Option, none, some, List, [], ◌∷◌, ◌++◌,
  arith, all, ok,
}
use otdel.Prelude.Text.{Text}
use otdel.Storage.Uuid.{UuidText}
use otdel.Storage.Key.{FilePath}
use otdel.Storage.Disk.{Entries, Disk, lookup, call, stat}
use otdel.Storage.Disk.Calls.{bind-ok, call-entries, stat-eq_ok}
use otdel.Storage.Disk.Directories.{child_names, read_dir, read_dir-eq_some, read_dir-eq_none}
use otdel.Storage.Fs.Listing.{
  ObjectListing, Stack, Progress, going, stopped, examine, scan, scan_dir, walk,
}
use otdel.Storage.Fs.Listing.Ends.{Progress-cases}

-- Between two directories `At` holds, inside one `Inside` of the names that are left, at the limit
-- `Full`.
pub record Keeps (U : UuidText) (limit : ℕ) (es : Entries) (At : Stack → ObjectListing → Type 0)
    (Inside : FilePath → List Text → List Text → Stack → ObjectListing → Type 0)
    (Full : ObjectListing → Type 0) : Type 0 where
  pub enter :
      (path : FilePath) (prefix : List Text) (stack : Stack) (listing : ObjectListing)
      → At ((path, prefix) ∷ stack) listing
      → Inside path prefix (child_names path es) stack listing
  pub pass :
      (path : FilePath) (prefix : List Text) (stack : Stack) (listing : ObjectListing)
      → lookup path es ≡ none
      → At ((path, prefix) ∷ stack) listing
      → At stack listing
  pub keep :
      (path : FilePath) (prefix : List Text) (name : Text) (names : List Text) (stack : Stack)
      (listing : ObjectListing) (stack' : Stack) (listing' : ObjectListing)
      → Inside path prefix (name ∷ names) stack listing
      → examine U limit path prefix name (lookup (path ++ name ∷ []) es) stack listing
        ≡ going stack' listing'
      → Inside path prefix names stack' listing'
  pub stop :
      (path : FilePath) (prefix : List Text) (name : Text) (names : List Text) (stack : Stack)
      (listing full : ObjectListing)
      → Inside path prefix (name ∷ names) stack listing
      → examine U limit path prefix name (lookup (path ++ name ∷ []) es) stack listing
        ≡ stopped full
      → Full full
  pub leave :
      (path : FilePath) (prefix : List Text) (stack : Stack) (listing : ObjectListing)
      → Inside path prefix [] stack listing
      → At stack listing

module _ (U : UuidText) (limit : ℕ) (es : Entries) (At : Stack → ObjectListing → Type 0)
    (Inside : FilePath → List Text → List Text → Stack → ObjectListing → Type 0)
    (Full : ObjectListing → Type 0) (k : Keeps U limit es At Inside Full) where
  abbrev Holds : Progress → Type 0
  Holds (going stack listing) = At stack listing
  Holds (stopped full) = Full full

  scan-Holds :
      (path : FilePath) (prefix names : List Text) (stack : Stack) (listing : ObjectListing)
      (d : Disk) {p : Progress} {d' : Disk}
      → d.entries ≡ es
      → Inside path prefix names stack listing
      → scan U limit path prefix names stack listing d ≡ (ok p, d')
      → Holds p × (d'.entries ≡ es)
  unfolding scan
  scan-Holds path prefix [] stack listing d {p} {d'} same i e =
      let reached : p ≡ going stack listing = ground arith in
      (
        subst Holds (sym reached) (k.leave path prefix stack listing i),
        ground (arith, call-entries "iterate objects directory" d),
      )
  scan-Holds path prefix (name ∷ names) stack listing d {p} {d'} same i e =
      let at = path ++ name ∷ [] in
      let (u, d₁, e₁, r₁) = bind-ok (call "iterate objects directory") _ d e in
      let (found, d₂, e₂, r₂) = bind-ok (stat "stat object entry" at) _ d₁ r₁ in
      let (seen, still) = stat-eq_ok "stat object entry" at d₁ e₂ in
      let first : d₁.entries ≡ es =
        ap (λ r. r.1.entries) (sym e₁) ∙ call-entries "iterate objects directory" d ∙ same in
      let what : lookup at es ≡ found = ap (lookup at) (sym first) ∙ sym seen in
      elim (Progress-cases (examine U limit path prefix name found stack listing)) [
        | inl (full, eq) ↦
            let reached : p ≡ stopped full = ground (arith, rw eq at r₂) in
            (
              subst Holds (sym reached)
                  (k.stop path prefix name names stack listing full i (rw what eq)),
              ap (λ r. r.1.entries) (sym (rw eq at r₂)) ∙ still ∙ first,
            )
        | inr (stack', listing', eq) ↦
            scan-Holds path prefix names stack' listing' d₂ {p = p} {d' = d'} (still ∙ first)
              (k.keep path prefix name names stack listing stack' listing' i (rw what eq))
              (rw eq at r₂)
      ]

  scan_dir-Holds :
      (path : FilePath) (prefix : List Text) (found : Option (List Text)) (stack : Stack)
      (listing : ObjectListing) (d : Disk) {d₁ : Disk} {p : Progress} {d' : Disk}
      → d.entries ≡ es
      → At ((path, prefix) ∷ stack) listing
      → read_dir "read objects directory" path d ≡ (ok found, d₁)
      → scan_dir U limit path prefix found stack listing d₁ ≡ (ok p, d')
      → Holds p × (d'.entries ≡ es)
  unfolding scan_dir
  scan_dir-Holds path prefix none stack listing d {d₁} {p} {d'} same i e r =
      let (absent, still) = read_dir-eq_none "read objects directory" path d e in
      let reached : p ≡ going stack listing = ground arith in
      (
        subst Holds (sym reached)
            (k.pass path prefix stack listing (ap (lookup path) (sym same) ∙ absent) i),
        ap (λ r. r.1.entries) (sym r) ∙ still ∙ same,
      )
  scan_dir-Holds path prefix (some names) stack listing d {d₁} {p} {d'} same i e r =
      let (all, still, _) = read_dir-eq_some "read objects directory" path d e in
      let here : names ≡ child_names path es = all ∙ ap (child_names path) same in
      scan-Holds path prefix names stack listing d₁ {p = p} {d' = d'} (still ∙ same)
        (subst (λ ns. Inside path prefix ns stack listing) (sym here)
          (k.enter path prefix stack listing i))
        r

  pub walk-Holds :
      (fuel : ℕ) (stack : Stack) (listing : ObjectListing) (d : Disk) {out : ObjectListing}
      {d' : Disk}
      → d.entries ≡ es
      → At stack listing
      → walk U limit fuel stack listing d ≡ (ok (some out), d')
      → (Full out ⊎ At [] out) × (d'.entries ≡ es)
  unfolding walk
  walk-Holds fuel [] listing d {out} {d'} same i e =
      let reached : out ≡ listing = ground arith in
      (inr (subst (At []) (sym reached) i), ap (λ r. r.1.entries) (sym e) ∙ same)
  walk-Holds zero ((path, prefix) ∷ stack) listing d same i e = absurd (ground (arith, e))
  walk-Holds (suc fuel) ((path, prefix) ∷ stack) listing d {out} {d'} same i e =
      let (found, d₁, e₁, r₁) = bind-ok (read_dir "read objects directory" path) _ d e in
      let (p, d₂, e₂, r₂) = bind-ok (scan_dir U limit path prefix found stack listing) _ d₁ r₁ in
      let (holds, still) =
        scan_dir-Holds path prefix found stack listing d {p = p} {d' = d₂} same i e₁ e₂ in
      elim (Progress-cases p) [
        | inl (full, eq) ↦
            let reached : out ≡ full = ground (arith, rw eq at r₂) in
            (
              inl (subst Full (sym reached) (subst Holds eq holds)),
              ap (λ r. r.1.entries) (sym (rw eq at r₂)) ∙ still,
            )
        | inr (stack', listing', eq) ↦
            walk-Holds fuel stack' listing' d₂ {out = out} {d' = d'} still (subst Holds eq holds)
              (rw eq at r₂)
      ]
