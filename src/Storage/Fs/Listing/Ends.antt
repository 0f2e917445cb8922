-- ===== src/Storage/Fs/Listing/Ends.antt =====
-- The walk over the objects visits finitely many directories: its fuel lasts.
use otdel.Prelude.{
  ℕ, zero, suc, ◌+◌, ◌-◌, ◌*◌, ◌≤◌, ◌≡◌, refl, sym, ap, ◌∙◌, subst, ◌≢◌, ◌⊎◌, inl, inr, true, false,
  Option, none, some, List, [], ◌∷◌, ◌++◌, arith, ltb, leb, ◌==◌, if◌then◌else◌, Bool-cases, length,
  all, length-append, ok, err,
}
use otdel.Prelude.Text.{Text, join}
use otdel.Storage.Uuid.{UuidText}
use otdel.Storage.StorageError.{StorageError}
use otdel.Storage.Key.{ObjectKey, FilePath, parse}
use otdel.Storage.Disk.{Entry, file, dir, other, Entries, Disk, call, stat}
use otdel.Storage.Disk.Calls.{bind-ok, call-entries, stat-eq_ok}
use otdel.Storage.Disk.Directories.{child_names, read_dir, read_dir-entries, read_dir-eq_some}
use otdel.Storage.Fs.{FilesystemObjectStore}
use otdel.Storage.Fs.Listing.{
  ObjectListing, no_objects, Stack, Progress, going, stopped, push_key, examine, scan, scan_dir,
  weight, walk, list_objects,
}

child_names-length : (parent : FilePath) (es : Entries) → length (child_names parent es) ≤ length es
unfolding child_names
child_names-length parent [] = omega arith
child_names-length parent ((path, e) ∷ es) = ground (arith, child_names-length parent es)

-- How many directories the stack can still lead to.
abbrev size : ℕ → Stack → ℕ
size n [] = 0
size n ((path, prefix) ∷ stack) = weight n (3 - length prefix) + size n stack

abbrev stack_of : Progress → Stack
stack_of (going stack listing) = stack
stack_of (stopped listing) = []

pub Progress-cases :
    (p : Progress)
    → ((full : ObjectListing) × (p ≡ stopped full))
      ⊎ ((stack : Stack) × (listing : ObjectListing) × (p ≡ going stack listing))
Progress-cases (stopped full) = inl (full, refl)
Progress-cases (going stack listing) = inr (stack, listing, refl)

pub examine_dir :
    (U : UuidText) (limit : ℕ) (path : FilePath) (prefix : List Text) (name : Text) (stack : Stack)
    (listing : ObjectListing)
    → leb (length (prefix ++ name ∷ [])) 3 ≡ true
    → examine U limit path prefix name (some dir) stack listing
      ≡ going ((path ++ name ∷ [], prefix ++ name ∷ []) ∷ stack) listing
unfolding examine
examine_dir U limit path prefix name stack listing shallow = rw shallow

-- The three outcomes at a regular file.
module _ (U : UuidText) (limit : ℕ) (path : FilePath) (prefix : List Text) (name : Text)
    (bytes : List ℕ) (t : ℕ) (stack : Stack) (listing : ObjectListing) where
  pub examine_invalid :
      {failure : StorageError}
      → parse U (join (prefix ++ name ∷ []) b'/') ≡ err failure
      → examine U limit path prefix name (some (file bytes t)) stack listing ≡ going stack listing
  unfolding examine
  examine_invalid h = ground arith

  pub examine_full :
      {key : ObjectKey}
      → parse U (join (prefix ++ name ∷ []) b'/') ≡ ok key
      → leb limit (length (listing.keys ++ key ∷ [])) ≡ true
      → examine U limit path prefix name (some (file bytes t)) stack listing
        ≡ stopped (record { keys = listing.keys ++ key ∷ []; truncated = true })
  unfolding examine push_key
  examine_full h full = ground arith

  pub examine_more :
      {key : ObjectKey}
      → parse U (join (prefix ++ name ∷ []) b'/') ≡ ok key
      → leb limit (length (listing.keys ++ key ∷ [])) ≡ false
      → examine U limit path prefix name (some (file bytes t)) stack listing
        ≡ going stack (record listing { keys = listing.keys ++ key ∷ [] })
  unfolding examine push_key
  examine_more h more = ground arith

module _ (U : UuidText) (limit n : ℕ) (path : FilePath) (prefix : List Text) where
  -- What one entry can push.
  abbrev share : ℕ
  share = if ltb (length prefix) 3 then weight n (2 - length prefix) else 0

  examine-size :
      (name : Text) (found : Option Entry) (stack : Stack) (listing : ObjectListing)
      → size n (stack_of (examine U limit path prefix name found stack listing))
        ≤ size n stack + share
  unfolding examine push_key
  examine-size name none stack listing = omega arith
  examine-size name (some other) stack listing = omega arith
  examine-size name (some dir) stack listing =
      let len : length (prefix ++ name ∷ []) ≡ length prefix + 1 =
        omega (arith, length-append prefix (name ∷ [])) in
      let level : 3 - length (prefix ++ name ∷ []) ≡ 2 - length prefix = omega arith in
      ground (arith, ap (weight n) level)
  examine-size name (some (file bytes t)) stack listing = ground arith

  -- A directory with so many names pushes at most so much, and changes no entry.
  scan-size :
      (names : List Text) (stack : Stack) (listing : ObjectListing) (d : Disk) {p : Progress}
      {d' : Disk}
      → scan U limit path prefix names stack listing d ≡ (ok p, d')
      → (size n (stack_of p) ≤ size n stack + length names * share) × (d'.entries ≡ d.entries)
  unfolding scan
  scan-size [] stack listing d e = ground (arith, call-entries "iterate objects directory" d)
  scan-size (name ∷ names) stack listing d {p} {d'} e =
      let at = path ++ name ∷ [] in
      let (u, d₁, e₁, r₁) = bind-ok (call "iterate objects directory") _ d e in
      let (found, d₂, e₂, r₂) = bind-ok (stat "stat object entry" at) _ d₁ r₁ in
      let entries : d₂.entries ≡ d.entries =
        (stat-eq_ok "stat object entry" at d₁ e₂).1
        ∙ ap (λ r. r.1.entries) (sym e₁)
        ∙ call-entries "iterate objects directory" d in
      let grown = examine-size name found stack listing in
      elim (Progress-cases (examine U limit path prefix name found stack listing)) [
        | inl (full, same) ↦ ground (arith, r₂, entries)
        | inr (stack', listing', same) ↦
            let (rest, kept) =
              scan-size names stack' listing' d₂ {p = p} {d' = d'} (rw same at r₂) in
            (omega (arith, ap (λ q. size n (stack_of q)) same), kept ∙ entries)
      ]

  -- The weight of a directory pays for all that its names push, and for itself.
  share-weight : (names : ℕ) → names ≤ n → names * share + 1 ≤ weight n (3 - length prefix)
  share-weight names h = elim (Bool-cases (ltb (length prefix) 3)) [
    | inl below ↦
        let level : 3 - length prefix ≡ suc (2 - length prefix) = ground arith in
        let w = weight n (2 - length prefix) in rw (below, level) (grind arith)
    | inr deep ↦ let level : 3 - length prefix ≡ 0 = ground arith in rw (deep, level) (omega arith)
  ]

  scan_dir-size :
      (found : Option (List Text)) (stack : Stack) (listing : ObjectListing) (d : Disk) {d₁ : Disk}
      {p : Progress} {d' : Disk}
      → length d.entries ≤ n
      → read_dir "read objects directory" path d ≡ (ok found, d₁)
      → scan_dir U limit path prefix found stack listing d₁ ≡ (ok p, d')
      → (size n (stack_of p) + 1 ≤ size n stack + weight n (3 - length prefix))
        × (d'.entries ≡ d.entries)
  unfolding scan_dir
  scan_dir-size none stack listing d {d₁} {p} {d'} few e r =
      let some_weight = share-weight 0 (omega arith) in
      let same : d₁.entries ≡ d.entries =
        ap (λ r. r.1.entries) (sym e) ∙ read_dir-entries "read objects directory" path d in
      let left : size n (stack_of p) ≡ size n stack = ground arith in
      (omega (arith, some_weight, left), ap (λ r. r.1.entries) (sym r) ∙ same)
  scan_dir-size (some names) stack listing d {d₁} {p} {d'} few e r =
      let (all, same, _) = read_dir-eq_some "read objects directory" path d e in
      let (grown, kept) = scan-size names stack listing d₁ {p = p} {d' = d'} r in
      let pays =
        share-weight (length names)
          (omega (arith, child_names-length path d.entries, ap length all)) in
      (omega arith, kept ∙ same)

module _ (U : UuidText) (limit n : ℕ) where
  walk-ends :
      (fuel : ℕ) (stack : Stack) (listing : ObjectListing) (d : Disk) {d' : Disk}
      → size n stack ≤ fuel
      → length d.entries ≤ n
      → walk U limit fuel stack listing d ≢ (ok none, d')
  unfolding walk
  walk-ends fuel [] listing d h few e = ground (arith, e)
  walk-ends zero ((path, prefix) ∷ stack) listing d h few e =
      let own = share-weight U limit n path prefix 0 (omega arith) in absurd (omega arith)
  walk-ends (suc fuel) ((path, prefix) ∷ stack) listing d {d'} h few e =
      let (found, d₁, e₁, r₁) = bind-ok (read_dir "read objects directory" path) _ d e in
      let (p, d₂, e₂, r₂) = bind-ok (scan_dir U limit path prefix found stack listing) _ d₁ r₁ in
      let (falls, kept) = scan_dir-size U limit n path prefix found stack listing d few e₁ e₂ in
      elim (Progress-cases p) [
        | inl (full, same) ↦ ground (arith, rw same at r₂)
        | inr (stack', listing', same) ↦
            walk-ends fuel stack' listing' d₂ {d' = d'}
              (omega (arith, ap (λ q. size n (stack_of q)) same))
              (subst (λ es. length es ≤ n) (sym kept) few) (rw same at r₂)
      ]

-- The listing ends: it answers with a listing or with an error, never because its fuel ran out.
pub list_objects_ends :
    (U : UuidText) (limit : ℕ) (store : FilesystemObjectStore) (d d' : Disk)
    → list_objects U limit store d ≢ (ok none, d')
unfolding list_objects
list_objects_ends U limit store d d' e = elim (Bool-cases (limit == 0)) [
  | inl nothing ↦ ground (arith, rw nothing at e)
  | inr some_limit ↦
      walk-ends U limit (length d.entries) (weight (length d.entries) 3)
        ((store.objects_root, []) ∷ []) no_objects d {d' = d'} (omega arith) (omega arith)
        (rw some_limit at e)
]
