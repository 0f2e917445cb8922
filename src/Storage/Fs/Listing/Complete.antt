-- ===== src/Storage/Fs/Listing/Complete.antt =====
-- A listing that was not cut off holds every object of the tree.
use otdel.Prelude.{
  ℕ, ◌+◌, ◌<◌, ◌≡◌, refl, sym, ap, ◌∙◌, subst, ◌≢◌, ◌⊎◌, inl, inr, true, false, Option, none, some,
  List, [], ◌∷◌, ◌++◌, append_assoc, arith, leb, ◌==◌, Bool-cases, length, ◌∈◌, ∈-append_left,
  ∈-append_right, length-append, ok, Result-cases,
}
use otdel.Prelude.Text.{Text, split, join, join-split}
use otdel.Storage.Uuid.{UuidText}
use otdel.Storage.Key.{ObjectKey, FilePath, parse}
use otdel.Storage.Key.Paths.{resolve_within-parse}
use otdel.Storage.Disk.{Entry, file, dir, other, Entries, Disk, lookup}
use otdel.Storage.Disk.Directories.{child_names, child_names-complete}
use otdel.Storage.Fs.{FilesystemObjectStore}
use otdel.Storage.Fs.Listing.{
  ObjectListing, no_objects, Stack, Progress, going, stopped, examine, weight, walk, list_objects,
}
use otdel.Storage.Fs.Listing.Ends.{examine_dir, examine_invalid, examine_full, examine_more}
use otdel.Storage.Fs.Listing.Rule.{Keeps, walk-Holds}

abbrev keys_of : Progress → List ObjectKey
keys_of (going stack listing) = listing.keys
keys_of (stopped listing) = listing.keys

abbrev stack_of : Progress → Stack
stack_of (going stack listing) = stack
stack_of (stopped listing) = []

module _ (es : Entries) where
  -- From the directory `at` the names lead through directories to a regular file.
  abbrev pub LeadsToFile : FilePath → List Text → Type 0
  LeadsToFile at [] = ⊥
  LeadsToFile at (name ∷ []) =
      (bytes : List ℕ) × (t : ℕ) × (lookup (at ++ name ∷ []) es ≡ some (file bytes t))
  LeadsToFile at (name ∷ next ∷ rest) =
      (lookup (at ++ name ∷ []) es ≡ some dir) × LeadsToFile (at ++ name ∷ []) (next ∷ rest)

  first-entry :
      (at : FilePath) (name : Text) (rest : List Text)
      → LeadsToFile at (name ∷ rest)
      → lookup (at ++ name ∷ []) es ≢ none
  first-entry at name [] (bytes, t, e) h = cc
  first-entry at name (next ∷ rest) (e, leads) h = cc

  module _ (U : UuidText) (limit : ℕ) (parts : List Text) (key : ObjectKey)
      (parsed : parse U (join parts b'/') ≡ ok key) (four : length parts ≡ 4) where
    -- The object lies below the directory.
    Covers : FilePath × List Text → Type 0
    Covers (path, prefix) =
        (lookup path es ≡ some dir)
        × (rest : List Text) × (prefix ++ rest ≡ parts)
        × LeadsToFile path rest

    abbrev Waits : Stack → Type 0
    Waits [] = ⊥
    Waits (item ∷ stack) = Covers item ⊎ Waits stack

    -- The object lies at or below one of the names that are left.
    Here : FilePath → List Text → List Text → Type 0
    Here path prefix names =
        (name : Text) × (rest : List Text) × (prefix ++ name ∷ rest ≡ parts)
        × LeadsToFile path (name ∷ rest)
        × (name ∈ names)

    abbrev At : Stack → ObjectListing → Type 0
    At stack listing = (listing.truncated ≡ false) × ((key ∈ listing.keys) ⊎ Waits stack)

    abbrev Inside : FilePath → List Text → List Text → Stack → ObjectListing → Type 0
    Inside path prefix names stack listing =
        (listing.truncated ≡ false) × ((key ∈ listing.keys) ⊎ Waits stack ⊎ Here path prefix names)

    abbrev Full : ObjectListing → Type 0
    Full listing = listing.truncated ≡ true

    enter-Inside :
        (path : FilePath) (prefix : List Text) (stack : Stack) (listing : ObjectListing)
        → At ((path, prefix) ∷ stack) listing
        → Inside path prefix (child_names path es) stack listing
    unfolding Covers Here
    enter-Inside path prefix stack listing (open_end, inl held) = (open_end, inl held)
    enter-Inside path prefix stack listing (open_end, inr (inr waits)) = (open_end, inr (inl waits))
    enter-Inside path prefix stack listing (open_end, inr (inl (there, [], e, leads))) =
        absurd leads
    enter-Inside path prefix stack listing (open_end, inr (inl (there, name ∷ rest, e, leads))) = (
      open_end,
      inr (
          inr (
            name,
            rest,
            e,
            leads,
            child_names-complete path name es (first-entry path name rest leads),
          )),
    )

    pass-At :
        (path : FilePath) (prefix : List Text) (stack : Stack) (listing : ObjectListing)
        → lookup path es ≡ none
        → At ((path, prefix) ∷ stack) listing
        → At stack listing
    unfolding Covers
    pass-At path prefix stack listing gone (open_end, inl held) = (open_end, inl held)
    pass-At path prefix stack listing gone (open_end, inr (inr waits)) = (open_end, inr waits)
    pass-At path prefix stack listing gone (open_end, inr (inl (there, rest, e, leads))) =
        absurd (cc (sym gone ∙ there))

    -- An entry loses nothing that is listed or waits, and only the end at the limit is a cut.
    abbrev Grows : Stack → ObjectListing → Progress → Type 0
    Grows stack listing (going stack' listing') =
        (listing'.truncated ≡ listing.truncated)
        × ((key ∈ listing.keys) → (key ∈ listing'.keys))
        × (Waits stack → Waits stack')
    Grows stack listing (stopped full) = full.truncated ≡ true

    examine-Grows :
        (path : FilePath) (prefix : List Text) (name : Text) (found : Option Entry) (stack : Stack)
        (listing : ObjectListing)
        → Grows stack listing (examine U limit path prefix name found stack listing)
    unfolding examine
    examine-Grows path prefix name none stack listing = (refl, λ m. m, λ w. w)
    examine-Grows path prefix name (some other) stack listing = (refl, λ m. m, λ w. w)
    examine-Grows path prefix name (some dir) stack listing =
        elim (Bool-cases (leb (length (prefix ++ name ∷ [])) 3)) [
          | inl shallow ↦ rw shallow (refl, λ m. m, λ w. inr w)
          | inr deep ↦ rw deep (refl, λ m. m, λ w. w)
        ]
    examine-Grows path prefix name (some (file bytes t)) stack listing =
        elim (Result-cases (parse U (join (prefix ++ name ∷ []) b'/'))) [
          | inr (failure, bad) ↦
              subst (Grows stack listing)
                (sym (examine_invalid U limit path prefix name bytes t stack listing bad))
                (refl, λ m. m, λ w. w)
          | inl (found, good) ↦
              elim (Bool-cases (leb limit (length (listing.keys ++ found ∷ [])))) [
                | inl full ↦
                    subst (Grows stack listing)
                      (sym (examine_full U limit path prefix name bytes t stack listing good full))
                      refl
                | inr more ↦
                    subst (Grows stack listing)
                      (sym (examine_more U limit path prefix name bytes t stack listing good more))
                      (refl, λ m. ∈-append_left key listing.keys (found ∷ []) m, λ w. w)
              ]
        ]

    -- The entry that leads to the object lists it or lets it wait.
    examine-reaches :
        (path : FilePath) (prefix : List Text) (name : Text) (rest : List Text) (stack : Stack)
        (listing : ObjectListing) (stack' : Stack) (listing' : ObjectListing)
        → prefix ++ name ∷ rest ≡ parts
        → LeadsToFile path (name ∷ rest)
        → examine U limit path prefix name (lookup (path ++ name ∷ []) es) stack listing
          ≡ going stack' listing'
        → (key ∈ listing'.keys) ⊎ Waits stack'
    unfolding Covers
    examine-reaches path prefix name [] stack listing stack' listing' place (bytes, t, seen) e =
        let parsed' : parse U (join (prefix ++ name ∷ []) b'/') ≡ ok key = rw place parsed in
        let e' = rw seen at e in
        elim (Bool-cases (leb limit (length (listing.keys ++ key ∷ [])))) [
          | inl full ↦ ground (
            arith,
            sym (examine_full U limit path prefix name bytes t stack listing parsed' full) ∙ e',
          )
          | inr more ↦
              subst (λ q. (key ∈ keys_of q) ⊎ Waits stack')
                (sym (examine_more U limit path prefix name bytes t stack listing parsed' more)
                  ∙ e')
                (inl (∈-append_right key listing.keys (key ∷ []) (inl refl)))
        ]
    examine-reaches path prefix name (next ∷ rest) stack listing stack' listing' place (seen, leads)
          e =
        let long : length parts ≡ length prefix + length (name ∷ next ∷ rest) =
          ap length (sym place) ∙ length-append prefix (name ∷ next ∷ rest) in
        let shallow : leb (length (prefix ++ name ∷ [])) 3 ≡ true =
          ground (arith, length-append prefix (name ∷ [])) in
        subst (λ q. (key ∈ listing'.keys) ⊎ Waits (stack_of q))
          (sym (examine_dir U limit path prefix name stack listing shallow) ∙ rw seen at e)
          (inr
            (inl (seen, next ∷ rest, append_assoc prefix (name ∷ []) (next ∷ rest) ∙ place, leads)))

    keep-Inside :
        (path : FilePath) (prefix : List Text) (name : Text) (names : List Text) (stack : Stack)
        (listing : ObjectListing) (stack' : Stack) (listing' : ObjectListing)
        → Inside path prefix (name ∷ names) stack listing
        → examine U limit path prefix name (lookup (path ++ name ∷ []) es) stack listing
          ≡ going stack' listing'
        → Inside path prefix names stack' listing'
    unfolding Here
    keep-Inside path prefix name names stack listing stack' listing' (open_end, i) e =
        let (same, more, later) =
          subst (Grows stack listing) e
            (examine-Grows path prefix name (lookup (path ++ name ∷ []) es) stack listing) in
        (
          same ∙ open_end,
          elim i [
            | inl held ↦ inl (more held)
            | inr (inl waits) ↦ inr (inl (later waits))
            | inr (inr (name', rest, place, leads, inr m)) ↦
                inr (inr (name', rest, place, leads, m))
            | inr (inr (name', rest, place, leads, inl this)) ↦
                elim (examine-reaches path prefix name rest stack listing stack' listing'
                  (subst (λ n. prefix ++ n ∷ rest ≡ parts) this place)
                  (subst (λ n. LeadsToFile path (n ∷ rest)) this leads) e) [
                    | inl held ↦ inl held
                    | inr waits ↦ inr (inl waits)
                  ]
          ],
        )

    leave-At :
        (path : FilePath) (prefix : List Text) (stack : Stack) (listing : ObjectListing)
        → Inside path prefix [] stack listing
        → At stack listing
    unfolding Here
    leave-At path prefix stack listing (open_end, inl held) = (open_end, inl held)
    leave-At path prefix stack listing (open_end, inr (inl waits)) = (open_end, inr waits)
    leave-At path prefix stack listing (open_end, inr (inr (name, rest, place, leads, m))) =
        absurd m

    walk-Keeps : Keeps U limit es At Inside Full
    walk-Keeps = record {
      enter = enter-Inside;
      pass = pass-At;
      keep = keep-Inside;
      stop = λ path prefix name names stack listing full i e.
          subst (Grows stack listing) e
            (examine-Grows path prefix name (lookup (path ++ name ∷ []) es) stack listing);
      leave = leave-At;
    }

    walk-complete :
        (fuel : ℕ) (root : FilePath) (d : Disk) {out : ObjectListing} {d' : Disk}
        → lookup root es ≡ some dir
        → LeadsToFile root parts
        → d.entries ≡ es
        → out.truncated ≡ false
        → walk U limit fuel ((root, []) ∷ []) no_objects d ≡ (ok (some out), d')
        → key ∈ out.keys
    unfolding Covers
    walk-complete fuel root d {out} {d'} there leads same open_end e =
        elim (walk-Holds U limit es At Inside Full walk-Keeps fuel ((root, []) ∷ []) no_objects d
          {out = out} {d' = d'} same (refl, inr (inl (there, parts, refl, leads))) e).0 [
            | inl cut ↦ cc (sym cut ∙ open_end)
            | inr (still, inl held) ↦ held
            | inr (still, inr waits) ↦ absurd waits
          ]

-- A listing under a positive limit that is not marked as truncated holds every key that leads from the
-- objects directory through directories to a regular file.
pub list_objects_complete :
    (U : UuidText) (limit : ℕ) (store : FilesystemObjectStore) (d : Disk) {out : ObjectListing}
    {d' : Disk} (raw : Text) (key : ObjectKey)
    → 0 < limit
    → lookup store.objects_root d.entries ≡ some dir
    → list_objects U limit store d ≡ (ok (some out), d')
    → out.truncated ≡ false
    → parse U raw ≡ ok key
    → LeadsToFile d.entries store.objects_root (split raw b'/')
    → key ∈ out.keys
unfolding list_objects
list_objects_complete U limit store d {out} {d'} raw key some_limit there e open_end parsed leads =
    let more : limit == 0 ≡ false = ground arith in
    walk-complete d.entries U limit (split raw b'/') key
      (subst (λ r. parse U r ≡ ok key) (sym (join-split raw b'/')) parsed)
      (resolve_within-parse U raw store.objects_root parsed).1 (weight (length d.entries) 3)
      store.objects_root d {out = out} {d' = d'} there leads refl open_end (rw more at e)
