-- ===== src/Storage/Fs/Listing/Listed.antt =====
-- What the listing holds: at most `limit` keys, each of which leads to a regular file.
use otdel.Prelude.{
  ◌⊎◌, ℕ, ◌≤◌, ◌<◌, ◌≡◌, refl, sym, ap, ◌∙◌, subst, ◌≢◌, inl, inr, true, false, Option, none, some,
  List, [], ◌∷◌, ◌++◌, append_assoc, append-nil, arith, leb, ◌==◌, Bool-cases, Option-cases, length,
  length-append, All, ok, Result-cases,
}
use otdel.Prelude.Text.{Text, split, join, Lacks, split_of_Lacks, split-append}
use otdel.Storage.Uuid.{UuidText}
use otdel.Storage.Key.{ObjectKey, FilePath, parse, resolve_within}
use otdel.Storage.Key.Paths.{resolve_within-parse}
use otdel.Storage.Disk.{Entry, file, dir, other, Entries, Disk, lookup}
use otdel.Storage.Disk.Directories.{
  child_name-eq_some, child_names_skip, child_names_take, child_names, child_name,
}
use otdel.Storage.Fs.{FilesystemObjectStore}
use otdel.Storage.Fs.Listing.{
  ObjectListing, no_objects, Stack, Progress, going, stopped, push_key, examine, weight,
  list_objects,
}
use otdel.Storage.Fs.Listing.Ends.{examine_invalid, examine_full, examine_more}
use otdel.Storage.Fs.Listing.Rule.{Keeps, walk-Holds}

-- Every name in the tree is one path segment, as the operating system guarantees.
abbrev pub HasSegments : Entries → Type 0
HasSegments es = (parent : FilePath) → All (Lacks b'/') (child_names parent es)

All-last :
    (parent : FilePath) (name : Text) → All (Lacks b'/') (parent ++ name ∷ []) → Lacks b'/' name
All-last [] name (l, ls) = l
All-last (s ∷ parent) name (l, ls) = All-last parent name ls

-- It is enough that every path is made of segments.
pub Lacks-HasSegments :
    (es : Entries)
    → All (λ (entry : FilePath × Entry). All (Lacks b'/') entry.0) es
    → HasSegments es
unfolding child_names
Lacks-HasSegments [] h parent = tt
Lacks-HasSegments ((path, e) ∷ es) (l, ls) parent = elim (Option-cases (child_name parent path)) [
  | inl other_place ↦
      subst (All (Lacks b'/')) (sym (child_names_skip parent path e es other_place))
        (Lacks-HasSegments es ls parent)
  | inr (name, here) ↦ subst (All (Lacks b'/')) (sym (child_names_take parent path e es here)) (
    All-last parent name (subst (All (Lacks b'/')) (child_name-eq_some parent path here) l),
    Lacks-HasSegments es ls parent,
  )
]

split-join : (ps : List Text) → ps ≢ [] → All (Lacks b'/') ps → split (join ps b'/') b'/' ≡ ps
unfolding join
split-join [] h lacks = absurd (h refl)
split-join (p ∷ []) h (l, ls) = split_of_Lacks p b'/' l
split-join (p ∷ q ∷ ps) h (l, ls) =
    split-append p (join (q ∷ ps) b'/') b'/' l ∙ ap (λ r. p ∷ r) (split-join (q ∷ ps) (λ e. cc) ls)

append-ne-nil : (ps : List Text) (p : Text) → ps ++ p ∷ [] ≢ []
append-ne-nil [] p e = cc
append-ne-nil (q ∷ ps) p e = cc

All-snoc :
    (ps : List Text) (p : Text)
    → All (Lacks b'/') ps
    → Lacks b'/' p
    → All (Lacks b'/') (ps ++ p ∷ [])
All-snoc [] p h l = (l, tt)
All-snoc (q ∷ ps) p (h, hs) l = (h, All-snoc ps p hs l)

parse-raw : (U : UuidText) (raw : Text) {key : ObjectKey} → parse U raw ≡ ok key → key.raw ≡ raw
unfolding parse
parse-raw U raw h = ground arith

module _ (U : UuidText) (limit : ℕ) (root : FilePath) (es : Entries) where
  -- A key that parses and leads to a regular file.
  abbrev pub IsStored : ObjectKey → Type 0
  IsStored key =
      (parse U key.raw ≡ ok key)
      × (place : FilePath) × (resolve_within key root ≡ ok place)
      × (bytes : List ℕ) × (t : ℕ) × (lookup place es ≡ some (file bytes t))

  abbrev Located : FilePath × List Text → Type 0
  Located (path, prefix) = (path ≡ root ++ prefix) × All (Lacks b'/') prefix

  -- A state of the walk: what is listed is stored, within the limit, and the stack names places.
  record Inv (stack : Stack) (listing : ObjectListing) : Type 0 where
    stored : All IsStored listing.keys
    within : length listing.keys < limit
    open_end : listing.truncated ≡ false
    located : All Located stack

  -- The end at the limit.
  record Full (listing : ObjectListing) : Type 0 where
    stored : All IsStored listing.keys
    full : length listing.keys ≡ limit
    closed : listing.truncated ≡ true

  abbrev pending : Progress → Stack → Stack
  pending (going stack listing) rest = stack
  pending (stopped listing) rest = rest

  abbrev listing_of : Progress → ObjectListing → ObjectListing
  listing_of (going stack listing) rest = listing
  listing_of (stopped listing) rest = listing

  abbrev Inside : FilePath → List Text → List Text → Stack → ObjectListing → Type 0
  Inside path prefix names stack listing =
      Inv stack listing × Located (path, prefix) × All (Lacks b'/') names

  All-push :
      (keys : List ObjectKey) (key : ObjectKey)
      → All IsStored keys
      → IsStored key
      → All IsStored (keys ++ key ∷ [])
  All-push [] key h k = (k, tt)
  All-push (first ∷ keys) key (h, hs) k = (h, All-push keys key hs k)

  below :
      (path : FilePath) (prefix : List Text) (name : Text)
      → path ≡ root ++ prefix
      → root ++ (prefix ++ name ∷ []) ≡ path ++ name ∷ []
  below path prefix name place =
      sym (ap (λ q. q ++ name ∷ []) place ∙ append_assoc root prefix (name ∷ []))

  -- A regular file whose segments form a key is stored under it.
  found-IsStored :
      (path : FilePath) (prefix : List Text) (name : Text) (bytes : List ℕ) (t : ℕ)
      (key : ObjectKey)
      → Located (path, prefix)
      → Lacks b'/' name
      → lookup (path ++ name ∷ []) es ≡ some (file bytes t)
      → parse U (join (prefix ++ name ∷ []) b'/') ≡ ok key
      → IsStored key
  found-IsStored path prefix name bytes t key (place, lacks) l seen parsed =
      let raw = join (prefix ++ name ∷ []) b'/' in
      let mine : key.raw ≡ raw = parse-raw U raw parsed in
      let resolved = (resolve_within-parse U raw root parsed).0 in
      let parts =
        split-join (prefix ++ name ∷ []) (append-ne-nil prefix name)
          (All-snoc prefix name lacks l) in
      (
        subst (λ q. parse U q ≡ ok key) (sym mine) parsed,
        root ++ (prefix ++ name ∷ []),
        resolved ∙ ap (λ r. ok (root ++ r)) parts,
        bytes,
        t,
        ap (λ q. lookup q es) (below path prefix name place) ∙ seen,
      )

  examine-Inv :
      (path : FilePath) (prefix : List Text) (name : Text) (found : Option Entry) (stack : Stack)
      (listing : ObjectListing) (stack' : Stack) (listing' : ObjectListing)
      → lookup (path ++ name ∷ []) es ≡ found
      → Inv stack listing
      → Located (path, prefix)
      → Lacks b'/' name
      → examine U limit path prefix name found stack listing ≡ going stack' listing'
      → Inv stack' listing'
  unfolding examine push_key
  examine-Inv path prefix name none stack listing stack' listing' seen i located l e =
      subst (λ q. Inv (pending q stack) (listing_of q listing)) e i
  examine-Inv path prefix name (some other) stack listing stack' listing' seen i located l e =
      subst (λ q. Inv (pending q stack) (listing_of q listing)) e i
  examine-Inv path prefix name (some dir) stack listing stack' listing' seen i (place, lacks) l e =
      subst (λ q. Inv (pending q stack) (listing_of q listing)) e
        (elim (Bool-cases (leb (length (prefix ++ name ∷ [])) 3)) [
          | inl shallow ↦ rw shallow (record {
            stored = i.stored;
            within = i.within;
            open_end = i.open_end;
            located =
                ((sym (below path prefix name place), All-snoc prefix name lacks l), i.located);
          })
          | inr deep ↦ rw deep i
        ])
  examine-Inv path prefix name (some (file bytes t)) stack listing stack' listing' seen i located l
        e =
      elim (Result-cases (parse U (join (prefix ++ name ∷ []) b'/'))) [
        | inr (failure, bad) ↦
            subst (λ q. Inv (pending q stack) (listing_of q listing))
              (sym (examine_invalid U limit path prefix name bytes t stack listing bad) ∙ e) i
        | inl (key, parsed) ↦ elim (Bool-cases (leb limit (length (listing.keys ++ key ∷ [])))) [
          | inl full ↦ ground (
            arith,
            sym (examine_full U limit path prefix name bytes t stack listing parsed full) ∙ e,
          )
          | inr more ↦
              subst (λ q. Inv (pending q stack) (listing_of q listing))
                (sym (examine_more U limit path prefix name bytes t stack listing parsed more) ∙ e)
                (record {
                  stored =
                      All-push listing.keys key i.stored
                        (found-IsStored path prefix name bytes t key located l seen parsed);
                  within = ground arith;
                  open_end = i.open_end;
                  located = i.located;
                })
        ]
      ]

  examine-Full :
      (path : FilePath) (prefix : List Text) (name : Text) (found : Option Entry) (stack : Stack)
      (listing full : ObjectListing)
      → lookup (path ++ name ∷ []) es ≡ found
      → Inv stack listing
      → Located (path, prefix)
      → Lacks b'/' name
      → examine U limit path prefix name found stack listing ≡ stopped full
      → Full full
  unfolding examine push_key
  examine-Full path prefix name none stack listing full seen i located l e = ground (arith, e)
  examine-Full path prefix name (some other) stack listing full seen i located l e =
      ground (arith, e)
  examine-Full path prefix name (some dir) stack listing full seen i located l e = ground (arith, e)
  examine-Full path prefix name (some (file bytes t)) stack listing full seen i located l e =
      elim (Result-cases (parse U (join (prefix ++ name ∷ []) b'/'))) [
        | inr (failure, bad) ↦
            ground
              (arith, sym (examine_invalid U limit path prefix name bytes t stack listing bad) ∙ e)
        | inl (key, parsed) ↦ elim (Bool-cases (leb limit (length (listing.keys ++ key ∷ [])))) [
          | inr more ↦ ground (
            arith,
            sym (examine_more U limit path prefix name bytes t stack listing parsed more) ∙ e,
          )
          | inl reached ↦
              subst (λ q. Full (listing_of q listing))
                (sym (examine_full U limit path prefix name bytes t stack listing parsed reached)
                  ∙ e)
                (record {
                  stored =
                      All-push listing.keys key i.stored
                        (found-IsStored path prefix name bytes t key located l seen parsed);
                  full = ground (arith, i.within, length-append listing.keys (key ∷ []));
                  closed = refl;
                })
        ]
      ]

  walk-Keeps : HasSegments es → Keeps U limit es Inv Inside Full
  walk-Keeps segments = record {
    enter = λ path prefix stack listing i. (
      record { stored = i.stored; within = i.within; open_end = i.open_end; located = i.located.1 },
      i.located.0,
      segments path,
    );
    pass = λ path prefix stack listing gone i. record {
      stored = i.stored;
      within = i.within;
      open_end = i.open_end;
      located = i.located.1;
    };
    keep = λ path prefix name names stack listing stack' listing' (i, located, (l, ls)) e. (
      examine-Inv path prefix name (lookup (path ++ name ∷ []) es) stack listing stack' listing'
          refl i located l e,
      located,
      ls,
    );
    stop = λ path prefix name names stack listing full (i, located, (l, ls)) e.
        examine-Full path prefix name (lookup (path ++ name ∷ []) es) stack listing full refl i
          located l e;
    leave = λ path prefix stack listing (i, located, ls). i;
  }

-- What a listing that returns says.
pub record Listed (U : UuidText) (limit : ℕ) (root : FilePath) (es : Entries) (out : ObjectListing)
    : Type 0 where
  pub stored : All (IsStored U limit root es) out.keys
  pub within : length out.keys ≤ limit
  pub cut : (out.truncated ≡ false) ⊎ (0 < limit) × (length out.keys ≡ limit)

-- When list_objects answers with a listing, over a tree whose names are single path segments: every
-- key in it parses from its own text and leads to a regular file below the objects directory; there
-- are at most `limit` of them; a listing that is marked as truncated did stop at a positive limit: it
-- holds exactly that many keys; and the tree is as before.
pub list_objects_ok :
    (U : UuidText) (limit : ℕ) (store : FilesystemObjectStore) (d : Disk) {out : ObjectListing}
    {d' : Disk}
    → HasSegments d.entries
    → list_objects U limit store d ≡ (ok (some out), d')
    → Listed U limit store.objects_root d.entries out × (d'.entries ≡ d.entries)
unfolding list_objects
list_objects_ok U limit store d {out} {d'} segments e = elim (Bool-cases (limit == 0)) [
  | inl nothing ↦
      let same : no_objects ≡ out = ground (arith, rw nothing at e) in
      (
        subst (Listed U limit store.objects_root d.entries) same
            (record { stored = tt; within = omega arith; cut = inl refl }),
        ap (λ r. r.1.entries) (sym (rw nothing at e)),
      )
  | inr more ↦
      let root = store.objects_root in
      let first : Inv U limit root d.entries ((root, []) ∷ []) no_objects = record {
        stored = tt;
        within = ground arith;
        open_end = refl;
        located = ((sym (append-nil root), tt), tt);
      } in
      let (done, same) =
        walk-Holds U limit d.entries _ _ _ (walk-Keeps U limit root d.entries segments)
          (weight (length d.entries) 3) ((root, []) ∷ []) no_objects d {out = out} {d' = d'} refl
          first (rw more at e) in
      (
        elim done [
          | inl f ↦ record {
            stored = f.stored;
            within = omega (arith, f.full);
            cut = inr (ground (arith, more), f.full);
          }
          | inr i ↦ record {
            stored = i.stored;
            within = omega (arith, i.within);
            cut = inl i.open_end;
          }
        ],
        same,
      )
]
