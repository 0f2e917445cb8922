-- ===== src/Storage/Fs/Steps.antt =====
-- The store as a client sees it: any sequence of its operations, each of which may fail.
use otdel.Prelude.{ℕ, ◌+◌, ◌-◌, ◌<◌, sym, ap, ◌∙◌, subst, inl, inr, Bool, List}
use otdel.Prelude.Text.{Text}
use otdel.Storage.Uuid.{UuidText, IsUuidText, uuid_limit}
use otdel.Storage.Key.{ObjectNamespace, ObjectKey}
use otdel.Storage.Disk.{Entries, Disk}
use otdel.Storage.Disk.Calls.{file_at, Same}
use otdel.Storage.Fs.{FilesystemObjectStore, ByteStream, put_stream, abandon}
use otdel.Storage.Fs.Failure.{abandon-other}
use otdel.Storage.Fs.Publish.{IsTree, place-ne-staging}
use otdel.Storage.Fs.Objects.Effects.{
  FilesShrink, open_object-Same, delete-FilesShrink, health-other,
}
use otdel.Storage.Fs.Listing.Effects.{list_objects-Same}
use otdel.Storage.Fs.Objects.{delete, health, open_object}
use otdel.Storage.Fs.Objects.Intact.{IsIntact, put_stream-IsIntact}
use otdel.Storage.Fs.Staging.{sweep_staging}
use otdel.Storage.Fs.Staging.Swept.{Swept}
use otdel.Storage.Fs.Staging.Cleared.{sweep_staging-Swept}
use otdel.Storage.Fs.Listing.{list_objects}

module _ (U : UuidText) (sha256 : List ℕ → List ℕ) (store : FilesystemObjectStore) where
  -- One operation, from the state before to the state after.
  pub data Step (d : Disk) : Disk → Type 0 where
    put :
        (name : Text) (ns : ObjectNamespace) (body : ByteStream)
        → ns.bureau_id < uuid_limit
        → ns.partner_id < uuid_limit
        → Step d (put_stream U sha256 store name ns body d).1
    -- The client goes away while the body is read.
    abandoned : (name : Text) (received : ByteStream) → Step d (abandon store name received d)
    get : (key : ObjectKey) → Step d (open_object store key d).1
    remove : (key : ObjectKey) → Step d (delete store key d).1
    probe : (name : Text) → Step d (health store name d).1
    sweep : (older_than : ℕ) → Step d (sweep_staging store older_than d).1
    list : (limit : ℕ) → Step d (list_objects U limit store d).1
    -- Time passes, and the operating system decides which of the coming calls it will fail.
    environment :
        (faults : List Bool) (later : ℕ)
        → Step d (record d { faults = faults; clock = d.clock + later })

  pub data Steps (d : Disk) : Disk → Type 0 where
    none_yet : Steps d d
    then_one : {d₁ d₂ : Disk} → Steps d d₁ → Step d₁ d₂ → Steps d d₂

module _ (U : UuidText) (sha256 : List ℕ → List ℕ) (store : FilesystemObjectStore)
    (L : IsUuidText U) (tree : IsTree store) where
  shrunk-IsIntact :
      (es es' : Entries)
      → FilesShrink es es'
      → IsIntact U sha256 store es
      → IsIntact U sha256 store es'
  shrunk-IsIntact es es' shrink intact raw key place bytes t h r held = elim (shrink place) [
    | inl same ↦ intact raw key place bytes t h r (sym same ∙ held)
    | inr gone ↦ cc (sym gone ∙ held)
  ]

  Same-IsIntact :
      (es es' : Entries) → Same es es' → IsIntact U sha256 store es → IsIntact U sha256 store es'
  Same-IsIntact es es' e intact = subst (IsIntact U sha256 store) (sym e) intact

  Swept-FilesShrink :
      (cutoff : ℕ) (es es' : Entries) → Swept store.staging_root cutoff es es' → FilesShrink es es'
  Swept-FilesShrink cutoff es es' s q = elim (s q) [
    | inl same ↦ inl (ap file_at same)
    | inr r ↦ inr (ap file_at r.gone)
  ]

  Step-IsIntact :
      {d d' : Disk}
      → Step U sha256 store d d'
      → IsIntact U sha256 store d.entries
      → IsIntact U sha256 store d'.entries
  Step-IsIntact {d} (put name ns body b p) intact =
      put_stream-IsIntact U sha256 store L tree name ns body d b p intact
  Step-IsIntact {d} (abandoned name received) intact = λ raw key place bytes t h r held.
      intact raw key place bytes t h r (
        sym (
          abandon-other store name received d place
            (λ e. place-ne-staging U store name raw tree h r (sym e)))
        ∙ held)
  Step-IsIntact {d} (get key) intact =
      Same-IsIntact d.entries _ (open_object-Same store key d) intact
  Step-IsIntact {d} (remove key) intact =
      shrunk-IsIntact d.entries _ (delete-FilesShrink store key d) intact
  Step-IsIntact {d} (probe name) intact = λ raw key place bytes t h r held.
      intact raw key place bytes t h r (
        sym (
          health-other store name d place (λ e. place-ne-staging U store name raw tree h r (sym e)))
        ∙ held)
  Step-IsIntact {d} (sweep older_than) intact =
      shrunk-IsIntact d.entries _
        (Swept-FilesShrink (d.clock - older_than) d.entries _
          (sweep_staging-Swept store older_than d))
        intact
  Step-IsIntact {d} (list limit) intact =
      Same-IsIntact d.entries _ (list_objects-Same U limit store d) intact
  Step-IsIntact {d} (environment faults later) intact = intact

  -- If the bytes of every regular file that a key leads to have the digest which the key names, the
  -- same holds after uploads of namespaces with valid ids, dropped uploads, reads, deletions, probes,
  -- sweeps and listings in any order, whichever calls the operating system fails and however much
  -- time passes in between.
  pub Steps-IsIntact :
      {d d' : Disk}
      → IsIntact U sha256 store d.entries
      → Steps U sha256 store d d'
      → IsIntact U sha256 store d'.entries
  Steps-IsIntact intact none_yet = intact
  Steps-IsIntact intact (then_one steps step) = Step-IsIntact step (Steps-IsIntact intact steps)
